-- ===== src/Service/Status/Prices.antt =====
-- Which prices of the status are shown, and which are named as unavailable.
use tornado_4337_relayer.Base.{
  ℕ, ◌≡◌, refl, arith, Bool, true, false, not, ◌&&◌, ◌||◌, Option, none, some, List, [], ◌∷◌, ◌++◌,
  any, ◌==◌, Bool-cases, inl, inr, if◌then◌else◌,
}
use tornado_4337_relayer.Base.Text.{Text, text_eq, text_key, text_eq_iff}
use tornado_4337_relayer.Base.Dict
use tornado_4337_relayer.Base.Dict.{get-set}
use tornado_4337_relayer.Viem.{zero_address}
use tornado_4337_relayer.UserOp.{to_lower_case}
use tornado_4337_relayer.Price.{wei_per_token_from}
use tornado_4337_relayer.Service.{InstanceInfo}
use tornado_4337_relayer.Service.Status.{
  Answers, Field, checked_at_block, deposit_wei, stake_wei, registry, committed_wei, eth_price,
  EthPrices, eth_prices, add_price, price_of,
}

abbrev pub same_field : Field → Field → Bool
same_field checked_at_block checked_at_block = true
same_field deposit_wei deposit_wei = true
same_field stake_wei stake_wei = true
same_field registry registry = true
same_field committed_wei committed_wei = true
same_field (eth_price s) (eth_price t) = text_eq s t
same_field _ _ = false

-- `unavailable` has an entry under the name `f`
abbrev pub Names : List Field → Field → Type 0
Names l f = any (same_field f) l ≡ true

pub any-append :
    {A : Type 0} (p : A → Bool) (xs ys : List A) → any p (xs ++ ys) ≡ (any p xs || any p ys)
any-append p [] ys = refl
any-append p (x ∷ xs) ys = ground (arith, any-append p xs ys)

abbrev pub is_some : {A : Type 0} → Option A → Bool
is_some none = false
is_some (some a) = true

-- what one token of the pool is worth now, in wei, if the price source says so
abbrev pub worth : Answers → InstanceInfo → Option ℕ
worth now i = elim (now.token_per_eth i.token i.decimals) [
  | none ↦ none
  | some rate ↦ wei_per_token_from rate i.decimals
]

-- the token pools whose symbol is `symbol`
abbrev pub is_pool_of : Text → InstanceInfo → Bool
is_pool_of symbol i = not (i.token == zero_address) && text_eq symbol (to_lower_case i.symbol)

module _ (now : Answers) (symbol : Text) where
  abbrev named : EthPrices → Bool
  named p = any (same_field (eth_price symbol)) p.failed

  abbrev shown : EthPrices → Bool
  shown p = is_some (Dict.get p.prices symbol)

  -- the two tests of a pool
  abbrev pub lacks_price : InstanceInfo → Bool
  lacks_price i = is_pool_of symbol i && not (is_some (worth now i))

  abbrev pub has_price : InstanceInfo → Bool
  has_price i = is_pool_of symbol i && is_some (worth now i)

  -- one round of the loop
  abbrev after : InstanceInfo → EthPrices → EthPrices
  after i p =
      if i.token == zero_address then p else add_price (to_lower_case i.symbol) (price_of now i) p

  price_of_lem : (i : InstanceInfo) → price_of now i ≡ worth now i
  unfolding price_of
  price_of_lem i = refl

  named-add_price :
      (t : Text) (o : Option ℕ) (p : EthPrices)
      → named (add_price t o p) ≡ (named p || (text_eq symbol t && not (is_some o)))
  unfolding add_price
  named-add_price t none p =
      ground (arith, any-append (same_field (eth_price symbol)) p.failed (eth_price t ∷ []))
  named-add_price t (some wei) p = ground arith

  shown-add_price :
      (t : Text) (o : Option ℕ) (p : EthPrices)
      → shown (add_price t o p) ≡ (shown p || (text_eq symbol t && is_some o))
  unfolding add_price
  shown-add_price t none p = ground arith
  shown-add_price t (some wei) p = elim (Bool-cases (text_eq t symbol)) [
    | inl same ↦
        ground (arith, get-set p.prices t symbol wei, text_eq_iff t symbol, text_eq_iff symbol t)
    | inr other ↦
        ground (arith, get-set p.prices t symbol wei, text_eq_iff t symbol, text_eq_iff symbol t)
  ]

  named-after : (i : InstanceInfo) (p : EthPrices) → named (after i p) ≡ (named p || lacks_price i)
  named-after i p = elim (Bool-cases (i.token == zero_address)) [
    | inl eth ↦ rw eth (ground arith)
    | inr token ↦
        rw (token, price_of_lem i) (named-add_price (to_lower_case i.symbol) (worth now i) p)
  ]

  shown-after : (i : InstanceInfo) (p : EthPrices) → shown (after i p) ≡ (shown p || has_price i)
  shown-after i p = elim (Bool-cases (i.token == zero_address)) [
    | inl eth ↦ rw eth (ground arith)
    | inr token ↦
        rw (token, price_of_lem i) (shown-add_price (to_lower_case i.symbol) (worth now i) p)
  ]

  pub named-eth_prices :
      (l : List InstanceInfo) (p : EthPrices)
      → any (same_field (eth_price symbol)) (eth_prices now l p).failed
        ≡ (any (same_field (eth_price symbol)) p.failed || any lacks_price l)
  unfolding eth_prices
  named-eth_prices [] p = ground arith
  named-eth_prices (i ∷ l) p = ground (arith, named-eth_prices l (after i p), named-after i p)

  pub shown-eth_prices :
      (l : List InstanceInfo) (p : EthPrices)
      → is_some (Dict.get (eth_prices now l p).prices symbol)
        ≡ (is_some (Dict.get p.prices symbol) || any has_price l)
  unfolding eth_prices
  shown-eth_prices [] p = ground arith
  shown-eth_prices (i ∷ l) p = ground (arith, shown-eth_prices l (after i p), shown-after i p)

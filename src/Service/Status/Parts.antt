-- ===== src/Service/Status/Parts.antt =====
-- The parts of `unavailable`: what each names.
use tornado_4337_relayer.Base.{
  ℕ, ◌≡◌, ◌↔◌, refl, arith, Bool, true, false, ◌||◌, Option, none, some, List, [], ◌∷◌, ◌++◌, any,
  ◌==◌, if◌then◌else◌,
}
use tornado_4337_relayer.Base.Text.{Text, text_key}
use tornado_4337_relayer.Viem.{zero_address}
use tornado_4337_relayer.Store.{GasCost, known, unknown}
use tornado_4337_relayer.Service.{InstanceInfo}
use tornado_4337_relayer.Service.Status.Prices.{same_field, Names, any-append}
use tornado_4337_relayer.Service.Status.{
  Answers, Field, checked_at_block, deposit_wei, stake_wei, registry, committed_wei, eth_price,
  EthPrices, attempt, committed_field, committed_wei_of, eth_prices, add_price, price_of,
}

-- what is not a price
abbrev pub is_price : Field → Bool
is_price (eth_price s) = true
is_price _ = false

price-other :
    (f : Field) (symbol : Text) → is_price f ≡ false → same_field f (eth_price symbol) ≡ false
price-other checked_at_block symbol e = refl
price-other deposit_wei symbol e = refl
price-other stake_wei symbol e = refl
price-other registry symbol e = refl
price-other committed_wei symbol e = refl
price-other (eth_price s) symbol e = cc

module _ (f : Field) (other : is_price f ≡ false) where
  -- `f` is not among the prices that are missing
  abbrev pub Unnamed : EthPrices → Type 0
  Unnamed p = any (same_field f) p.failed ≡ false

  add_price-Unnamed :
      (symbol : Text) (o : Option ℕ) (p : EthPrices) → Unnamed p → Unnamed (add_price symbol o p)
  unfolding add_price
  add_price-Unnamed symbol none p e = ground (
    arith,
    any-append (same_field f) p.failed (eth_price symbol ∷ []),
    price-other f symbol other,
  )
  add_price-Unnamed symbol (some wei) p e = e

  either : (b : Bool) (p q : EthPrices) → Unnamed p → Unnamed q → Unnamed (if b then p else q)
  either true p q hp hq = hp
  either false p q hp hq = hq

  pub eth_prices-Unnamed :
      (now : Answers) (l : List InstanceInfo) (p : EthPrices)
      → Unnamed p
      → Unnamed (eth_prices now l p)
  unfolding eth_prices
  eth_prices-Unnamed now [] p e = e
  eth_prices-Unnamed now (i ∷ l) p e =
      eth_prices-Unnamed now l _
        (either (i.token == zero_address) p _ e (add_price-Unnamed _ (price_of now i) p e))

  pub attempt-other :
      {A : Type 0} (g : Field) (o : Option A)
      → same_field f g ≡ false
      → any (same_field f) (attempt g o) ≡ false
  attempt-other g none e = ground arith
  attempt-other g (some a) e = refl

  pub committed-other :
      (g : GasCost)
      → same_field f committed_wei ≡ false
      → any (same_field f) (committed_field g) ≡ false
  committed-other (known n) e = refl
  committed-other (unknown count until) e = ground arith

  -- A test of the whole list, part by part.
  pub parts :
      (a b c m k failed : List Field)
      → any (same_field f) failed ≡ false
      → any (same_field f) ((a ++ (b ++ (c ++ (m ++ k)))) ++ failed) ≡ (
          any (same_field f) a
          || (any (same_field f) b
              || (any (same_field f) c || (any (same_field f) m || any (same_field f) k))))
  parts a b c m k failed e = ground (
    arith,
    any-append (same_field f) (a ++ (b ++ (c ++ (m ++ k)))) failed,
    any-append (same_field f) a (b ++ (c ++ (m ++ k))),
    any-append (same_field f) b (c ++ (m ++ k)),
    any-append (same_field f) c (m ++ k),
    any-append (same_field f) m k,
  )

pub attempt-own :
    {A : Type 0} (g : Field) (o : Option A)
    → same_field g g ≡ true
    → (o ≡ none) ↔ Names (attempt g o) g
attempt-own g none e = ((λ h. ground arith), λ h. refl)
attempt-own g (some a) e = ((λ h. cc), λ h. cc)

pub committed-own :
    (g : GasCost) → (committed_wei_of g ≡ none) ↔ Names (committed_field g) committed_wei
committed-own (known n) = ((λ h. cc), λ h. cc)
committed-own (unknown count until) = ((λ h. refl), λ h. refl)

pub attempt-unpriced :
    {A : Type 0} (symbol : Text) (g : Field) (o : Option A)
    → same_field (eth_price symbol) g ≡ false
    → any (same_field (eth_price symbol)) (attempt g o) ≡ false
attempt-unpriced symbol g none e = ground arith
attempt-unpriced symbol g (some a) e = refl

committed-unpriced :
    (symbol : Text) (g : GasCost) → any (same_field (eth_price symbol)) (committed_field g) ≡ false
committed-unpriced symbol (known n) = refl
committed-unpriced symbol (unknown count until) = refl

pub unpriced_parts :
    (symbol : Text) (a b c : Option ℕ) (m : List Field) (g : GasCost)
    → any (same_field (eth_price symbol)) m ≡ false
    → any (same_field (eth_price symbol)) (
        attempt checked_at_block a
        ++ (attempt deposit_wei b ++ (attempt stake_wei c ++ (m ++ committed_field g))))
      ≡ false
unpriced_parts symbol a b c m g free = ground (
  arith,
  any-append (same_field (eth_price symbol)) (attempt checked_at_block a)
      (attempt deposit_wei b ++ (attempt stake_wei c ++ (m ++ committed_field g))),
  any-append (same_field (eth_price symbol)) (attempt deposit_wei b)
      (attempt stake_wei c ++ (m ++ committed_field g)),
  any-append (same_field (eth_price symbol)) (attempt stake_wei c) (m ++ committed_field g),
  any-append (same_field (eth_price symbol)) m (committed_field g),
  attempt-unpriced symbol checked_at_block a refl,
  attempt-unpriced symbol deposit_wei b refl,
  attempt-unpriced symbol stake_wei c refl,
  free,
  committed-unpriced symbol g,
)

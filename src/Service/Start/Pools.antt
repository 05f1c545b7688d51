-- ===== src/Service/Start/Pools.antt =====
-- The pools that a start has found.
use tornado_4337_relayer.Base.{
  ℕ, ◌≡◌, ◌≢◌, ◌⊎◌, inl, inr, refl, sym, ap, ◌∙◌, arith, true, not, some, List, [], ◌∷◌, ◌==◌, ok,
  or_throw, or_throw-eq-ok, throw_if, >>=-eq-ok, ok_injective, Bool-cases, address_key,
}
use mathlib.Core.Path.{subst}
use tornado_4337_relayer.Base.Dict
use tornado_4337_relayer.Base.Dict.{Dict, get-set}
use tornado_4337_relayer.Errors.{failure, thrown, no_price_source}
use tornado_4337_relayer.Viem.{Address, zero_address}
use tornado_4337_relayer.Service.{InstanceInfo}
use tornado_4337_relayer.Service.Registry.Probed.{Listed, Listed-cases}
use tornado_4337_relayer.Service.Start.{
  RelayerConfig, Read, value, reverted, failed, Chain, token_of, symbol_of, erc20_info,
  read_instance, read_instances,
}

module _ (cfg : RelayerConfig) (chain : Chain) where
  -- An ETH pool is one whose `token()` reverts, or answers zero. A token pool has the token that
  -- was answered, its decimals, and a price.
  pub data Kind (a : Address) (info : InstanceInfo) : Type 0 where
    eth_pool :
        (chain.token a ≡ reverted) ⊎ (chain.token a ≡ value zero_address)
        → info.token ≡ zero_address
        → info.decimals ≡ 18
        → Kind a info
    token_pool :
        (rate : ℕ)
        → chain.token a ≡ value info.token
        → info.token ≢ zero_address
        → chain.decimals info.token ≡ some info.decimals
        → cfg.has_price_source ≡ true
        → chain.token_per_eth info.token info.decimals ≡ some rate
        → Kind a info

  pub record Pool (a : Address) (info : InstanceInfo) : Type 0 where
    pub denomination_read : chain.denomination a ≡ some info.denomination
    pub kind : Kind a info

  token_of-eq-ok :
      (a token : Address) (r : Read Address)
      → token_of a r ≡ ok token
      → ((r ≡ reverted) × (token ≡ zero_address)) ⊎ (r ≡ value token)
  unfolding token_of
  token_of-eq-ok a token (value t) e = inr (ap value (ok_injective t token e))
  token_of-eq-ok a token reverted e = inl (refl, cc)
  token_of-eq-ok a token failed e = cc

  eth_by :
      (a token : Address) (info : InstanceInfo)
      → ((chain.token a ≡ reverted) × (token ≡ zero_address)) ⊎ (chain.token a ≡ value token)
      → token ≡ zero_address
      → info.token ≡ zero_address
      → info.decimals ≡ 18
      → Kind a info
  eth_by a token info (inl (r, z)) e e1 e2 = eth_pool (inl r) e1 e2
  eth_by a token info (inr v) e e1 e2 = eth_pool (inr (v ∙ ap value e)) e1 e2

  answered_by :
      (a token : Address)
      → token ≢ zero_address
      → ((chain.token a ≡ reverted) × (token ≡ zero_address)) ⊎ (chain.token a ≡ value token)
      → chain.token a ≡ value token
  answered_by a token differs (inl (r, z)) = absurd (differs z)
  answered_by a token differs (inr v) = v

  erc20-Pool :
      (a token : Address) (denomination : ℕ) (info : InstanceInfo)
      → chain.denomination a ≡ some denomination
      → chain.token a ≡ value token
      → token ≢ zero_address
      → erc20_info cfg chain a denomination token ≡ ok info
      → Pool a info
  unfolding erc20_info
  erc20-Pool a token denomination info read is differs e =
      let (u, priced, e1) =
        >>=-eq-ok (throw_if (not cfg.has_price_source) (failure (no_price_source a))) _ e in
      let (decimals, read1, e2) =
        >>=-eq-ok (or_throw (chain.decimals token) (failure thrown)) _ e1 in
      let (symbol, read2, e3) = >>=-eq-ok (symbol_of token (chain.symbol token)) _ e2 in
      let (rate, read3, e4) =
        >>=-eq-ok (or_throw (chain.token_per_eth token decimals) (failure thrown)) _ e3 in
      let has_source : cfg.has_price_source ≡ true = ground arith in
      subst (Pool a) (ok_injective _ info e4) (record {
        denomination_read = read;
        kind =
            token_pool rate is differs (or_throw-eq-ok _ (failure thrown) read1) has_source
              (or_throw-eq-ok _ (failure thrown) read3);
      })

  read_instance-Pool :
      (a : Address) (info : InstanceInfo) → read_instance cfg chain a ≡ ok info → Pool a info
  unfolding read_instance
  read_instance-Pool a info e =
      let (denomination, read, e1) =
        >>=-eq-ok (or_throw (chain.denomination a) (failure thrown)) _ e in
      let known = or_throw-eq-ok _ (failure thrown) read in
      let (token, is, e2) = >>=-eq-ok (token_of a (chain.token a)) _ e1 in
      let cases = token_of-eq-ok a token (chain.token a) is in
      elim (Bool-cases (token == zero_address)) [
        | inl eth ↦ subst (Pool a) (ok_injective _ info (rw eth at e2)) (record {
          denomination_read = known;
          kind = eth_by a token _ cases (ground arith) refl refl;
        })
        | inr other ↦
            let differs : token ≢ zero_address = ground arith in
            erc20-Pool a token denomination info known (answered_by a token differs cases) differs
              (rw other at e2)
      ]

  abbrev pub AllPools : Dict Address InstanceInfo → Type 0
  AllPools d = (a : Address) (info : InstanceInfo) → Dict.get d a ≡ some info → Pool a info

  set-AllPools :
      (d : Dict Address InstanceInfo) (b : Address) (found : InstanceInfo)
      → AllPools d
      → Pool b found
      → AllPools (Dict.set d b found)
  set-AllPools d b found pools pool a info e = elim (Bool-cases (b == a)) [
    | inl same ↦
        let is : b ≡ a = ground arith in
        let eq : some found ≡ some info = ground (arith, get-set d b a found) in
        subst (λ x. Pool x info) is (subst (Pool b) (cc eq) pool)
    | inr other ↦ pools a info (ground (arith, get-set d b a found))
  ]

  pub read_instances-AllPools :
      (l : List Address) (d found : Dict Address InstanceInfo)
      → read_instances cfg chain l d ≡ ok found
      → AllPools d
      → AllPools found
  unfolding read_instances
  read_instances-AllPools [] d found e pools = subst AllPools (ok_injective d found e) pools
  read_instances-AllPools (b ∷ l) d found e pools =
      let (info, read, e1) = >>=-eq-ok (read_instance cfg chain b) _ e in
      read_instances-AllPools l (Dict.set d b info) found e1
        (set-AllPools d b info pools (read_instance-Pool b info read))

  abbrev pub Served : Dict Address InstanceInfo → Address → Type 0
  Served d a = (info : InstanceInfo) × (Dict.get d a ≡ some info)

  set-Served :
      (d : Dict Address InstanceInfo) (a b : Address) (found : InstanceInfo)
      → (b ≡ a) ⊎ Served d a
      → Served (Dict.set d b found) a
  set-Served d a b found h = elim (Bool-cases (b == a)) [
    | inl same ↦ (found, ground (arith, get-set d b a found))
    | inr other ↦ elim h [
      | inl same ↦ absurd (ground arith)
      | inr (info, e) ↦ (info, ground (arith, get-set d b a found))
    ]
  ]

  pub read_instances-Served :
      (l : List Address) (d found : Dict Address InstanceInfo) (a : Address)
      → read_instances cfg chain l d ≡ ok found
      → Listed a l ⊎ Served d a
      → Served found a
  unfolding read_instances
  read_instances-Served [] d found a e (inl h) = cc
  read_instances-Served [] d found a e (inr h) = subst (λ x. Served x a) (ok_injective d found e) h
  read_instances-Served (b ∷ l) d found a e h =
      let (info, read, e1) = >>=-eq-ok (read_instance cfg chain b) _ e in
      let now : Listed a l ⊎ Served (Dict.set d b info) a = elim h [
        | inr had ↦ inr (set-Served d a b info (inr had))
        | inl listed ↦ elim (Listed-cases a b l listed) [
          | inl same ↦ inr (set-Served d a b info (inl same))
          | inr later ↦ inl later
        ]
      ] in
      read_instances-Served l (Dict.set d b info) found a e1 now

  pub empty-AllPools : AllPools []
  unfolding Dict.get
  empty-AllPools a info e = cc

  step-Listed :
      (a b : Address) (l : List Address) (d : Dict Address InstanceInfo) (put info : InstanceInfo)
      → Listed a l ⊎ (Dict.get (Dict.set d b put) a ≡ some info)
      → Listed a (b ∷ l) ⊎ (Dict.get d a ≡ some info)
  step-Listed a b l d put info (inl h) = inl (ground arith)
  step-Listed a b l d put info (inr e) = elim (Bool-cases (b == a)) [
    | inl same ↦ inl (ground arith)
    | inr other ↦ inr (ground (arith, get-set d b a put))
  ]

  read_instances-Listed :
      (l : List Address) (d found : Dict Address InstanceInfo) (a : Address) (info : InstanceInfo)
      → read_instances cfg chain l d ≡ ok found
      → Dict.get found a ≡ some info
      → Listed a l ⊎ (Dict.get d a ≡ some info)
  unfolding read_instances
  read_instances-Listed [] d found a info e is =
      inr (subst (λ x. Dict.get x a ≡ some info) (sym (ok_injective d found e)) is)
  read_instances-Listed (b ∷ l) d found a info e is =
      let (put, read, e1) = >>=-eq-ok (read_instance cfg chain b) _ e in
      step-Listed a b l d put info (read_instances-Listed l (Dict.set d b put) found a info e1 is)

  -- Nothing is served that is not configured.
  pub served-Listed :
      (l : List Address) (found : Dict Address InstanceInfo) (a : Address) (info : InstanceInfo)
      → read_instances cfg chain l [] ≡ ok found
      → Dict.get found a ≡ some info
      → Listed a l
  unfolding Dict.get
  served-Listed l found a info e is = elim (read_instances-Listed l [] found a info e is) [
    | inl h ↦ h
    | inr nothing ↦ absurd cc
  ]

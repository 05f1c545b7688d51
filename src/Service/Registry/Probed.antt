-- ===== src/Service/Registry/Probed.antt =====
-- What a registry that was read is.
use tornado_4337_relayer.Base.{
  ℕ, ◌≡◌, ◌≢◌, ◌⊎◌, inl, inr, refl, sym, arith, true, false, some, List, [], ◌∷◌, any, ◌==◌, ok,
  or_throw, or_throw-eq-ok, >>=-eq-ok, ok_injective, Bool-cases, address_key,
}
use mathlib.Core.Path.{subst}
use tornado_4337_relayer.Base.Dict
use tornado_4337_relayer.Base.Dict.{Dict, get-set}
use tornado_4337_relayer.Errors.{failure, thrown}
use tornado_4337_relayer.Viem.{Address, zero_address}
use tornado_4337_relayer.Service.Registry.{
  RegistryInfo, Dao, without_router, read_burns, burns, mode_of, probe_routed, probe_registry,
}

-- `a` is in the list
abbrev pub Listed : Address → List Address → Type 0
Listed a l = any (λ b. b == a) l ≡ true

pub Listed-cases : (a b : Address) (l : List Address) → Listed a (b ∷ l) → (b ≡ a) ⊎ Listed a l
Listed-cases a b l h = ground arith

module _ (dao : Dao) where
  -- the fee that the fee manager has answered for `a` is the one in `burn`
  pub record Burns (fee_manager : Address) (burn : Dict Address ℕ) (a : Address) : Type 0 where
    pub fee : ℕ
    pub answered : dao.instance_fee fee_manager a ≡ some fee
    pub recorded : Dict.get burn a ≡ some fee

  put-Burns :
      (fm : Address) (d : Dict Address ℕ) (a b : Address) (fee : ℕ)
      → dao.instance_fee fm b ≡ some fee
      → b ≡ a
      → Burns fm (Dict.set d b fee) a
  put-Burns fm d a b fee read same = record {
    fee = fee;
    answered = subst (λ x. dao.instance_fee fm x ≡ some fee) same read;
    recorded = ground (arith, get-set d b a fee);
  }

  set-Burns :
      (fm : Address) (d : Dict Address ℕ) (a b : Address) (fee : ℕ)
      → dao.instance_fee fm b ≡ some fee
      → Burns fm d a
      → Burns fm (Dict.set d b fee) a
  set-Burns fm d a b fee read had = elim (Bool-cases (b == a)) [
    | inl same ↦ put-Burns fm d a b fee read (ground arith)
    | inr other ↦ record {
      fee = had.fee;
      answered = had.answered;
      recorded = ground (arith, get-set d b a fee, had.recorded);
    }
  ]

  read_burns-Burns :
      (fm : Address) (l : List Address) (d burn : Dict Address ℕ) (a : Address)
      → read_burns dao fm l d ≡ ok burn
      → Listed a l ⊎ Burns fm d a
      → Burns fm burn a
  unfolding read_burns
  read_burns-Burns fm [] d burn a e (inl h) = cc
  read_burns-Burns fm [] d burn a e (inr h) = subst (λ x. Burns fm x a) (ok_injective d burn e) h
  read_burns-Burns fm (b ∷ l) d burn a e h =
      let (fee, read, e1) = >>=-eq-ok (or_throw (dao.instance_fee fm b) (failure thrown)) _ e in
      let answered = or_throw-eq-ok _ (failure thrown) read in
      let now : Listed a l ⊎ Burns fm (Dict.set d b fee) a = elim h [
        | inr had ↦ inr (set-Burns fm d a b fee answered had)
        | inl listed ↦ elim (Listed-cases a b l listed) [
          | inl same ↦ inr (put-Burns fm d a b fee answered same)
          | inr later ↦ inl later
        ]
      ] in
      read_burns-Burns fm l (Dict.set d b fee) burn a e1 now

  module _ (paymaster router : Address) (instances : List Address) where
    -- Every value was answered. Where there is a fee manager, each pool's burn is its answer; without
    -- one there are none.
    pub record Routed (r : RegistryInfo) : Type 0 where
      pub has_router : router ≢ zero_address
      pub same_router : r.router ≡ router
      pub named : dao.relayer_registry router ≡ some r.relayer_registry
      pub resolved : dao.workers r.relayer_registry ≡ some r.master_of
      pub mode_is : r.mode ≡ mode_of paymaster r.master_of
      pub stake_read : dao.relayer_balance r.relayer_registry ≡ some r.stake
      pub min_stake_read : dao.min_stake_amount r.relayer_registry ≡ some r.min_stake
      pub ens_hash_read : dao.relayer_ens_hash r.relayer_registry ≡ some r.ens_hash
      pub fee_manager : Address
      pub manager_read : dao.fee_manager r.relayer_registry ≡ some fee_manager
      pub burn_read :
          fee_manager ≢ zero_address
          → (a : Address) → Listed a instances
          → Burns fee_manager r.burn_per_withdraw a
      pub no_burn : fee_manager ≡ zero_address → r.burn_per_withdraw ≡ []

    no_burns :
        (fm : Address) (burn : Dict Address ℕ)
        → burns dao fm instances ≡ ok burn
        → fm ≡ zero_address
        → burn ≡ []
    unfolding burns
    no_burns fm burn e is =
        let off : (fm == zero_address) ≡ true = ground arith in
        sym (ok_injective [] burn (rw (off, burns) at e))

    burns-Burns :
        (fm : Address) (burn : Dict Address ℕ)
        → burns dao fm instances ≡ ok burn
        → fm ≢ zero_address
        → (a : Address) → Listed a instances
        → Burns fm burn a
    unfolding burns
    burns-Burns fm burn e has a listed =
        let on : (fm == zero_address) ≡ false = ground (arith, has) in
        read_burns-Burns fm instances [] burn a (rw (on, burns) at e) (inl listed)

    routed :
        (r : RegistryInfo)
        → router ≢ zero_address
        → probe_routed dao paymaster router instances ≡ ok r
        → Routed r
    unfolding probe_routed
    routed r has e =
        let (registry, read1, e1) =
          >>=-eq-ok (or_throw (dao.relayer_registry router) (failure thrown)) _ e in
        let (resolved, read2, e2) =
          >>=-eq-ok (or_throw (dao.workers registry) (failure thrown)) _ e1 in
        let (stake, read3, e3) =
          >>=-eq-ok (or_throw (dao.relayer_balance registry) (failure thrown)) _ e2 in
        let (min_stake, read4, e4) =
          >>=-eq-ok (or_throw (dao.min_stake_amount registry) (failure thrown)) _ e3 in
        let (ens, read5, e5) =
          >>=-eq-ok (or_throw (dao.relayer_ens_hash registry) (failure thrown)) _ e4 in
        let (fm, read6, e6) =
          >>=-eq-ok (or_throw (dao.fee_manager registry) (failure thrown)) _ e5 in
        let (burn, read7, e7) = >>=-eq-ok (burns dao fm instances) _ e6 in
        subst Routed (ok_injective _ r e7) (record {
          has_router = has;
          same_router = refl;
          named = or_throw-eq-ok _ (failure thrown) read1;
          resolved = or_throw-eq-ok _ (failure thrown) read2;
          mode_is = refl;
          stake_read = or_throw-eq-ok _ (failure thrown) read3;
          min_stake_read = or_throw-eq-ok _ (failure thrown) read4;
          ens_hash_read = or_throw-eq-ok _ (failure thrown) read5;
          fee_manager = fm;
          manager_read = or_throw-eq-ok _ (failure thrown) read6;
          burn_read = burns-Burns fm burn read7;
          no_burn = no_burns fm burn read7;
        })

    abbrev pub Probed : RegistryInfo → Type 0
    Probed r = ((router ≡ zero_address) × (r ≡ without_router router)) ⊎ Routed r

    pub probe_registry-Probed :
        (r : RegistryInfo) → probe_registry dao paymaster router instances ≡ ok r → Probed r
    unfolding probe_registry
    probe_registry-Probed r e = elim (Bool-cases (router == zero_address)) [
      | inl off ↦ inl (ground arith, sym (ok_injective _ r (rw (off, probe_registry) at e)))
      | inr on ↦ inr (routed r (ground arith) (rw (on, probe_registry) at e))
    ]

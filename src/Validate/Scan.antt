-- ===== src/Validate/Scan.antt =====
-- What the loop of `decodeTornadoWithdraws` of relayer/src/validate.ts finds in a list of calls of
-- which one goes to the paymaster.
use tornado_4337_relayer.Base.{
  ℕ, suc, ◌+◌, ◌≡◌, refl, ap, ◌∙◌, Bool, true, false, Option, none, some, List, [], ◌∷◌, ◌++◌,
  arith, ◌==◌, length, get_elem?, filter, All, Bool-cases, inl, inr, ◌≤◌,
}
use tornado_4337_relayer.Viem.{
  Viem, Address, DecodedCall, WithdrawArgs, PaymasterCall, relay_withdraw, other_function,
  InstanceCall, withdraw, other_instance_function,
}
use tornado_4337_relayer.Validate.{
  TornadoWithdrawCall, paymaster, is_relayed, push, relayed_at, direct_at, withdraw_at,
  withdraws_from,
}

abbrev pub NotWithdraw : Option InstanceCall → Type 0
NotWithdraw (some (withdraw proof root nullifier recipient relayer fee refund)) = ⊥
NotWithdraw _ = Unit

module _ (v : Viem) where
  -- A call that neither goes to the paymaster nor is a pool's `withdraw`.
  abbrev pub IsQuiet : Address → DecodedCall → Type 0
  IsQuiet pm c = ((c.target == pm) ≡ false) × NotWithdraw (v.decode_instance c.calldata)

  -- the calls that `paymasterCalls` counts
  abbrev pub to_pm : Address → DecodedCall → Bool
  to_pm pm c = c.target == pm

  relayed-le :
      (pm : Address) (i : ℕ) (calls : List DecodedCall)
      → length (filter is_relayed (withdraws_from v (some pm) i calls))
        ≤ length (filter (to_pm pm) calls)
  unfolding withdraws_from withdraw_at relayed_at direct_at
  relayed-le pm i [] = omega arith
  relayed-le pm i (c ∷ calls) = ground (arith, relayed-le pm (suc i) calls)

  withdraws_from-IsQuiet :
      (pm : Address) (i : ℕ) (calls : List DecodedCall)
      → withdraws_from v (some pm) i calls ≡ []
      → length (filter (to_pm pm) calls) ≡ 0
      → All (IsQuiet pm) calls
  unfolding withdraws_from withdraw_at relayed_at direct_at
  withdraws_from-IsQuiet pm i [] e n = tt
  withdraws_from-IsQuiet pm i (c ∷ calls) e n =
      ground (arith, withdraws_from-IsQuiet pm (suc i) calls)

  none_of_quiet :
      (pm : Address) (i : ℕ) (calls : List DecodedCall)
      → All (IsQuiet pm) calls
      → (withdraws_from v (some pm) i calls ≡ []) × (filter (to_pm pm) calls ≡ [])
  unfolding withdraws_from withdraw_at relayed_at direct_at
  none_of_quiet pm i [] q = (refl, refl)
  none_of_quiet pm i (c ∷ calls) (q, qs) = ground (arith, none_of_quiet pm (suc i) calls qs)

  -- The calls from index `i` on, split at the one that pushed `w`.
  pub record SplitAt (pm : Address) (i : ℕ) (calls : List DecodedCall) (w : TornadoWithdrawCall)
      : Type 0 where
    pub before : List DecodedCall
    pub call : DecodedCall
    pub after : List DecodedCall
    pub listed : calls ≡ before ++ (call ∷ after)
    pub to_paymaster : call.target ≡ pm
    pub decoded : v.decode_paymaster call.calldata ≡ some (relay_withdraw w.args)
    pub place : w.index ≡ i + length before
    pub no_refund : w.refund ≡ 0
    pub relayed : w.via ≡ paymaster
    pub quiet_before : All (IsQuiet pm) before
    pub quiet_after : All (IsQuiet pm) after

  longer :
      (pm : Address) (i : ℕ) (c : DecodedCall) (calls : List DecodedCall) (w : TornadoWithdrawCall)
      → IsQuiet pm c
      → SplitAt pm (suc i) calls w
      → SplitAt pm i (c ∷ calls) w
  longer pm i c calls w q p = record {
    before = c ∷ p.before;
    call = p.call;
    after = p.after;
    listed = ap (λ l. c ∷ l) p.listed;
    to_paymaster = p.to_paymaster;
    decoded = p.decoded;
    place = p.place ∙ omega arith;
    no_refund = p.no_refund;
    relayed = p.relayed;
    quiet_before = (q, p.quiet_before);
    quiet_after = p.quiet_after;
  }

  module _ (pm : Address) (i : ℕ) (c : DecodedCall) (calls : List DecodedCall)
      (w : TornadoWithdrawCall) (r : is_relayed w ≡ true) where
    split_here :
        (d : Option PaymasterCall)
        → v.decode_paymaster c.calldata ≡ d
        → (c.target == pm) ≡ true
        → push (relayed_at i d) (withdraws_from v (some pm) (suc i) calls) ≡ w ∷ []
        → length (filter (to_pm pm) calls) ≡ 0
        → SplitAt pm i (c ∷ calls) w
    unfolding relayed_at
    split_here (some (relay_withdraw args)) dec same e n = record {
      before = [];
      call = c;
      after = calls;
      listed = refl;
      to_paymaster = ground arith;
      decoded = ground arith;
      place = ground arith;
      no_refund = ground arith;
      relayed = ground arith;
      quiet_before = tt;
      quiet_after = withdraws_from-IsQuiet pm (suc i) calls (ground arith) n;
    }
    split_here (some other_function) dec same e n =
        absurd (ground (arith, relayed-le pm (suc i) calls))
    split_here none dec same e n = absurd (ground (arith, relayed-le pm (suc i) calls))

    split_later :
        (d : Option InstanceCall)
        → v.decode_instance c.calldata ≡ d
        → (c.target == pm) ≡ false
        → push (direct_at i c.target d) (withdraws_from v (some pm) (suc i) calls) ≡ w ∷ []
        → (withdraws_from v (some pm) (suc i) calls ≡ w ∷ [] → SplitAt pm (suc i) calls w)
        → SplitAt pm i (c ∷ calls) w
    unfolding direct_at
    split_later (some (withdraw p q k a b f g)) dec ne e rest = absurd (ground arith)
    split_later (some other_instance_function) dec ne e rest =
        longer pm i c calls w (ne, rw dec tt) (rest e)
    split_later none dec ne e rest = longer pm i c calls w (ne, rw dec tt) (rest e)

  pub split :
      (pm : Address) (i : ℕ) (calls : List DecodedCall) (w : TornadoWithdrawCall)
      → is_relayed w ≡ true
      → withdraws_from v (some pm) i calls ≡ w ∷ []
      → length (filter (to_pm pm) calls) ≡ 1
      → SplitAt pm i calls w
  unfolding withdraws_from withdraw_at
  split pm i [] w r e n = absurd (omega arith)
  split pm i (c ∷ calls) w r e n = elim (Bool-cases (c.target == pm)) [
    | inl same ↦
        split_here pm i c calls w r (v.decode_paymaster c.calldata) refl same (rw same at e)
          (ground (arith, rw same at n))
    | inr ne ↦
        split_later pm i c calls w r (v.decode_instance c.calldata) refl ne (rw ne at e)
          (λ e'. split pm (suc i) calls w r e' (rw ne at n))
  ]

  pub split_found :
      (pm : Address) (i : ℕ) (before : List DecodedCall) (c : DecodedCall)
      (after : List DecodedCall) (args : WithdrawArgs)
      → All (IsQuiet pm) before
      → All (IsQuiet pm) after
      → (c.target == pm) ≡ true
      → v.decode_paymaster c.calldata ≡ some (relay_withdraw args)
      → (withdraws_from v (some pm) i (before ++ (c ∷ after))
          ≡ record { index = i + length before; args = args; refund = 0; via = paymaster } ∷ [])
        × (length (filter (to_pm pm) (before ++ (c ∷ after))) ≡ 1)
        × (get_elem? (before ++ (c ∷ after)) (length before) ≡ some c)
  unfolding withdraws_from withdraw_at relayed_at direct_at
  split_found pm i [] c after args qb qa same dec =
      let (quiet, none_to) = none_of_quiet pm (suc i) after qa in
      (ground (arith, quiet), ground (arith, none_to), refl)
  split_found pm i (b ∷ before) c after args (q, qb) qa same dec =
      let (e, n, at) = split_found pm (suc i) before c after args qb qa same dec in
      (ground (arith, e), ground (arith, n), at)

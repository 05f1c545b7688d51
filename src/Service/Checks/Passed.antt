-- ===== src/Service/Checks/Passed.antt =====
-- What is known of the outside and of the store where a check of `sign` has passed.
use tornado_4337_relayer.Base.{
  ℕ, ◌+◌, ◌≤◌, ◌≡◌, refl, Bool, true, false, not, Option, none, some, arith, ◌==◌, ◌∙◌, ap, ok,
  throw_if-eq-ok, Bool-cases, Option-cases, inl, inr, ◌⊎◌, or_throw, or_throw-eq-ok, throw_if,
}
use tornado_4337_relayer.Errors.{
  Error, validation_error, deposit_unreadable, registry_unreadable, registration_moved,
  already_spent, unknown_root, failure, thrown,
}
use tornado_4337_relayer.Viem.{WithdrawArgs}
use tornado_4337_relayer.Store.{Store, GasCost, known, unknown, outstanding, committed_gas_cost}
use tornado_4337_relayer.UserOp.{or_else}
use tornado_4337_relayer.Service.{
  Mode, master, worker, unregistered, no_router, Service, World, Simulation, returned, failed,
  simulation_result, for_deposit,
}
use tornado_4337_relayer.Service.Act.{lift->>=-eq-ok}
use tornado_4337_relayer.Service.Checks.{
  covers, below_cap, assert_deposit_covers, has_registration, assert_registration_current,
  simulated, assert_withdraw_simulates,
}

-- The deposit `d` pays for every live entry of `s`, and the reserve is left over.
pub record Covered (svc : Service) (d now : ℕ) (s : Store) : Type 0 where
  pub total : ℕ
  pub counted : committed_gas_cost (outstanding s now) ≡ known total
  pub enough : total + or_else svc.min_deposit_wei 0 ≤ d

GasCost-cases :
    (g : GasCost)
    → ((n : ℕ) × (g ≡ known n)) ⊎ ((count : ℕ) × (until : ℕ) × (g ≡ unknown count until))
GasCost-cases (known n) = inl (n, refl)
GasCost-cases (unknown count until) = inr (count, until, refl)

pub covers-Covered :
    (svc : Service) (d now : ℕ) (s : Store) → covers svc d now s ≡ ok tt → Covered svc d now s
unfolding covers
covers-Covered svc d now s e = elim (GasCost-cases (committed_gas_cost (outstanding s now))) [
  | inr (count, until, g) ↦ cc (rw (g, covers) at e)
  | inl (n, g) ↦ record { total = n; counted = g; enough = ground (arith, rw (g, covers) at e) }
]

-- The cap on the cost of one operation.
abbrev pub UnderCap : Option ℕ → ℕ → Type 0
UnderCap none cost = Unit
UnderCap (some cap) cost = cost ≤ cap

below_cap-UnderCap :
    (svc : Service) (cost : ℕ)
    → below_cap svc cost ≡ ok tt
    → UnderCap svc.max_sponsorship_gas_wei cost
unfolding below_cap
below_cap-UnderCap svc cost e = elim (Option-cases svc.max_sponsorship_gas_wei) [
  | inl free ↦ rw free tt
  | inr (cap, is) ↦ rw is (ground (arith, rw (is, below_cap) at e))
]

-- The check of the deposit, which reads the store after the answer has come.
pub assert_deposit_covers-Covered :
    (svc : Service) (w : World) (cost now : ℕ) (s t : Store)
    → assert_deposit_covers svc w cost now s ≡ (ok tt, t)
    → UnderCap svc.max_sponsorship_gas_wei cost
      × (t ≡ w.meanwhile for_deposit s)
      × ((d : ℕ) × (w.deposit_wei ≡ some d) × Covered svc d now (w.meanwhile for_deposit s))
unfolding assert_deposit_covers
assert_deposit_covers-Covered svc w cost now s t e =
    let (u, capped, e1) = lift->>=-eq-ok (below_cap svc cost) _ e in
    let (d, read, e2) =
      lift->>=-eq-ok (or_throw w.deposit_wei (validation_error deposit_unreadable 32004)) _ e1 in
    (
      below_cap-UnderCap svc cost capped,
      cc,
      (d, or_throw-eq-ok w.deposit_wei _ read, covers-Covered svc d now _ cc),
    )

same_of_guard : (e : Error) (a b : ℕ) → throw_if (not (a == b)) e ≡ ok tt → a ≡ b
same_of_guard e a b h = ground arith

known_of_guard : (e : Error) (b : Bool) → throw_if (not b) e ≡ ok tt → b ≡ true
known_of_guard e b h = ground arith

-- At the start there was no router, or no registration.
abbrev pub Unregistered : Mode → Type 0
Unregistered mode = (mode ≡ no_router) ⊎ (mode ≡ unregistered)

has_registration-false : (mode : Mode) → has_registration mode ≡ false → Unregistered mode
has_registration-false no_router e = inl refl
has_registration-false unregistered e = inr refl
has_registration-false master e = cc
has_registration-false worker e = cc

-- The registry resolves the paymaster to the reward account, if the paymaster was registered.
pub registration_current :
    (svc : Service) (w : World) (s t : Store)
    → assert_registration_current svc w s ≡ (ok tt, t)
    → Unregistered svc.mode ⊎ (w.worker_master ≡ some svc.reward_account)
unfolding assert_registration_current
registration_current svc w s t e = elim (Bool-cases (has_registration svc.mode)) [
  | inr without ↦ inl (has_registration-false svc.mode without)
  | inl registered ↦
      let (a, read, e1) =
        lift->>=-eq-ok (or_throw w.worker_master (validation_error registry_unreadable 32010)) _
          (rw (registered, assert_registration_current) at e) in
      let same =
        same_of_guard (validation_error registration_moved 32010) a svc.reward_account cc in
      inr (or_throw-eq-ok w.worker_master _ read ∙ ap some same)
]

-- What the pool says of the proof.
pub record Withdrawable (w : World) (args : WithdrawArgs) : Type 0 where
  pub unspent : w.is_spent args.pool args.nullifier_hash ≡ some false
  pub known_root : w.is_known_root args.pool args.root ≡ some true
  pub succeeds : w.simulate_relay_withdraw args ≡ simulation_result true

simulated-eq-ok : (r : Simulation) → simulated r ≡ ok tt → r ≡ simulation_result true
unfolding simulated
simulated-eq-ok returned e = cc
simulated-eq-ok failed e = cc
simulated-eq-ok (simulation_result b) e = ground arith

pub withdraw_simulated :
    (w : World) (args : WithdrawArgs) (s t : Store)
    → assert_withdraw_simulates w args s ≡ (ok tt, t)
    → Withdrawable w args
unfolding assert_withdraw_simulates
withdraw_simulated w args s t e =
    let (spent, read, e1) =
      lift->>=-eq-ok (or_throw (w.is_spent args.pool args.nullifier_hash) (failure thrown)) _ e in
    let (root, read', e2) =
      lift->>=-eq-ok (or_throw (w.is_known_root args.pool args.root) (failure thrown)) _ e1 in
    let (u, unspent, e3) =
      lift->>=-eq-ok (throw_if spent (validation_error already_spent 32004)) _ e2 in
    let (u', known_root, e4) =
      lift->>=-eq-ok (throw_if (not root) (validation_error unknown_root 32005)) _ e3 in
    record {
      unspent = or_throw-eq-ok _ _ read ∙ ap some (throw_if-eq-ok spent _ unspent);
      known_root = or_throw-eq-ok _ _ read' ∙ ap some (known_of_guard _ root known_root);
      succeeds = simulated-eq-ok _ cc;
    }

-- ===== src/Service/Checks.antt =====
-- The checks that `sign` makes between the reservation and the signature, of relayer/src/service.ts,
-- but for the bundler's simulation.
pub mod Passed
pub mod Runs
pub mod Deposit
pub mod Examples
use tornado_4337_relayer.Base.{
  ℕ, ◌+◌, Bool, true, false, not, ◌&&◌, Option, none, some, List, [], ◌∷◌, ◌++◌, ltb, ◌==◌, length,
  take, drop, map, any, Result, ok, err, or_throw, throw_if, if◌then◌else◌,
}
use tornado_4337_relayer.Base.Text.{Text, codes, text_eq}
use tornado_4337_relayer.Errors.{
  Error, validation_error, failure, thrown, cannot_price, sender_has_no_code, sender_is_contract,
  implementation_not_sponsored, above_cap, deposit_unreadable, unknown_costs, deposit_short,
  registry_unreadable, registration_moved, already_spent, unknown_root, simulation_failed,
  simulation_did_not_revert, would_revert,
}
use tornado_4337_relayer.Viem.{Viem, Address, zero_address, WithdrawArgs}
use tornado_4337_relayer.Store.{
  Store, SponsoredNote, GasCost, known, unknown, outstanding, committed_gas_cost,
}
use tornado_4337_relayer.UserOp.{RpcUserOperation, or_else, to_lower_case, starts_with}
use tornado_4337_relayer.Service.{
  Service, World, InstanceInfo, Mode, master, worker, unregistered, no_router, Simulation, returned,
  failed, simulation_result, Await, for_code, for_deposit, for_registry, for_pool, for_simulation,
}
use tornado_4337_relayer.Service.Act.{Act, lift, gets, pure, await, ◌>>=◌, ◌>>◌}
use tornado_4337_relayer.Service.Stub.{sender_implementation_from_op}

-- `rateFor(info)`
unfoldable pub rate_for : World → InstanceInfo → Result Error ℕ
rate_for w info =
    if info.token == zero_address
    then ok 0
    else or_throw (w.token_per_eth info.token info.decimals) (validation_error cannot_price 32008)

module _ (v : Viem) where
  -- the implementation that a delegation designator names
  delegated_to : Text → Result Error Address
  delegated_to code =
      if starts_with code (codes "0xef0100") && length code == 48
      then or_throw (v.parse_address (codes "0x" ++ drop 8 code)) (failure thrown)
      else if text_eq code (codes "0x")
      then err (validation_error sender_has_no_code 32009)
      else err (validation_error sender_is_contract 32009)

  pub sender_implementation : World → RpcUserOperation → Result Error Address
  sender_implementation w op = elim (sender_implementation_from_op v op) [
    | some a ↦ ok a
    | none ↦ elim (w.get_code op.sender) [
      | none ↦ err (failure thrown)
      | some code ↦ delegated_to (to_lower_case (or_else code (codes "0x")))
    ]
  ]

  allowlisted : Service → Address → Result Error Address
  allowlisted svc a =
      if any (λ b. b == a) svc.allowed_sender_implementations
      then ok a
      else err (validation_error implementation_not_sponsored 32009)

  unfoldable pub resolve_sender_implementation : Service → World → RpcUserOperation → Act Address
  unfolding delegated_to sender_implementation allowlisted
  resolve_sender_implementation svc w op = do
    await w for_code
    a ← lift (sender_implementation w op)
    lift (allowlisted svc a)

-- what the deposit has to cover: the live entries of the store at this moment, and the reserve
unfoldable pub covers : Service → ℕ → ℕ → Store → Result Error (Unit {0})
covers svc deposit now s =
    let floor = or_else svc.min_deposit_wei 0 in
    elim (committed_gas_cost (outstanding s now)) [
      | unknown count until ↦ err (validation_error (unknown_costs count until) 32004)
      | known committed ↦
          if ltb deposit (committed + floor)
          then err (validation_error (deposit_short deposit committed floor) 32004)
          else ok tt
    ]

below_cap : Service → ℕ → Result Error (Unit {0})
below_cap svc max_gas_cost_wei = elim svc.max_sponsorship_gas_wei [
  | none ↦ ok tt
  | some cap ↦
      throw_if (ltb cap max_gas_cost_wei) (validation_error (above_cap max_gas_cost_wei cap) 32004)
]

unfoldable pub assert_deposit_covers : Service → World → ℕ → ℕ → Act (Unit {0})
unfolding below_cap
assert_deposit_covers svc w max_gas_cost_wei now = do
  lift (below_cap svc max_gas_cost_wei)
  await w for_deposit
  deposit_wei ← lift (or_throw w.deposit_wei (validation_error deposit_unreadable 32004))
  gets (covers svc deposit_wei now)

abbrev pub has_registration : Mode → Bool
has_registration no_router = false
has_registration unregistered = false
has_registration _ = true

unfoldable pub assert_registration_current : Service → World → Act (Unit {0})
assert_registration_current svc w =
    if has_registration svc.mode
    then (do
      await w for_registry
      resolved ← lift (or_throw w.worker_master (validation_error registry_unreadable 32010))
      lift (
          throw_if (not (resolved == svc.reward_account))
            (validation_error registration_moved 32010)))
    else pure tt

simulated : Simulation → Result Error (Unit {0})
simulated failed = err (validation_error simulation_failed 32006)
simulated returned = err (validation_error simulation_did_not_revert 32006)
simulated (simulation_result success) = throw_if (not success) (validation_error would_revert 32006)

unfoldable pub assert_withdraw_simulates : World → WithdrawArgs → Act (Unit {0})
unfolding simulated
assert_withdraw_simulates w args = do
  await w for_pool
  spent ← lift (or_throw (w.is_spent args.pool args.nullifier_hash) (failure thrown))
  known_root ← lift (or_throw (w.is_known_root args.pool args.root) (failure thrown))
  lift (throw_if spent (validation_error already_spent 32004))
  lift (throw_if (not known_root) (validation_error unknown_root 32005))
  await w for_simulation
  lift (simulated (w.simulate_relay_withdraw args))

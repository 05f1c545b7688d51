-- ===== src/Service/Checks/Examples.antt =====
-- The check of the deposit, with one reservation in the store.
use tornado_4337_relayer.Base.{ℕ, ◌+◌, ◌≤◌, ◌≡◌, refl, arith, true, some, ok}
use tornado_4337_relayer.Base.Dict
use tornado_4337_relayer.Base.Text.{codes, text_eq}
use tornado_4337_relayer.Errors.{pending}
use tornado_4337_relayer.UserOp.{or_else}
use tornado_4337_relayer.Store.{SponsoredNote, get, outstanding, committed_gas_cost}
use tornado_4337_relayer.Store.Budget.{all_cost, cost, total_cost}
use tornado_4337_relayer.Service.Checks.{assert_deposit_covers, covers}
use tornado_4337_relayer.Service.Checks.Deposit.{deposit_pays_for_all}
use tornado_4337_relayer.Service.Sign.Examples.{sample_service, sample_world}
use tornado_4337_relayer.Service.Sign.Failures.{held_store}

abbrev held_note : SponsoredNote
held_note = record {
  valid_until = 601;
  sender = codes "0xa";
  nonce = 0;
  status = pending;
  token = codes "1000-1";
  max_gas_cost_wei = some 38;
}

passes : assert_deposit_covers sample_service sample_world 38 1 held_store ≡ (ok tt, held_store)
unfolding assert_deposit_covers covers committed_gas_cost outstanding
passes = refl

holds_note : get held_store (codes "0x04") ≡ some held_note
unfolding Dict.get text_eq
holds_note = refl

deposit_pays_for_all_example :
    (d : ℕ) × (sample_world.deposit_wei ≡ some d)
    × (all_cost (outstanding held_store 1) ≡ true)
    × (total_cost (outstanding held_store 1) + or_else sample_service.min_deposit_wei 0 ≤ d)
    × (cost held_note ≤ total_cost (outstanding held_store 1))
deposit_pays_for_all_example =
    deposit_pays_for_all sample_service sample_world 38 1 held_store held_store (codes "0x04")
      held_note passes holds_note (omega arith)

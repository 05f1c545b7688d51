-- ===== src/Setup/Compatible.antt =====
-- `assertPaymasterCompatible` of relayer/src/setup.ts: reads only, before anything is spent.
pub mod Checked
use tornado_4337_relayer.Base.{
  ℕ, ◌≡◌, ◌≢◌, ◌⊎◌, inl, inr, ◌↔◌, Bool, true, false, not, ◌&&◌, Option, none, some, ◌==◌, Result,
  ok, err, or_throw, throw_if, ◌>>=◌, ◌>>◌, arith, refl,
}
use tornado_4337_relayer.Base.Text.{Text}
use tornado_4337_relayer.Viem.{Address, zero_address}
use tornado_4337_relayer.UserOp.{paymaster_and_data_length}
use tornado_4337_relayer.Setup.{
  PaymasterSetupConfig, SetupError, no_contract, wrong_chain, unanswered, wrong_length,
  wrong_entry_point, wrong_signer, wrong_router, relationship_unreadable, other_master, thrown,
  Node, on_preflight, configured_router,
}
use tornado_4337_relayer.Setup.Contract.{without_code}

check_contract : PaymasterSetupConfig → Node → Address → Result SetupError (Unit {0})
check_contract cfg node paymaster = do
  code ← or_throw (node.get_code on_preflight paymaster) thrown
  throw_if (without_code code) (no_contract paymaster)
  chain_id ← or_throw node.chain_id thrown
  throw_if (not (chain_id == cfg.chain_id)) (wrong_chain chain_id)

-- the four reads of `Promise.all`, and the comparisons with the first three
check_answers : PaymasterSetupConfig → Node → Address → Result SetupError Address
check_answers cfg node paymaster = do
  on_chain_length ← or_throw (node.paymaster_and_data_length paymaster) unanswered
  entry_point ← or_throw (node.entry_point paymaster) unanswered
  verifying_signer ← or_throw (node.verifying_signer on_preflight paymaster) unanswered
  router ← or_throw (node.router on_preflight paymaster) unanswered
  throw_if (not (on_chain_length == paymaster_and_data_length)) (wrong_length on_chain_length)
  throw_if (not (entry_point == cfg.entry_point)) (wrong_entry_point entry_point)
  throw_if (not (verifying_signer == cfg.signer)) (wrong_signer verifying_signer)
  ok router

check_router : PaymasterSetupConfig → Address → Result SetupError (Unit {0})
check_router cfg router = elim (configured_router cfg) [
  | none ↦ ok tt
  | some wanted ↦ throw_if (not (router == wanted)) (wrong_router router)
]

-- `master !== zeroAddress && !isAddressEqual(master, cfg.rewardAccount)`
check_resolved : Address → Address → Result SetupError (Unit {0})
check_resolved reward_account master =
    throw_if (not (master == zero_address) && not (master == reward_account)) (other_master master)

check_master : PaymasterSetupConfig → Node → Address → Address → Result SetupError (Unit {0})
unfolding check_resolved
check_master cfg node paymaster router = elim cfg.reward_account [
  | none ↦ ok tt
  | some reward_account ↦ elim (configured_router cfg) [
    | none ↦ ok tt
    | some _ ↦ do
      registry ← or_throw (node.relayer_registry on_preflight router) relationship_unreadable
      master ← or_throw (node.workers on_preflight registry paymaster) relationship_unreadable
      check_resolved reward_account master
  ]
]

unfoldable pub assert_paymaster_compatible :
    PaymasterSetupConfig → Node → Address → Result SetupError (Unit {0})
unfolding check_contract check_answers check_router check_master
assert_paymaster_compatible cfg node paymaster = do
  check_contract cfg node paymaster
  router ← check_answers cfg node paymaster
  check_router cfg router
  check_master cfg node paymaster router

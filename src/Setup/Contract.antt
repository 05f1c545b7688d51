-- ===== src/Setup/Contract.antt =====
-- `ensureStandaloneContract` of relayer/src/setup.ts.
pub mod Warranted
pub mod Ordered
pub mod Restart
use tornado_4337_relayer.Base.{
  ℕ, Bool, true, false, not, ◌&&◌, Option, none, some, ◌==◌, Result, ok, err, or_throw, throw_if,
  if◌then◌else◌,
}
use tornado_4337_relayer.Base.Text.{Text, codes, text_eq}
use tornado_4337_relayer.Base.Step.{pure, lift, ◌>>=◌, ◌>>◌}
use tornado_4337_relayer.Viem.{Address, zero_address}
use tornado_4337_relayer.UserOp.{or_else}
use tornado_4337_relayer.Setup.{
  PaymasterSetupConfig, StateFile, Disk, absent, unreadable, holds, SetupError,
  no_paymaster_address, deployment_failed, no_contract, wrong_signer, thrown, Tx, deploy_contract,
  set_router, Receipt, Moment, on_candidate, Node, Machine, Setup, configured_router, send,
}

-- `stateFile && existsSync(stateFile) ? JSON.parse(…) : {}`, and its `paymaster`
remembered : PaymasterSetupConfig → Disk → Result SetupError (Option Address)
remembered cfg absent = ok none
remembered cfg unreadable = if cfg.has_state_file then err thrown else ok none
remembered cfg (holds state) = ok (if cfg.has_state_file then state.paymaster else none)

-- `cfg.paymaster ?? state.paymaster`
abbrev pub first_of : Option Address → Option Address → Option Address
first_of (some a) other = some a
first_of none other = other

-- `getCode(…) ?? '0x'` is `'0x'`
abbrev pub without_code : Option Text → Bool
without_code code = text_eq (or_else code (codes "0x")) (codes "0x")

-- the contract is there and answers to this key
check_candidate : PaymasterSetupConfig → Node → Address → Setup Address
check_candidate cfg node candidate = do
  code ← lift (or_throw (node.get_code on_candidate candidate) thrown)
  lift (throw_if (without_code code) (no_contract candidate))
  on_chain ← lift (or_throw (node.verifying_signer on_candidate candidate) thrown)
  lift (throw_if (not (on_chain == cfg.signer)) (wrong_signer on_chain))
  pure candidate

-- `receipt.status !== 'success' || !receipt.contractAddress`
deployed : Receipt → Result SetupError Address
deployed receipt =
    if receipt.success
    then or_throw receipt.contract_address deployment_failed
    else err deployment_failed

wire_router : PaymasterSetupConfig → Node → Address → Setup (Unit {0})
wire_router cfg node paymaster = elim (configured_router cfg) [
  | none ↦ pure tt
  | some router ↦ send node (set_router paymaster router) >> pure tt
]

remember : PaymasterSetupConfig → Node → Address → Text → Setup (Unit {0})
remember cfg node paymaster tx m =
    if cfg.has_state_file
    then (if node.writable
        then (
          ok tt,
          record m { file = holds (record { paymaster = some paymaster; deploy_tx = some tx }) },
        )
        else (err thrown, m))
    else (ok tt, m)

-- the constructor's arguments, with their defaults
abbrev deployment : PaymasterSetupConfig → Tx
deployment cfg =
    deploy_contract cfg.entry_point cfg.signer (or_else cfg.gas_margin_bps 1000)
      (or_else cfg.post_op_gas_overhead 45_000)

deploy : PaymasterSetupConfig → Node → Setup Address
unfolding deployed wire_router remember
deploy cfg node = do
  lift (throw_if (not cfg.auto_setup) no_paymaster_address)
  receipt ← send node (deployment cfg)
  paymaster ← lift (deployed receipt)
  wire_router cfg node paymaster
  remember cfg node paymaster receipt.hash
  pure paymaster

use_or_deploy : PaymasterSetupConfig → Node → Option Address → Setup Address
unfolding check_candidate deploy
use_or_deploy cfg node (some candidate) = check_candidate cfg node candidate
use_or_deploy cfg node none = deploy cfg node

unfoldable pub ensure_standalone_contract : PaymasterSetupConfig → Node → Setup Address
unfolding remembered use_or_deploy
ensure_standalone_contract cfg node m =
    (do state ← lift (remembered cfg m.file); use_or_deploy cfg node (first_of cfg.paymaster state))
      m

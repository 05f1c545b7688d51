-- ===== src/Setup.antt =====
-- relayer/src/setup.ts: what the set-up of the paymaster knows, what it asks the node, and the
-- transactions that it sends.
pub mod Contract
pub mod Compatible
pub mod Kept
pub mod Once
pub mod Registered
pub mod Ensure
mod Examples
use tornado_4337_relayer.Base.{
  ℕ, Bool, true, false, Option, none, some, List, ◌∷◌, ◌==◌, err, ok, if◌then◌else◌,
}
use tornado_4337_relayer.Base.Text.{Text}
use tornado_4337_relayer.Base.Integer.{ℤ}
use tornado_4337_relayer.Base.Step.{Step}
use tornado_4337_relayer.Viem.{Address, zero_address}

pub data PaymasterMode : Type 0 where
  standalone mode_7702 : PaymasterMode

-- `signer` is the address of `signerKey`, `has_state_file` says that `stateFile` is not empty.
pub record PaymasterSetupConfig : Type 0 where
  pub chain_id : ℕ
  pub entry_point : Address
  pub signer : Address
  pub mode : PaymasterMode
  pub paymaster : Option Address
  pub auto_setup : Bool
  pub stake_wei : ℕ
  pub unstake_delay_sec : ℕ
  pub deposit_wei : ℕ
  pub router : Option Address
  pub gas_margin_bps : Option ℕ
  pub post_op_gas_overhead : Option ℕ
  pub has_state_file : Bool
  pub reward_account : Option Address
  pub require_registration : Option Bool
  pub wait_for_registration : Bool

pub record StateFile : Type 0 where
  pub paymaster : Option Address
  pub deploy_tx : Option Text

-- the state file: not there, not readable as JSON, or with an object in it
pub data Disk : Type 0 where
  absent unreadable : Disk
  holds : StateFile → Disk

pub data SetupError : Type 0 where
  mode_not_supported no_paymaster_address deployment_failed : SetupError
  no_contract wrong_signer wrong_entry_point wrong_router other_master : Address → SetupError
  wrong_chain wrong_length : ℕ → SetupError
  unanswered relationship_unreadable not_registered : SetupError
  -- an error of the node or of the file system, passed on as it is
  thrown : SetupError
  -- the model's own: the rounds that `poll` was given have passed, and it waits still
  still_waiting : SetupError

pub data Tx : Type 0 where
  deploy_contract : (entry_point signer : Address) (gas_margin_bps post_op_gas_overhead : ℕ) → Tx
  set_router : (paymaster router : Address) → Tx
  add_stake : (paymaster : Address) (unstake_delay_sec : ℕ) (value : ℤ) → Tx
  deposit : (paymaster : Address) (value : ℕ) → Tx

pub record Receipt : Type 0 where
  pub success : Bool
  pub contract_address : Option Address
  pub hash : Text

-- A transaction is not sent; or it is sent, and its receipt does not come or comes.
pub data Sending : Type 0 where
  rejected lost : Sending
  mined : Receipt → Sending

pub record DepositInfo : Type 0 where
  pub deposit : ℕ
  pub staked : Bool
  pub stake : ℕ

-- the points of the set-up at which the same thing is read again
pub data Moment : Type 0 where
  on_candidate on_preflight on_registration : Moment
  on_poll : ℕ → Moment

-- What the node answers. Another answer may come at each moment; `none` is a read that throws.
pub record Node : Type 0 where
  pub get_code : Moment → Address → Option (Option Text)
  pub chain_id : Option ℕ
  pub paymaster_and_data_length : Address → Option ℕ
  pub entry_point : Address → Option Address
  pub verifying_signer : Moment → Address → Option Address
  pub router : Moment → Address → Option Address
  pub relayer_registry : Moment → Address → Option Address
  -- `workers` of the registry, for the paymaster
  pub workers : Moment → Address → Address → Option Address
  pub deposit_info : Address → Option DepositInfo
  pub owner : Address → Option Address
  pub outcome : Tx → Sending
  pub writable : Bool

-- The transactions sent so far, the last one first, and the state file.
pub record Machine : Type 0 where
  pub sent : List Tx
  pub file : Disk

abbrev pub Setup : Type 0 → Type 0
Setup A = Step Machine SetupError A

-- `cfg.router && cfg.router !== zeroAddress`
unfoldable pub configured_router : PaymasterSetupConfig → Option Address
configured_router cfg = elim cfg.router [
  | none ↦ none
  | some router ↦ if router == zero_address then none else some router
]

-- `writeContract` or `deployContract`, and `waitForTransactionReceipt`
unfoldable pub send : Node → Tx → Setup Receipt
send node tx m = elim (node.outcome tx) [
  | rejected ↦ (err thrown, m)
  | lost ↦ (err thrown, record m { sent = tx ∷ m.sent })
  | mined receipt ↦ (ok receipt, record m { sent = tx ∷ m.sent })
]

-- ===== src/Flow.antt =====
-- `sponsoredWithdraw` of client/src/flow.ts, with `prove` of client/src/prover.ts and `merklePath` of
-- client/src/merkle.ts. What the client asks of the relayer, the prover, the bundler and the wallet
-- is a list of actions, the last one first.
pub mod Withdraw
pub mod Prover
pub mod Transport
pub mod Steps
pub mod Words
pub mod Bound
pub mod Sponsored
mod Examples
use tornado_4337_relayer.Base.{
  ℕ, ◌+◌, ◌*◌, ◌/◌, ◌^◌, Bool, true, false, not, Option, none, some, List, [], ◌∷◌, ltb, leb, ◌==◌,
  any, Result, ok, err, or_throw, throw_if, if◌then◌else◌,
}
use tornado_4337_relayer.Base.Text.{Text}
use tornado_4337_relayer.Base.Integer.{ℤ, difference}
use tornado_4337_relayer.Base.Step.{Step, pure, lift, ◌>>=◌, ◌>>◌}
use tornado_4337_relayer.NoteString.{Note}
use tornado_4337_relayer.Fee.{UserOpGas, bps}
use tornado_4337_relayer.Viem.{Address, DecodedCall, WithdrawArgs}
use tornado_4337_relayer.UserOp.{or_else}
use tornado_4337_relayer.Service.Quote.{GasOverrides, QuoteParams}

-- `MerklePath`, less the index of the leaf
pub record MerklePath : Type 0 where
  pub root : ℕ
  pub path_elements : List ℕ
  pub path_indices : List ℕ

-- `TornadoWithdrawInputs`
pub record ProveInputs : Type 0 where
  pub nullifier : ℕ
  pub secret : ℕ
  pub path : MerklePath
  pub nullifier_hash : ℕ
  pub recipient : ℕ
  pub relayer : ℕ
  pub fee : ℕ
  pub refund : ℕ

-- `TornadoProveOutput`: the words of `args`, the last four as the numbers that they spell
pub record ProveOutput : Type 0 where
  pub proof : Text
  pub root : Text
  pub nullifier_hash : Text
  pub recipient : Address
  pub relayer : Address
  pub fee : ℕ
  pub refund : ℕ

-- The fields of `RelayerQuote` that the flow reads.
pub record RelayerQuote : Type 0 where
  pub relayer : Address
  pub paymaster : Address
  pub fee_token : Address
  pub gas : UserOpGas
  pub max_fee_per_gas : ℕ
  pub max_priority_fee_per_gas : ℕ
  pub fee : ℕ

pub record Estimate : Type 0 where
  pub call_gas_limit : ℕ
  pub verification_gas_limit : ℕ
  pub pre_verification_gas : ℕ
  pub paymaster_verification_gas_limit : Option ℕ
  pub paymaster_post_op_gas_limit : Option ℕ

-- What `estimateUserOperationGas` and `sendUserOperation` are given. `overrides_code` says that the
-- state override with the delegation is there.
pub record OpRequest : Type 0 where
  pub calls : List DecodedCall
  pub gas : UserOpGas
  pub max_fee_per_gas : ℕ
  pub max_priority_fee_per_gas : ℕ
  pub authorization : Option Text
  pub overrides_code : Bool

-- The parameters, with `sender` for the address of the account and `implementation` for the one
-- given or the default.
pub record WithdrawParams : Type 0 where
  pub pool : Address
  pub note : Note
  pub leaves : List ℕ
  pub sender : Address
  pub tail_calls : Address → ℤ → Address → List DecodedCall
  pub tail_calls_gas : Option ℕ
  pub implementation : Address
  pub skip_estimation : Bool

-- What others answer; `none` is a call that throws. The first quote and the second may differ.
pub record Outside : Type 0 where
  pub denomination : Option ℕ
  pub tree : List ℕ → ℕ → MerklePath
  pub is_known_root : Text → Option Bool
  pub quote : QuoteParams → Option RelayerQuote
  pub requote : QuoteParams → Option RelayerQuote
  pub prove : ProveInputs → Option ProveOutput
  pub is_deployed : Option Bool
  pub estimate : OpRequest → Option Estimate
  pub transaction_count : Option ℕ
  pub sign_authorization : Address → ℕ → Option Text
  pub send : OpRequest → Option Text
  pub receipt : Text → Option Bool
  -- `encodeFunctionData` of `relayWithdraw`, and a number as a word of 32 bytes
  pub encode : WithdrawArgs → Option Text
  pub word : ℕ → Option Text

pub data Action : Type 0 where
  quoted : QuoteParams → Action
  proved : ProveInputs → Action
  estimated sent : OpRequest → Action
  authorized : Address → Action

pub data FlowError : Type 0 where
  no_leaf unknown_root thrown : FlowError

abbrev pub Flow : Type 0 → Type 0
Flow A = Step (List Action) FlowError A

pub record WithdrawResult : Type 0 where
  pub user_op_hash : Text
  pub success : Bool
  pub sender : Address
  pub quote : RelayerQuote
  pub proof : ProveOutput
  pub fee : ℕ
  pub amount_to_sender : ℤ

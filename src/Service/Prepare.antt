-- ===== src/Service/Prepare.antt =====
-- Steps 1 and 2 of `sign` of relayer/src/service.ts: what is checked before the note is reserved.
pub mod Facts
use tornado_4337_relayer.Base.{
  ℕ, ◌*◌, Bool, true, false, not, Option, none, some, [], ltb, ◌==◌, Result, ok, err, ◌>>=◌, ◌>>◌,
  or_throw, throw_if, if◌then◌else◌,
}
use tornado_4337_relayer.Fee.{UserOpGas, FeeParams, total_gas, service_fee_for, minimum_fee}
use tornado_4337_relayer.Errors.{
  Error, validation_error, failure, thrown, wrong_paymaster, refund_to_not_address,
  fee_exceeds_denomination, priority_exceeds_max, fee_below_minimum, max_fee_per_gas,
  max_priority_fee_per_gas,
}
use tornado_4337_relayer.Viem.{Viem}
use tornado_4337_relayer.UserOp.{RpcUserOperation, truthy, or_else, q, read_gas}
use tornado_4337_relayer.Validate.{
  TornadoWithdrawCall, invalid, decode_account_calls, find_sponsoring_withdraw,
}
use tornado_4337_relayer.Service.{
  Service, SponsorContext, undefined_refund, refund_text, InstanceInfo, rules, instance_info,
}

-- the locals of `sign` at its first `await`
pub record Prepared : Type 0 where
  pub call : TornadoWithdrawCall
  pub info : InstanceInfo
  pub gas : UserOpGas
  pub max_fee_per_gas : ℕ

-- the locals that the price adds
pub record Priced : Type 0 where
  pub token_per_eth : ℕ
  pub service_fee : ℕ
  pub min_fee : ℕ

-- `maxGasCostWei`
unfoldable pub max_gas_cost : Prepared → ℕ
max_gas_cost p = total_gas p.gas * p.max_fee_per_gas

module _ (v : Viem) (svc : Service) where
  check_paymaster : RpcUserOperation → Result Error (Unit {0})
  check_paymaster op =
      if truthy op.paymaster
      then (do
        paymaster ← or_throw (v.parse_address (or_else op.paymaster [])) (failure thrown)
        throw_if (not (paymaster == svc.paymaster)) (invalid wrong_paymaster))
      else ok tt

  check_refund : SponsorContext → Result Error (Unit {0})
  check_refund context = elim context.refund_to [
    | undefined_refund ↦ ok tt
    | refund_text t ↦ throw_if (not (v.is_address t)) (invalid refund_to_not_address)
    | _ ↦ err (invalid refund_to_not_address)
  ]

  unfoldable pub prepare : RpcUserOperation → SponsorContext → Result Error Prepared
  unfolding check_paymaster check_refund
  prepare op context = do
    check_paymaster op
    check_refund context
    calls ← decode_account_calls v op.call_data
    w ← find_sponsoring_withdraw v calls (rules svc op.sender)
    info ← instance_info svc w.args.pool
    throw_if (ltb info.denomination w.args.fee) (invalid fee_exceeds_denomination)
    gas ← read_gas v op
    max_fee ← q v op.max_fee_per_gas max_fee_per_gas
    max_priority_fee ← q v op.max_priority_fee_per_gas max_priority_fee_per_gas
    throw_if (ltb max_fee max_priority_fee) (invalid priority_exceeds_max)
    ok (record { call = w; info = info; gas = gas; max_fee_per_gas = max_fee })

-- The parameters of `minimumFee` for this operation.
abbrev pub fee_params : Service → Prepared → ℕ → FeeParams
fee_params svc p token_per_eth = record {
  gas = p.gas;
  max_fee_per_gas = p.max_fee_per_gas;
  gas_margin_bps = svc.gas_margin_bps;
  service_fee = service_fee_for p.info.denomination svc.service_fee_bps;
  token_per_eth = token_per_eth;
}

unfoldable pub priced : Service → Prepared → ℕ → Result Error Priced
priced svc p token_per_eth = do
  let params = fee_params svc p token_per_eth
  let min_fee = minimum_fee params
  throw_if (ltb p.call.args.fee min_fee)
      (validation_error (fee_below_minimum p.call.args.fee min_fee) 32002)
  ok (record { token_per_eth = token_per_eth; service_fee = params.service_fee; min_fee = min_fee })

-- ===== src/Service/Quote.antt =====
-- `gasFees` and `quote` of relayer/src/service.ts.
pub mod Accepted
pub mod Examples
use tornado_4337_relayer.Base.{
  ℕ, ◌+◌, ◌*◌, ◌/◌, Bool, not, Option, none, some, ltb, leb, ◌==◌, Result, ok, err, ◌>>=◌, ◌>>◌,
  or_throw, throw_if, if◌then◌else◌,
}
use tornado_4337_relayer.Base.Text.{Text}
use tornado_4337_relayer.Fee.{
  UserOpGas, FeeParams, bps, default_gas, default_tail_calls_gas, erc20_withdraw_extra_gas,
  with_tail_calls, service_fee_for, minimum_fee,
}
use tornado_4337_relayer.Errors.{Error, failure, thrown, quoted_fee_not_below_denomination}
use tornado_4337_relayer.Viem.{Viem, Address, zero_address}
use tornado_4337_relayer.UserOp.{or_else}
use tornado_4337_relayer.Validate.{invalid}
use tornado_4337_relayer.Service.{Service, World, InstanceInfo, instance_info}
use tornado_4337_relayer.Service.Checks.{rate_for}

-- `Partial<UserOpGas>`
pub record GasOverrides : Type 0 where
  pub call_gas_limit : Option ℕ
  pub verification_gas_limit : Option ℕ
  pub pre_verification_gas : Option ℕ
  pub paymaster_verification_gas_limit : Option ℕ
  pub paymaster_post_op_gas_limit : Option ℕ

-- `QuoteParams`; `gas` is `{}` where it is omitted
pub record QuoteParams : Type 0 where
  pub pool : Address
  pub tail_calls_gas : Option ℕ
  pub gas : GasOverrides
  pub max_fee_per_gas : Option ℕ

-- The fields of `Quote` that are not constants of the service or of the pool.
pub record Quote : Type 0 where
  pub token_per_eth : ℕ
  pub service_fee : ℕ
  pub gas : UserOpGas
  pub max_fee_per_gas : ℕ
  pub max_priority_fee_per_gas : ℕ
  pub fee : ℕ

pub record GasFees : Type 0 where
  pub max_fee_per_gas : ℕ
  pub max_priority_fee_per_gas : ℕ

-- The two prices that are asked for: the `fast` fields of the bundler's answer, `none` where the
-- request throws or has no such fields, and `estimateFeesPerGas`.
pub record Prices : Type 0 where
  pub fast : Option (Text × Text)
  pub estimated : Option GasFees

-- `{ ...gas, ...stripUndefined(overrides) }`
unfoldable pub overridden : UserOpGas → GasOverrides → UserOpGas
overridden gas o = record {
  call_gas_limit = or_else o.call_gas_limit gas.call_gas_limit;
  verification_gas_limit = or_else o.verification_gas_limit gas.verification_gas_limit;
  pre_verification_gas = or_else o.pre_verification_gas gas.pre_verification_gas;
  paymaster_verification_gas_limit =
      or_else o.paymaster_verification_gas_limit gas.paymaster_verification_gas_limit;
  paymaster_post_op_gas_limit =
      or_else o.paymaster_post_op_gas_limit gas.paymaster_post_op_gas_limit;
}

-- the gas that is quoted
unfoldable pub quoted_gas : InstanceInfo → QuoteParams → UserOpGas
quoted_gas info params =
    let extra = if info.token == zero_address then 0 else erc20_withdraw_extra_gas in
    overridden
      (with_tail_calls default_gas (or_else params.tail_calls_gas default_tail_calls_gas + extra))
      params.gas

module _ (v : Viem) (svc : Service) where
  -- the bundler's price, if both fields are numbers
  unfoldable pub fast_fees : Prices → Option GasFees
  fast_fees prices =
      if svc.has_bundler
      then elim prices.fast [
        | none ↦ none
        | some (max_fee, priority) ↦ elim (v.hex_to_big_int max_fee) [
          | none ↦ none
          | some m ↦ elim (v.hex_to_big_int priority) [
            | none ↦ none
            | some p ↦ some (record { max_fee_per_gas = m; max_priority_fee_per_gas = p })
          ]
        ]
      ]
      else none

  unfoldable pub gas_fees : Prices → Result Error GasFees
  gas_fees prices = do
    fees ← elim (fast_fees prices) [
      | some f ↦ ok f
      | none ↦ or_throw prices.estimated (failure thrown)
    ]
    ok (record {
      max_fee_per_gas = fees.max_fee_per_gas * svc.gas_price_margin_bps / bps;
      max_priority_fee_per_gas = fees.max_priority_fee_per_gas * svc.gas_price_margin_bps / bps;
    })

  -- the parameters of `minimumFee`
  abbrev pub quote_params : InstanceInfo → UserOpGas → ℕ → ℕ → FeeParams
  quote_params info gas max_fee token_per_eth = record {
    gas = gas;
    max_fee_per_gas = max_fee;
    gas_margin_bps = svc.gas_margin_bps;
    service_fee = service_fee_for info.denomination svc.service_fee_bps;
    token_per_eth = token_per_eth;
  }

  -- the object that `quote` returns
  abbrev pub quote_of : InstanceInfo → UserOpGas → ℕ → ℕ → ℕ → Quote
  quote_of info gas max_fee priority token_per_eth = record {
    token_per_eth = token_per_eth;
    service_fee = service_fee_for info.denomination svc.service_fee_bps;
    gas = gas;
    max_fee_per_gas = max_fee;
    max_priority_fee_per_gas = (if ltb max_fee priority then max_fee else priority);
    fee = minimum_fee (quote_params info gas max_fee token_per_eth);
  }

  unfoldable pub quote : World → Prices → QuoteParams → Result Error Quote
  quote w prices params = do
    info ← instance_info svc params.pool
    let gas = quoted_gas info params
    fees ← gas_fees prices
    let max_fee = or_else params.max_fee_per_gas fees.max_fee_per_gas
    token_per_eth ← rate_for w info
    let fee = minimum_fee (quote_params info gas max_fee token_per_eth)
    throw_if (not (ltb fee info.denomination))
        (invalid (quoted_fee_not_below_denomination fee info.denomination))
    ok (quote_of info gas max_fee fees.max_priority_fee_per_gas token_per_eth)

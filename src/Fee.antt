-- ===== src/Fee.antt =====
-- relayer/src/fee.ts, and `UserOpGas` and `totalGas` of relayer/src/userop.ts.
pub mod Minimum
pub mod Examples
use tornado_4337_relayer.Base.{ℕ, ◌+◌, ◌-◌, ◌*◌, ◌/◌, ◌^◌, ◌==◌, if◌then◌else◌}

pub record UserOpGas : Type 0 where
  pub call_gas_limit : ℕ
  pub verification_gas_limit : ℕ
  pub pre_verification_gas : ℕ
  pub paymaster_verification_gas_limit : ℕ
  pub paymaster_post_op_gas_limit : ℕ

unfoldable pub total_gas : UserOpGas → ℕ
total_gas gas =
    gas.call_gas_limit + gas.verification_gas_limit + gas.pre_verification_gas
    + gas.paymaster_verification_gas_limit + gas.paymaster_post_op_gas_limit

abbrev pub bps : ℕ
bps = 10_000

abbrev pub rate_scale : ℕ
rate_scale = 10 ^ 18

abbrev pub default_gas : UserOpGas
default_gas = record {
  verification_gas_limit = 100_000;
  call_gas_limit = 450_000;
  pre_verification_gas = 120_000;
  paymaster_verification_gas_limit = 60_000;
  paymaster_post_op_gas_limit = 90_000;
}

abbrev pub erc20_withdraw_extra_gas : ℕ
erc20_withdraw_extra_gas = 80_000

abbrev pub default_tail_calls_gas : ℕ
default_tail_calls_gas = 400_000

unfoldable pub with_tail_calls : UserOpGas → ℕ → UserOpGas
with_tail_calls gas tail_calls_gas = record gas {
  call_gas_limit = gas.call_gas_limit + tail_calls_gas;
}

unfoldable pub service_fee_for : ℕ → ℕ → ℕ
service_fee_for denomination service_fee_bps = denomination * service_fee_bps / bps

-- `b` is not 0 where the source calls it
unfoldable pub ceil_div : ℕ → ℕ → ℕ
ceil_div a b = (a + b - 1) / b

pub record FeeParams : Type 0 where
  pub gas : UserOpGas
  pub max_fee_per_gas : ℕ
  pub gas_margin_bps : ℕ
  pub service_fee : ℕ
  -- an omitted `tokenPerEth` is 0
  pub token_per_eth : ℕ

-- The local `keepEth`: the prefund and the paymaster's margin, in wei.
unfoldable pub keep_eth : FeeParams → ℕ
keep_eth p =
    let prefund = total_gas p.gas * p.max_fee_per_gas in prefund + prefund * p.gas_margin_bps / bps

unfoldable pub minimum_fee : FeeParams → ℕ
minimum_fee p =
    let keep =
      if p.token_per_eth == 0
      then keep_eth p
      else ceil_div (keep_eth p * p.token_per_eth) rate_scale in
    keep + p.service_fee

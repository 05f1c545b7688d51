-- ===== src/Fee/Examples.antt =====
-- `minimumFee` on an operation with the default gas limits.
use tornado_4337_relayer.Base.{ℕ, ◌+◌, ◌*◌, ◌^◌, ◌≤◌, ◌≡◌, ◌↔◌, refl, arith}
use tornado_4337_relayer.Fee.{
  default_gas, with_tail_calls, default_tail_calls_gas, FeeParams, minimum_fee, service_fee_for,
}
use tornado_4337_relayer.Fee.Minimum.{NoDearer, Pays, prefund_with_margin, minimum_fee-le_iff}

-- 100 tokens of 18 decimals, at 3000 tokens per ETH and a service fee of one in a thousand
abbrev sample_params : FeeParams
sample_params = record {
  gas = default_gas;
  max_fee_per_gas = 10 ^ 9;
  gas_margin_bps = 1_000;
  service_fee = service_fee_for (10 ^ 20) 10;
  token_per_eth = 3_000 * 10 ^ 18;
}

abbrev with_tail : FeeParams
with_tail = record sample_params { gas = with_tail_calls default_gas default_tail_calls_gas }

sample-NoDearer : NoDearer sample_params with_tail
unfolding with_tail_calls
sample-NoDearer = record {
  gas = record {
    call = omega arith;
    verification = omega arith;
    pre_verification = omega arith;
    paymaster_verification = omega arith;
    post_op = omega arith;
  };
  price = omega arith;
  margin = refl;
  service = refl;
  rate = refl;
}

minimum_fee-le_iff_example : (minimum_fee sample_params ≤ 3 * 10 ^ 18) ↔ (
    (n : ℕ) × (3 * 10 ^ 18 ≡ n + sample_params.service_fee)
    × Pays n (prefund_with_margin sample_params) sample_params.token_per_eth)
minimum_fee-le_iff_example = minimum_fee-le_iff sample_params (3 * 10 ^ 18)

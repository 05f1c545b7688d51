-- ===== src/Service/Quote/Examples.antt =====
-- A quote for a small operation, and a request that is built from it.
use tornado_4337_relayer.Service.Checks.{rate_for}
use tornado_4337_relayer.Base.{◌<◌, ◌≡◌, refl, arith, none, some, ok}
use tornado_4337_relayer.Base.Dict
use tornado_4337_relayer.Base.Text.{codes}
use tornado_4337_relayer.Fee.{
  UserOpGas, service_fee_for, minimum_fee, keep_eth, total_gas, with_tail_calls,
}
use tornado_4337_relayer.Fee.Minimum.{Fits}
use tornado_4337_relayer.Viem.Sample.{sample_viem, sample_args}
use tornado_4337_relayer.Validate.{paymaster}
use tornado_4337_relayer.Service.{instance_info}
use tornado_4337_relayer.Service.Prepare.{Prepared, fee_params, priced}
use tornado_4337_relayer.Service.Sign.Examples.{sample_service, sample_world}
use tornado_4337_relayer.Service.Quote.{
  QuoteParams, Quote, Prices, quote, gas_fees, fast_fees, quoted_gas, overridden,
}
use tornado_4337_relayer.Service.Quote.Accepted.{quote_accepted}

abbrev sample_params : QuoteParams
sample_params = record {
  pool = 7;
  tail_calls_gas = none;
  gas = record {
    call_gas_limit = some 5;
    verification_gas_limit = some 5;
    pre_verification_gas = some 5;
    paymaster_verification_gas_limit = some 2;
    paymaster_post_op_gas_limit = some 2;
  };
  max_fee_per_gas = some 2;
}

-- the bundler has no price, and the node has one
abbrev sample_prices : Prices
sample_prices = record {
  fast = none;
  estimated = some (record { max_fee_per_gas = 9; max_priority_fee_per_gas = 1 });
}

abbrev sample_gas : UserOpGas
sample_gas = record {
  call_gas_limit = 5;
  verification_gas_limit = 5;
  pre_verification_gas = 5;
  paymaster_verification_gas_limit = 2;
  paymaster_post_op_gas_limit = 2;
}

abbrev sample_quote : Quote
sample_quote = record {
  token_per_eth = 0;
  service_fee = 1;
  gas = sample_gas;
  max_fee_per_gas = 2;
  max_priority_fee_per_gas = 0;
  fee = 42;
}

-- the request, with a lower gas limit for the call
abbrev sample_request : Prepared
sample_request = record {
  call = record { index = 1; args = record sample_args { fee = 42 }; refund = 0; via = paymaster };
  info = record { denomination = 1000; token = 0; decimals = 18; symbol = codes "ETH" };
  gas = record sample_gas { call_gas_limit = 4 };
  max_fee_per_gas = 2;
}

quotes_sample :
    quote sample_viem sample_service sample_world sample_prices sample_params ≡ ok sample_quote
unfolding quote gas_fees fast_fees quoted_gas overridden instance_info Dict.get rate_for minimum_fee
    keep_eth total_gas service_fee_for with_tail_calls
quotes_sample = refl

serves_sample : instance_info sample_service 7 ≡ ok sample_request.info
unfolding instance_info Dict.get
serves_sample = refl

sample_gas-Fits : Fits sample_request.gas sample_gas
sample_gas-Fits = record {
  call = omega arith;
  verification = omega arith;
  pre_verification = omega arith;
  paymaster_verification = omega arith;
  post_op = omega arith;
}

quote_accepted_example :
    (sample_request.call.args.fee < sample_request.info.denomination)
    × (priced sample_service sample_request sample_quote.token_per_eth
        ≡ ok (record {
          token_per_eth = sample_quote.token_per_eth;
          service_fee =
              service_fee_for sample_request.info.denomination sample_service.service_fee_bps;
          min_fee =
              minimum_fee (fee_params sample_service sample_request sample_quote.token_per_eth);
        }))
quote_accepted_example =
    quote_accepted sample_viem sample_service sample_world sample_prices sample_params sample_quote
      sample_request quotes_sample serves_sample refl sample_gas-Fits (omega arith)

-- ===== src/Service/Estimate.antt =====
-- `asGasEstimate` and `bundlerRequest` of relayer/src/service.ts: what counts as an estimate, and
-- whether it fits the limits that were sent.
pub mod Fits
pub mod Examples
use tornado_4337_relayer.Base.{
  ℕ, ◌-◌, ◌^◌, Bool, true, false, ◌&&◌, ◌||◌, Option, none, some, [], ◌∷◌, ltb, leb, length, drop,
  Result, ok, err, ◌>>=◌, or_throw, throw_if, if◌then◌else◌,
}
use tornado_4337_relayer.Base.Text.{Text, codes, text_eq}
use tornado_4337_relayer.Fee.{UserOpGas}
use tornado_4337_relayer.Errors.{
  GasField, call_gas_limit, verification_gas_limit, pre_verification_gas,
  paymaster_verification_gas_limit, paymaster_post_op_gas_limit, Error, failure, validation_error,
  bundler_failed, estimate_does_not_fit, no_usable_estimate,
}
use tornado_4337_relayer.Viem.{Viem}
use tornado_4337_relayer.UserOp.{RpcUserOperation, read_gas, starts_with}
use tornado_4337_relayer.Service.{
  Quantity, missing, other, number, text, RpcResult, not_an_object, object, Body, rpc_error,
  rpc_result, neither, Fetched, timed_out, network_error, not_json, http_error, body,
}

-- `bundlerRequest`: every way to fail throws
unfoldable pub bundler_request : Fetched → Result Error RpcResult
bundler_request (body (rpc_result r)) = ok r
bundler_request _ = err (failure bundler_failed)

pub record GasEstimate : Type 0 where
  pub call_gas_limit : ℕ
  pub verification_gas_limit : ℕ
  pub pre_verification_gas : ℕ
  pub paymaster_verification_gas_limit : Option ℕ
  pub paymaster_post_op_gas_limit : Option ℕ

-- `[0-9a-fA-F]`
is_hex_digit : ℕ → Bool
is_hex_digit c = leb b'0' c && leb c b'9' || (leb b'a' c && leb c b'f' || leb b'A' c && leb c b'F')

all_hex : Text → Bool
all_hex [] = true
all_hex (c ∷ s) = is_hex_digit c && all_hex s

-- `/^0x[0-9a-fA-F]+$/`
matches_quantity : Text → Bool
matches_quantity s = starts_with s (codes "0x") && (ltb 2 (length s) && all_hex (drop 2 s))

abbrev max_safe_integer : ℕ
max_safe_integer = 2 ^ 53 - 1

module _ (v : Viem) where
  -- `quantity(v)`
  unfoldable pub quantity : Quantity → Option ℕ
  unfolding matches_quantity all_hex is_hex_digit text_eq
  quantity (number n) = if leb n max_safe_integer then some n else none
  quantity (text s) = if matches_quantity s then v.hex_to_big_int s else none
  quantity _ = none

  field : (GasField → Quantity) → GasField → Result Error ℕ
  field r f = or_throw (quantity (r f)) (failure no_usable_estimate)

  three_fields : (GasField → Quantity) → Result Error GasEstimate
  unfolding field
  three_fields r = do
    call ← field r call_gas_limit
    verification ← field r verification_gas_limit
    pre_verification ← field r pre_verification_gas
    ok (record {
      call_gas_limit = call;
      verification_gas_limit = verification;
      pre_verification_gas = pre_verification;
      paymaster_verification_gas_limit = none;
      paymaster_post_op_gas_limit = none;
    })

  two_more_fields : (GasField → Quantity) → GasEstimate → Result Error GasEstimate
  unfolding field
  two_more_fields r estimate = do
    verification ← field r paymaster_verification_gas_limit
    post_op ← field r paymaster_post_op_gas_limit
    ok (record estimate {
      paymaster_verification_gas_limit = some verification;
      paymaster_post_op_gas_limit = some post_op;
    })

  -- `asGasEstimate(result, hasPaymaster)`: `err` is `{ ok: false, … }`
  unfoldable pub as_gas_estimate : RpcResult → Bool → Result Error GasEstimate
  unfolding three_fields two_more_fields
  as_gas_estimate not_an_object has_paymaster = err (failure no_usable_estimate)
  as_gas_estimate (object r) has_paymaster =
      (three_fields r >>= λ estimate.
      if has_paymaster then two_more_fields r estimate else ok estimate)

-- `undefined > limit` is false
abbrev exceeds : Option ℕ → ℕ → Bool
exceeds none limit = false
exceeds (some n) limit = ltb limit n

-- `tooSmall.length > 0`
unfoldable pub too_small : GasEstimate → UserOpGas → Bool
too_small estimate sent =
    ltb sent.call_gas_limit estimate.call_gas_limit
    || (ltb sent.verification_gas_limit estimate.verification_gas_limit
        || (ltb sent.pre_verification_gas estimate.pre_verification_gas
            || (exceeds estimate.paymaster_verification_gas_limit
                  sent.paymaster_verification_gas_limit
                || exceeds estimate.paymaster_post_op_gas_limit sent.paymaster_post_op_gas_limit)))

-- an error of its own for one that `m` throws
abbrev relabel : {A : Type 0} → Error → Result Error A → Result Error A
relabel e (ok a) = ok a
relabel e (err e') = err e

-- What `assertBundlerSimulates` makes of the bundler's answer for an operation with a paymaster.
unfoldable pub judge_estimate : Viem → RpcUserOperation → Fetched → Result Error (Unit {0})
judge_estimate v op fetched = do
  result ← relabel (validation_error bundler_failed 32007) (bundler_request fetched)
  estimate ← relabel (validation_error no_usable_estimate 32007) (as_gas_estimate v result true)
  sent ← read_gas v op
  throw_if (too_small estimate sent) (validation_error estimate_does_not_fit 32008)

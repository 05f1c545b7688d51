-- ===== src/Service/Estimate/Fits.antt =====
-- When the bundler's answer counts as a simulation that fits the limits that are signed.
use tornado_4337_relayer.Base.{
  ℕ, ◌≤◌, ◌≡◌, ◌↔◌, refl, true, false, some, arith, Result, ok, err, >>=-eq-ok, throw_if-eq-ok,
}
use tornado_4337_relayer.Fee.{UserOpGas}
use tornado_4337_relayer.Errors.{
  GasField, call_gas_limit, verification_gas_limit, pre_verification_gas,
  paymaster_verification_gas_limit, paymaster_post_op_gas_limit, Error, validation_error,
  no_usable_estimate,
}
use tornado_4337_relayer.Viem.{Viem}
use tornado_4337_relayer.UserOp.{RpcUserOperation, read_gas}
use tornado_4337_relayer.Service.{
  Quantity, not_an_object, object, Fetched, rpc_error, rpc_result, neither, timed_out,
  network_error, not_json, http_error, body,
}
use tornado_4337_relayer.Service.Estimate.{
  bundler_request, GasEstimate, quantity, field, three_fields, two_more_fields, as_gas_estimate,
  too_small, relabel, judge_estimate,
}

-- A field that is there, is a quantity, and is at most the limit.
pub record Within (v : Viem) (q : Quantity) (limit : ℕ) : Type 0 where
  pub amount : ℕ
  pub read : quantity v q ≡ some amount
  pub small : amount ≤ limit

pub record Fits (v : Viem) (op : RpcUserOperation) (fetched : Fetched) : Type 0 where
  pub fields : GasField → Quantity
  pub sent : UserOpGas
  pub answered : fetched ≡ body (rpc_result (object fields))
  pub limits : read_gas v op ≡ ok sent
  pub call : Within v (fields call_gas_limit) sent.call_gas_limit
  pub verification : Within v (fields verification_gas_limit) sent.verification_gas_limit
  pub pre_verification : Within v (fields pre_verification_gas) sent.pre_verification_gas
  pub paymaster_verification :
      Within v (fields paymaster_verification_gas_limit) sent.paymaster_verification_gas_limit
  pub paymaster_post_op :
      Within v (fields paymaster_post_op_gas_limit) sent.paymaster_post_op_gas_limit

module _ (v : Viem) where
  -- The five quantities that an estimate with a paymaster has.
  record Read (fields : GasField → Quantity) (e : GasEstimate) : Type 0 where
    call : quantity v (fields call_gas_limit) ≡ some e.call_gas_limit
    verification : quantity v (fields verification_gas_limit) ≡ some e.verification_gas_limit
    pre_verification : quantity v (fields pre_verification_gas) ≡ some e.pre_verification_gas
    paymaster_verification :
        (n : ℕ) × (quantity v (fields paymaster_verification_gas_limit) ≡ some n)
        × (e.paymaster_verification_gas_limit ≡ some n)
    post_op :
        (n : ℕ) × (quantity v (fields paymaster_post_op_gas_limit) ≡ some n)
        × (e.paymaster_post_op_gas_limit ≡ some n)

  as_gas_estimate-Read :
      (fields : GasField → Quantity) (e : GasEstimate)
      → as_gas_estimate v (object fields) true ≡ ok e
      → Read fields e
  unfolding as_gas_estimate three_fields two_more_fields field
  as_gas_estimate-Read fields e h = record {
    call = ground arith;
    verification = ground arith;
    pre_verification = ground arith;
    paymaster_verification = ground arith;
    post_op = ground arith;
  }

  too_small-Fits :
      (fields : GasField → Quantity) (e : GasEstimate) (sent : UserOpGas) (op : RpcUserOperation)
      → Read fields e
      → read_gas v op ≡ ok sent
      → too_small e sent ≡ false
      → Fits v op (body (rpc_result (object fields)))
  unfolding too_small
  too_small-Fits fields e sent op r limits big =
      let (d, d_is, d_at) = r.paymaster_verification in
      let (p, p_is, p_at) = r.post_op in
      record {
        fields = fields;
        sent = sent;
        answered = refl;
        limits = limits;
        call = record { amount = _; read = r.call; small = ground arith };
        verification = record { amount = _; read = r.verification; small = ground arith };
        pre_verification = record { amount = _; read = r.pre_verification; small = ground arith };
        paymaster_verification = record { amount = d; read = d_is; small = ground arith };
        paymaster_post_op = record { amount = p; read = p_is; small = ground arith };
      }

  relabel-eq-ok :
      {A : Type 0} (e : Error) (m : Result Error A) {a : A} → relabel e m ≡ ok a → m ≡ ok a
  relabel-eq-ok e (ok a) h = h
  relabel-eq-ok e (err e') h = cc

  judge_estimate-Fits :
      (op : RpcUserOperation) (fetched : Fetched)
      → judge_estimate v op fetched ≡ ok tt
      → Fits v op fetched
  unfolding judge_estimate bundler_request as_gas_estimate
  judge_estimate-Fits op (body (rpc_result (object fields))) h =
      let no_estimate : Error = validation_error no_usable_estimate 32007 in
      let (e, read, h1) =
        >>=-eq-ok (relabel no_estimate (as_gas_estimate v (object fields) true)) _ h in
      let (sent, limits, h2) = >>=-eq-ok (read_gas v op) _ h1 in
      too_small-Fits fields e sent op
        (as_gas_estimate-Read fields e (relabel-eq-ok no_estimate _ read)) limits
        (throw_if-eq-ok (too_small e sent) _ h2)
  judge_estimate-Fits op (body (rpc_result not_an_object)) h = cc
  judge_estimate-Fits op (body rpc_error) h = cc
  judge_estimate-Fits op (body neither) h = cc
  judge_estimate-Fits op timed_out h = cc
  judge_estimate-Fits op network_error h = cc
  judge_estimate-Fits op not_json h = cc
  judge_estimate-Fits op (http_error n) h = cc

  judged_of_Fits :
      (op : RpcUserOperation) (fetched : Fetched)
      → Fits v op fetched
      → judge_estimate v op fetched ≡ ok tt
  unfolding judge_estimate bundler_request as_gas_estimate three_fields two_more_fields field
      too_small
  judged_of_Fits op fetched f =
      rw (f.answered, judge_estimate)
        (ground (
          arith, f.limits, f.call.read, f.call.small, f.verification.read, f.verification.small,
          f.pre_verification.read, f.pre_verification.small, f.paymaster_verification.read,
          f.paymaster_verification.small, f.paymaster_post_op.read, f.paymaster_post_op.small,
        ))

  pub judge_estimate_iff :
      (op : RpcUserOperation) (fetched : Fetched)
      → (judge_estimate v op fetched ≡ ok tt) ↔ Fits v op fetched
  judge_estimate_iff op fetched = (judge_estimate-Fits op fetched, judged_of_Fits op fetched)

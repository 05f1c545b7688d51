-- ===== src/Service/Prepare/Facts.antt =====
-- What the first two steps of `sign` have established when the note is reserved.
use tornado_4337_relayer.Base.{
  ℕ, ◌≤◌, ◌≡◌, ap, ◌∙◌, false, true, List, [], some, ltb, arith, ok, address_key, >>=-eq-ok,
  throws-eq-ok, or_throw, or_throw-eq-ok,
}
use tornado_4337_relayer.Base.Dict
use tornado_4337_relayer.Fee.{minimum_fee}
use tornado_4337_relayer.Errors.{
  failure, thrown, instance_not_served, max_fee_per_gas, max_priority_fee_per_gas,
}
use tornado_4337_relayer.Viem.{Viem, DecodedCall}
use tornado_4337_relayer.UserOp.{RpcUserOperation, truthy, or_else, q, read_gas}
use tornado_4337_relayer.Validate.{
  TornadoWithdrawCall, invalid, decode_account_calls, find_sponsoring_withdraw,
}
use tornado_4337_relayer.Validate.Sponsors.{Sponsors, find_sponsoring_withdraw_iff}
use tornado_4337_relayer.Service.{
  Service, SponsorContext, RefundTo, undefined_refund, null_refund, other_refund, refund_text,
  InstanceInfo, rules, instance_info,
}
use tornado_4337_relayer.Service.Prepare.{
  Prepared, Priced, check_paymaster, check_refund, prepare, fee_params, priced,
}

-- A paymaster that the operation names is the service's.
abbrev pub OwnPaymaster : Viem → Service → RpcUserOperation → Type 0
OwnPaymaster v svc op =
    truthy op.paymaster ≡ true → v.parse_address (or_else op.paymaster []) ≡ some svc.paymaster

check_paymaster-OwnPaymaster :
    (v : Viem) (svc : Service) (op : RpcUserOperation) {u : Unit {0}}
    → check_paymaster v svc op ≡ ok u
    → OwnPaymaster v svc op
unfolding check_paymaster
check_paymaster-OwnPaymaster v svc op e named =
    let (a, read, e1) =
      >>=-eq-ok (or_throw (v.parse_address (or_else op.paymaster [])) (failure thrown)) _
        (rw (named, check_paymaster) at e) in
    let same : a ≡ svc.paymaster = ground arith in or_throw-eq-ok _ _ read ∙ ap some same

-- `refundTo` is left out or an address.
abbrev pub Refundable : Viem → RefundTo → Type 0
Refundable v undefined_refund = Unit
Refundable v (refund_text t) = v.is_address t ≡ true
Refundable v _ = ⊥

check_refund-Refundable :
    (v : Viem) (svc : Service) (r : RefundTo) {u : Unit {0}}
    → check_refund v svc (record { refund_to = r }) ≡ ok u
    → Refundable v r
unfolding check_refund
check_refund-Refundable v svc undefined_refund e = tt
check_refund-Refundable v svc (refund_text t) e = ground arith
check_refund-Refundable v svc null_refund e = cc
check_refund-Refundable v svc other_refund e = cc

pub record Acceptable (v : Viem) (svc : Service) (op : RpcUserOperation) (context : SponsorContext)
    (p : Prepared) : Type 0 where
  pub calls : List DecodedCall
  pub decoded : decode_account_calls v op.call_data ≡ ok calls
  pub sponsors : Sponsors v calls (rules svc op.sender) p.call
  pub served : Dict.get svc.instances p.call.args.pool ≡ some p.info
  pub affordable : p.call.args.fee ≤ p.info.denomination
  pub gas : read_gas v op ≡ ok p.gas
  pub max_fee : q v op.max_fee_per_gas max_fee_per_gas ≡ ok p.max_fee_per_gas
  pub priority : ℕ
  pub priority_is : q v op.max_priority_fee_per_gas max_priority_fee_per_gas ≡ ok priority
  pub priority_below : priority ≤ p.max_fee_per_gas
  pub own_paymaster : OwnPaymaster v svc op
  pub refundable : Refundable v context.refund_to

served_as :
    (svc : Service) {w w' : TornadoWithdrawCall} {info info' : InstanceInfo}
    → w ≡ w'
    → info ≡ info'
    → instance_info svc w.args.pool ≡ ok info
    → Dict.get svc.instances w'.args.pool ≡ some info'
unfolding instance_info
served_as svc {w' = w'} {info' = info'} p i h =
    let here : or_throw (Dict.get svc.instances w'.args.pool) (invalid instance_not_served)
        ≡ ok info' =
      cc in
    or_throw-eq-ok _ _ here

affordable_as :
    {w w' : TornadoWithdrawCall} {info info' : InstanceInfo}
    → w ≡ w'
    → info ≡ info'
    → ltb info.denomination w.args.fee ≡ false
    → w'.args.fee ≤ info'.denomination
affordable_as p i h = ground arith

not_below : {tip m n : ℕ} → ltb m tip ≡ false → m ≡ n → tip ≤ n
not_below h e = ground arith

pub prepare-Acceptable :
    (v : Viem) (svc : Service) (op : RpcUserOperation) (context : SponsorContext) (p : Prepared)
    → prepare v svc op context ≡ ok p
    → Acceptable v svc op context p
unfolding prepare instance_info
prepare-Acceptable v svc op context p e =
    let (u, ours, e1) = >>=-eq-ok (check_paymaster v svc op) _ e in
    let (u', fine, e2) = >>=-eq-ok (check_refund v svc context) _ e1 in
    let (calls, decoded, e3) = >>=-eq-ok (decode_account_calls v op.call_data) _ e2 in
    let (w, found, e4) = >>=-eq-ok (find_sponsoring_withdraw v calls (rules svc op.sender)) _ e3 in
    let (info, served, e5) = >>=-eq-ok (instance_info svc w.args.pool) _ e4 in
    let (affordable, e6) = throws-eq-ok (ltb info.denomination w.args.fee) _ _ e5 in
    let (gas, gas_is, e7) = >>=-eq-ok (read_gas v op) _ e6 in
    let (max_fee, max_is, e8) = >>=-eq-ok (q v op.max_fee_per_gas max_fee_per_gas) _ e7 in
    let (tip, tip_is, e9) =
      >>=-eq-ok (q v op.max_priority_fee_per_gas max_priority_fee_per_gas) _ e8 in
    let (ordered, e10) = throws-eq-ok (ltb max_fee tip) _ _ e9 in
    let call_is : w ≡ p.call = cc in
    let info_is : info ≡ p.info = cc in
    let gas_same : gas ≡ p.gas = cc in
    let max_same : max_fee ≡ p.max_fee_per_gas = cc in
    record {
      calls = calls;
      decoded = decoded;
      sponsors = (find_sponsoring_withdraw_iff v calls _ p.call).0 (found ∙ ap ok call_is);
      served = served_as svc call_is info_is served;
      affordable = affordable_as call_is info_is affordable;
      gas = gas_is ∙ ap ok gas_same;
      max_fee = max_is ∙ ap ok max_same;
      priority = tip;
      priority_is = tip_is;
      priority_below = not_below ordered max_same;
      own_paymaster = check_paymaster-OwnPaymaster v svc op ours;
      refundable = check_refund-Refundable v svc context.refund_to fine;
    }

pub priced_enough :
    (svc : Service) (p : Prepared) (rate : ℕ) (c : Priced)
    → priced svc p rate ≡ ok c
    → (c.min_fee ≡ minimum_fee (fee_params svc p rate))
      × (minimum_fee (fee_params svc p rate) ≤ p.call.args.fee)
      × (c.token_per_eth ≡ rate)
      × (c.service_fee ≡ (fee_params svc p rate).service_fee)
unfolding priced
priced_enough svc p rate c e = ground arith

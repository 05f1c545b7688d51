-- ===== src/Service/Stub.antt =====
-- `stubData` and `senderImplementationFromOp` of relayer/src/service.ts.
use tornado_4337_relayer.Base.{
  ℕ, ◌+◌, Option, none, some, ◌++◌, replicate, Result, ok, err, ◌>>=◌, or_throw, if◌then◌else◌,
}
use tornado_4337_relayer.Base.Text.{Text, codes}
use tornado_4337_relayer.Errors.{Error, failure, thrown}
use tornado_4337_relayer.Viem.{Viem, Address, zero_address}
use tornado_4337_relayer.UserOp.{RpcUserOperation, Authorization, or_else, dummy_signature}
use tornado_4337_relayer.UserOp.Hash.{encode_paymaster_data, withdrawal_hash}
use tornado_4337_relayer.Validate.{
  TornadoWithdrawCall, decode_account_calls, find_sponsoring_withdraw,
}
use tornado_4337_relayer.Service.{
  Service, SponsorContext, RefundTo, undefined_refund, null_refund, other_refund, refund_text,
  refunds, rules, instance_info,
}

-- an address that viem's encoders take: they check `isAddress` first
abbrev pub encodable : Viem → Text → Option Address
encodable v t = if v.is_address t then v.parse_address t else none

-- `refundTo ?? otherwise`, as an encoder takes it
abbrev pub refund_or_else : Viem → RefundTo → Option Address → Option Address
refund_or_else v undefined_refund otherwise = otherwise
refund_or_else v null_refund otherwise = otherwise
refund_or_else v other_refund otherwise = none
refund_or_else v (refund_text t) otherwise = encodable v t

-- `auth?.address ?? auth?.contractAddress`
abbrev pub named_implementation : Authorization → Option Text
named_implementation auth = elim auth.address [ some a ↦ some a | none ↦ auth.contract_address ]

module _ (v : Viem) where
  unfoldable pub sender_implementation_from_op : RpcUserOperation → Option Address
  sender_implementation_from_op op = elim op.eip7702_auth [
    | none ↦ none
    | some auth ↦ elim (named_implementation auth) [ none ↦ none | some a ↦ encodable v a ]
  ]

  -- The locals that the `try` block of `stubData` assigns: an exception keeps those before it.
  pub record Found : Type 0 where
    pub fee : ℕ
    pub fee_token : Address
    pub refund_to : Option Address
    pub approved : Text

  -- `context.refundTo ?? otherwise`, in master mode; the zero address in worker mode
  refund_or : Service → SponsorContext → Option Address → Option Address
  refund_or svc context otherwise =
      if refunds svc then refund_or_else v context.refund_to otherwise else some zero_address

  unfound : Service → RpcUserOperation → SponsorContext → Found
  unfound svc op context = record {
    fee = 0;
    fee_token = zero_address;
    refund_to = refund_or svc context (encodable v op.sender);
    approved = codes "0x" ++ replicate 64 b'0';
  }

  -- the assignments after `findSponsoringWithdraw`
  found_in : Service → SponsorContext → TornadoWithdrawCall → Found → Found
  found_in svc context w start =
      let start = record start { fee = w.args.fee } in
      elim (instance_info svc w.args.pool) [
        | err e ↦ start
        | ok info ↦
            let start = record start {
              fee_token = info.token;
              refund_to = refund_or svc context (some w.args.recipient);
            } in
            elim (withdrawal_hash v w.args) [
              | err e ↦ start
              | ok hash ↦ record start { approved = hash }
            ]
      ]

  found : Service → RpcUserOperation → SponsorContext → Found
  found svc op context =
      elim (do
        calls ← decode_account_calls v op.call_data
        find_sponsoring_withdraw v calls (rules svc op.sender)) [
          | err e ↦ unfound svc op context
          | ok w ↦ found_in svc context w (unfound svc op context)
        ]

  -- The stub's `paymasterData`; its other fields are constants of the service.
  unfoldable pub stub_data : Service → ℕ → RpcUserOperation → SponsorContext → Result Error Text
  unfolding found found_in unfound refund_or
  stub_data svc now op context = do
    let f = found svc op context
    refund_to ← or_throw f.refund_to (failure thrown)
    encode_paymaster_data v
        (record {
          valid_until = now + svc.signature_ttl_sec;
          valid_after = 0;
          fee = f.fee;
          service_fee = 0;
          refund_to = refund_to;
          fee_token = f.fee_token;
          token_per_eth = 0;
          withdrawal_hash = f.approved;
          sender_implementation = or_else (sender_implementation_from_op op) zero_address;
        })
        dummy_signature

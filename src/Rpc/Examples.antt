-- ===== src/Rpc/Examples.antt =====
-- A request that reaches `sign`.
use tornado_4337_relayer.Base.{ℕ, ◌≡◌, ◌↔◌, refl, [], ◌∷◌, ok}
use tornado_4337_relayer.Base.Text.{Text, codes, text_eq}
use tornado_4337_relayer.Viem.Sample.{sample_viem}
use tornado_4337_relayer.UserOp.{RpcUserOperation}
use tornado_4337_relayer.Service.Sign.Examples.{sample_op}
use tornado_4337_relayer.Rpc.{
  Value, null, string, object, Request, Methods, or_value, dispatch, parse_sponsor_params, handle,
}
use tornado_4337_relayer.Rpc.Reached.{Signs, handle-Signs_iff}

abbrev fields : Text → Value
fields name = string (codes "0xa")

abbrev read_op : (Text → Value) → RpcUserOperation
read_op given = sample_op

abbrev methods : Methods ℕ
methods = record {
  chain_id = 1;
  entry_point = codes "0xE";
  status = ok 1;
  quote = λ q. ok 2;
  stub_data = λ op context. ok 3;
  sign = λ op context. ok 4;
}

abbrev request : Request
request = record {
  id = string (codes "7");
  jsonrpc = string (codes "2.0");
  method = string (codes "pm_getPaymasterData");
  params = object fields ∷ (string (codes "0xe") ∷ (string (codes "0x1") ∷ []));
}

handle-Signs_iff_example :
    (handle sample_viem read_op methods request
      ≡ record { id = or_value request.id null; outcome = ok 4 })
    ↔ Signs sample_viem read_op methods request 4
handle-Signs_iff_example = handle-Signs_iff sample_viem read_op methods request 4 refl

signs_request :
    handle sample_viem read_op methods request ≡ record { id = string (codes "7"); outcome = ok 4 }
unfolding handle text_eq dispatch parse_sponsor_params
signs_request = refl

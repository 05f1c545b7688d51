-- ===== src/Service/Sign/Examples.antt =====
-- `sign` on a request that passes every check.
use tornado_4337_relayer.Base.{◌≡◌, refl, true, false, none, some, [], ◌∷◌, ok}
use tornado_4337_relayer.Base.Text.{codes, text_eq}
use tornado_4337_relayer.Errors.{signed}
use tornado_4337_relayer.Service.Prepare.{prepare, priced, max_gas_cost}
use tornado_4337_relayer.Validate.{
  decode_account_calls, find_sponsoring_withdraw, decode_tornado_withdraws,
}
use tornado_4337_relayer.Base.Dict
use tornado_4337_relayer.Service.Checks.{
  rate_for, assert_deposit_covers, assert_registration_current, assert_withdraw_simulates, covers,
  resolve_sender_implementation,
}
use tornado_4337_relayer.Fee.{minimum_fee, keep_eth, total_gas, service_fee_for}
use tornado_4337_relayer.Base.Decimal.{decimal}
use tornado_4337_relayer.Service.Bundler.{assert_bundler_simulates}
use tornado_4337_relayer.Service.Estimate.{
  as_gas_estimate, bundler_request, judge_estimate, quantity, too_small,
}
use tornado_4337_relayer.Service.Stub.{sender_implementation_from_op, stub_data}
use tornado_4337_relayer.Viem.Sample.{sample_viem, sample_paymaster}
use tornado_4337_relayer.UserOp.{
  RpcUserOperation, dummy_signature, read_gas, q, init_code_hash, is_eip7702_init_code,
  pack_high_low, pack_init_code,
}
use tornado_4337_relayer.UserOp.Hash.{encode_paymaster_data, paymaster_hash, withdrawal_hash}
use tornado_4337_relayer.Store.{
  Store, new_memory_store, commit, committed_gas_cost, outstanding, persist_signed, prune, release,
  reserve, token_of,
}
use tornado_4337_relayer.Service.{
  Service, worker, World, SponsorContext, undefined_refund, simulation_result, body, rpc_result,
  object, number, instance_info,
}
use tornado_4337_relayer.Service.Sign.{
  PaymasterData, sign, reserve_and_issue, take_note, checks, issue, record_signed, terms_of,
}
use tornado_4337_relayer.Service.Sign.Issued.{Issued, sign-Issued}

abbrev pub sample_service : Service
sample_service = record {
  chain_id = 1;
  has_bundler = true;
  entry_point = 4;
  paymaster = sample_paymaster;
  reward_account = 6;
  allowed_sender_implementations = 119 ∷ [];
  instances =
      (7, record { denomination = 1000; token = 0; decimals = 18; symbol = codes "ETH" }) ∷ [];
  service_fee_bps = 10;
  signature_ttl_sec = 600;
  min_deposit_wei = some 5;
  max_sponsorship_gas_wei = some 50;
  gas_price_margin_bps = 0;
  gas_margin_bps = 1_000;
  mode = worker;
}

abbrev pub sample_op : RpcUserOperation
sample_op = record {
  sender = codes "0xa";
  nonce = some (codes "0x0");
  factory = none;
  factory_data = none;
  init_code = none;
  call_data = codes "0x";
  call_gas_limit = some (codes "0x5");
  verification_gas_limit = some (codes "0x5");
  pre_verification_gas = some (codes "0x5");
  max_fee_per_gas = some (codes "0x2");
  max_priority_fee_per_gas = some (codes "0x1");
  paymaster = none;
  paymaster_verification_gas_limit = some (codes "0x2");
  paymaster_post_op_gas_limit = some (codes "0x2");
  paymaster_data = none;
  signature = none;
  eip7702_auth = some (record { address = some (codes "0x77"); contract_address = none });
}

abbrev pub sample_world : World
sample_world = record {
  now = 1;
  now_ms = 1000;
  token_per_eth = λ token decimals. none;
  get_code = λ sender. none;
  deposit_wei = some 100;
  worker_master = some 6;
  is_spent = λ pool nullifier. some false;
  is_known_root = λ pool root. some true;
  simulate_relay_withdraw = λ args. simulation_result true;
  get_sender_code = λ sender. some none;
  estimate_user_operation_gas = λ op override. body (rpc_result (object (λ field. number 2)));
  sign_message = λ hash. some dummy_signature;
  writable = true;
  meanwhile = λ at s. s;
}

abbrev pub sample_context : SponsorContext
sample_context = record { refund_to = undefined_refund }

abbrev pub sample_data : PaymasterData
sample_data = record {
  paymaster_data = codes "0x";
  terms = record {
    valid_until = 601;
    valid_after = 0;
    fee = 100;
    service_fee = 1;
    refund_to = 0;
    fee_token = 0;
    token_per_eth = 0;
    withdrawal_hash = codes "0x";
    sender_implementation = 119;
  };
  min_fee = 42;
}

abbrev store_after : Store
store_after = record {
  notes =
      (
        codes "0x04",
        record {
          valid_until = 601;
          sender = codes "0xa";
          nonce = 0;
          status = signed;
          token = codes "1000-1";
          max_gas_cost_wei = some 38;
        },
      )
      ∷ [];
  seq = 1;
  file = none;
}

signs_sample :
    sign sample_viem sample_service sample_world sample_op sample_context new_memory_store
    ≡ (ok sample_data, store_after)
unfolding sign prepare decode_account_calls find_sponsoring_withdraw decode_tornado_withdraws
    text_eq instance_info Dict.get read_gas q rate_for priced minimum_fee keep_eth total_gas
    service_fee_for reserve_and_issue take_note decimal Dict.set assert_bundler_simulates
    assert_deposit_covers assert_registration_current assert_withdraw_simulates covers
    resolve_sender_implementation as_gas_estimate bundler_request judge_estimate quantity too_small
    max_gas_cost checks issue record_signed terms_of sender_implementation_from_op stub_data commit
    committed_gas_cost outstanding persist_signed prune release reserve token_of
    encode_paymaster_data init_code_hash is_eip7702_init_code pack_high_low pack_init_code
    paymaster_hash withdrawal_hash
signs_sample = refl

sign-Issued_example :
    Issued sample_viem sample_service sample_world sample_op sample_context new_memory_store
      sample_data store_after
sign-Issued_example =
    sign-Issued sample_viem sample_service sample_world sample_op sample_context new_memory_store
      store_after sample_data signs_sample

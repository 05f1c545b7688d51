-- ===== src/Service/Sign/Failures.antt =====
-- `sign` on a request that fails after the note has been reserved.
use tornado_4337_relayer.Service.Stub.{sender_implementation_from_op, stub_data}
use tornado_4337_relayer.Service.Checks.{
  resolve_sender_implementation, assert_deposit_covers, covers, assert_registration_current,
  assert_withdraw_simulates,
}
use tornado_4337_relayer.Base.Decimal.{decimal}
use tornado_4337_relayer.Service.Bundler.{assert_bundler_simulates}
use tornado_4337_relayer.Service.Estimate.{
  as_gas_estimate, bundler_request, judge_estimate, quantity, too_small,
}
use tornado_4337_relayer.Base.{◌⊎◌, ◌≡◌, refl, true, false, none, some, [], ◌∷◌, ok, err}
use tornado_4337_relayer.Base.Dict
use tornado_4337_relayer.Base.Text.{codes, text_eq}
use tornado_4337_relayer.Errors.{
  validation_error, would_revert, failure, thrown, pending, nonce_field,
}
use tornado_4337_relayer.Fee.{total_gas}
use tornado_4337_relayer.Viem.{Viem}
use tornado_4337_relayer.Viem.Sample.{sample_viem, sample_args}
use tornado_4337_relayer.UserOp.{
  q, read_gas, pack_high_low, init_code_hash, is_eip7702_init_code, pack_init_code,
}
use tornado_4337_relayer.UserOp.Hash.{withdrawal_hash, paymaster_hash, encode_paymaster_data}
use tornado_4337_relayer.Validate.{
  paymaster, decode_account_calls, find_sponsoring_withdraw, decode_tornado_withdraws,
}
use tornado_4337_relayer.Store.{
  Store, new_memory_store, prune, reserve, token_of, committed_gas_cost, outstanding, release,
}
use tornado_4337_relayer.Service.{World, simulation_result, instance_info}
use tornado_4337_relayer.Service.Prepare.{Prepared, Priced, max_gas_cost}
use tornado_4337_relayer.Service.Sign.{take_note, terms_of, issue, reserve_and_issue, checks}
use tornado_4337_relayer.Service.Sign.Examples.{
  sample_service, sample_op, sample_world, sample_context,
}
use tornado_4337_relayer.Service.Sign.Released.{
  holds_pending, Released, LeftHeld, reserve_and_issue-Released,
}

abbrev prepared : Prepared
prepared = record {
  call = record { index = 1; args = sample_args; refund = 0; via = paymaster };
  info = record { denomination = 1000; token = 0; decimals = 18; symbol = codes "ETH" };
  gas = record {
    call_gas_limit = 5;
    verification_gas_limit = 5;
    pre_verification_gas = 5;
    paymaster_verification_gas_limit = 2;
    paymaster_post_op_gas_limit = 2;
  };
  max_fee_per_gas = 2;
}

abbrev priced_terms : Priced
priced_terms = record { token_per_eth = 0; service_fee = 1; min_fee = 42 }

-- the pool's simulation says that the withdrawal would revert
abbrev reverting : World
reverting = record sample_world { simulate_relay_withdraw = λ args. simulation_result false }

abbrev pub held_store : Store
held_store = record {
  notes =
      (
        codes "0x04",
        record {
          valid_until = 601;
          sender = codes "0xa";
          nonce = 0;
          status = pending;
          token = codes "1000-1";
          max_gas_cost_wei = some 38;
        },
      )
      ∷ [];
  seq = 1;
  file = none;
}

abbrev released_store : Store
released_store = record { notes = []; seq = 1; file = none }

takes :
    take_note sample_service reverting sample_args sample_op 0
      (max_gas_cost prepared)
      (prune new_memory_store 1)
    ≡ (ok (codes "1000-1"), held_store)
unfolding take_note reserve Dict.get prune token_of Dict.set decimal max_gas_cost total_gas
takes = refl

fails :
    reserve_and_issue sample_viem sample_service reverting sample_op sample_context prepared
      priced_terms new_memory_store
    ≡ (err (validation_error would_revert 32006), released_store)
unfolding reserve_and_issue q take_note reserve Dict.get prune checks resolve_sender_implementation
    sender_implementation_from_op assert_deposit_covers max_gas_cost total_gas covers
    committed_gas_cost outstanding Dict.set assert_registration_current assert_withdraw_simulates
    decimal Dict.delete text_eq release token_of
fails = refl

nonce_reads : q sample_viem sample_op.nonce nonce_field ≡ ok 0
unfolding q
nonce_reads = refl

reserve_and_issue-Released_example :
    Released (codes "0x04") (codes "1000-1") released_store
    ⊎ LeftHeld sample_viem sample_service reverting sample_op sample_context prepared priced_terms
        held_store released_store
reserve_and_issue-Released_example =
    reserve_and_issue-Released sample_viem sample_service reverting sample_op sample_context
      prepared priced_terms 0 (codes "1000-1") new_memory_store held_store released_store
      (validation_error would_revert 32006) nonce_reads takes fails

-- a library that cannot pack the gas limits
abbrev unpacking : Viem
unpacking = record sample_viem { word16 = λ n. none }

-- The exception: the reservation is left behind.
left_held :
    reserve_and_issue unpacking sample_service sample_world sample_op sample_context prepared
      priced_terms new_memory_store
    ≡ (err (failure thrown), held_store)
unfolding reserve_and_issue q take_note reserve Dict.get prune checks resolve_sender_implementation
    sender_implementation_from_op assert_deposit_covers max_gas_cost total_gas covers
    committed_gas_cost outstanding Dict.set assert_registration_current assert_withdraw_simulates
    decimal Dict.delete text_eq release token_of issue terms_of withdrawal_hash paymaster_hash
    read_gas pack_high_low assert_bundler_simulates as_gas_estimate bundler_request judge_estimate
    quantity too_small stub_data init_code_hash is_eip7702_init_code pack_init_code
    encode_paymaster_data decode_account_calls find_sponsoring_withdraw decode_tornado_withdraws
    instance_info
left_held = refl

holds : holds_pending (codes "0x04") (codes "1000-1") held_store ≡ true
unfolding Dict.get text_eq
holds = refl

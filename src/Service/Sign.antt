-- ===== src/Service/Sign.antt =====
-- `sign` of relayer/src/service.ts, from the request to the signed terms.
pub mod Checked
pub mod Terms
pub mod Issued
pub mod Examples
pub mod Failures
pub mod Released
use tornado_4337_relayer.Base.{
  ℕ, ◌+◌, ◌*◌, Bool, true, false, not, Option, none, some, ltb, ◌==◌, Result, ok, err,
  if◌then◌else◌, or_throw, throw_if,
}
use tornado_4337_relayer.Base.Text.{Text}
use tornado_4337_relayer.Fee.{UserOpGas, FeeParams, total_gas, service_fee_for, minimum_fee}
use tornado_4337_relayer.Errors.{
  Error, validation_error, failure, thrown, wrong_paymaster, refund_to_not_address,
  fee_exceeds_denomination, priority_exceeds_max, fee_below_minimum, note_held, could_not_record,
  max_fee_per_gas, max_priority_fee_per_gas, nonce_field,
}
use tornado_4337_relayer.Viem.{Viem, Address, zero_address, WithdrawArgs}
use tornado_4337_relayer.Store.{
  Store, SponsoredNote, NewNote, Reservation, reserved, held, reserve, commit, release, prune,
}
use tornado_4337_relayer.UserOp.{RpcUserOperation, FeeTerms, truthy, or_else, q, read_gas}
use tornado_4337_relayer.UserOp.Hash.{withdrawal_hash, paymaster_hash, encode_paymaster_data}
use tornado_4337_relayer.Validate.{
  TornadoWithdrawCall, invalid, decode_account_calls, find_sponsoring_withdraw,
}
use tornado_4337_relayer.Service.{
  Service, World, SponsorContext, InstanceInfo, for_price, for_signature, refunds, rules,
  instance_info,
}
use tornado_4337_relayer.Service.Act.{Act, pure, lift, or_release, await, ◌>>=◌, ◌>>◌}
use tornado_4337_relayer.Service.Stub.{refund_or_else}
use tornado_4337_relayer.Service.Checks.{
  rate_for, resolve_sender_implementation, assert_deposit_covers, assert_registration_current,
  assert_withdraw_simulates,
}
use tornado_4337_relayer.Service.Bundler.{assert_bundler_simulates}
use tornado_4337_relayer.Service.Prepare.{Prepared, prepare, Priced, priced, max_gas_cost}

-- `PaymasterDataResult`, but for the constants of the service
pub record PaymasterData : Type 0 where
  pub paymaster_data : Text
  pub terms : FeeTerms
  pub min_fee : ℕ

-- Step 3: the reservation, at the request's clock.
abbrev reservation : Reservation → Result Error Text
reservation (reserved token) = ok token
reservation (held n) = err (validation_error (note_held n.status n.valid_until) 32003)

-- the entry that is reserved
abbrev pub new_note : Service → World → RpcUserOperation → ℕ → ℕ → NewNote
new_note svc w op nonce cost = record {
  valid_until = w.now + svc.signature_ttl_sec;
  sender = op.sender;
  nonce = nonce;
  max_gas_cost_wei = some cost;
}

unfoldable pub take_note : Service → World → WithdrawArgs → RpcUserOperation → ℕ → ℕ → Act Text
take_note svc w args op nonce cost s =
    let (r, s') = reserve w.now_ms s args.nullifier_hash (new_note svc w op nonce cost) in
    (reservation r, s')

abbrev pruned : World → Act (Unit {0})
pruned w s = (ok tt, prune s w.now)

-- Step 10: `commit`, and `release` where it throws.
abbrev record_or_release :
    Text → Text → Result Error (Unit {0}) × Store → Result Error (Unit {0}) × Store
record_or_release k token (ok u, s) = (ok u, s)
record_or_release k token (err e, s) = (err (failure could_not_record), release s k token)

unfoldable pub record_signed : World → Text → Text → Act (Unit {0})
record_signed w k token s = record_or_release k token (commit w.writable s k token)

module _ (v : Viem) (svc : Service) (w : World) (op : RpcUserOperation)
    (context : SponsorContext) where
  -- Steps 4 to 8, in the `try` block.
  pub checks : Prepared → Act Address
  checks p = do
    implementation ← resolve_sender_implementation v svc w op
    assert_deposit_covers svc w (max_gas_cost p) w.now
    assert_registration_current svc w
    assert_withdraw_simulates w p.call.args
    assert_bundler_simulates v svc w op context
    pure implementation

  abbrev refund_address : WithdrawArgs → Result Error Address
  refund_address args =
      if refunds svc
      then or_throw (refund_or_else v context.refund_to (some args.recipient)) (failure thrown)
      else ok zero_address

  -- Step 9, up to the hash that is signed.
  pub terms_of : Prepared → Priced → Address → Act FeeTerms
  terms_of p c implementation = do
    refund_to ← lift (refund_address p.call.args)
    hash ← lift (withdrawal_hash v p.call.args)
    pure (record {
      valid_until = w.now + svc.signature_ttl_sec;
      valid_after = 0;
      fee = p.call.args.fee;
      service_fee = c.service_fee;
      refund_to = refund_to;
      fee_token = p.info.token;
      token_per_eth = c.token_per_eth;
      withdrawal_hash = hash;
      sender_implementation = implementation;
    })

  abbrev signed_message : Text → Act Text
  signed_message hash = do
    await w for_signature
    lift (or_throw (w.sign_message hash) (failure thrown))

  -- Steps 9 and 10, under the reservation that `token` holds.
  pub issue : Prepared → Priced → Text → Address → Act PaymasterData
  issue p c token implementation = do
    terms ← terms_of p c implementation
    hash ← lift (paymaster_hash v op svc.chain_id svc.paymaster terms)
    signature ← or_release p.call.args.nullifier_hash token (signed_message hash)
    record_signed w p.call.args.nullifier_hash token
    paymaster_data ← lift (encode_paymaster_data v terms signature)
    pure (record { paymaster_data = paymaster_data; terms = terms; min_fee = c.min_fee })

  -- Everything from the reservation on.
  pub reserve_and_issue : Prepared → Priced → Act PaymasterData
  reserve_and_issue p c = do
    pruned w
    nonce ← lift (q v op.nonce nonce_field)
    token ← take_note svc w p.call.args op nonce (max_gas_cost p)
    implementation ← or_release p.call.args.nullifier_hash token (checks p)
    issue p c token implementation

  -- `sign(op, context)`
  pub sign : Act PaymasterData
  sign = do
    p ← lift (prepare v svc op context)
    await w for_price
    token_per_eth ← lift (rate_for w p.info)
    c ← lift (priced svc p token_per_eth)
    reserve_and_issue p c

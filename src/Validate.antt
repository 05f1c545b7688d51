-- ===== src/Validate.antt =====
-- relayer/src/validate.ts.
pub mod Scan
pub mod Sponsors
pub mod Examples
use tornado_4337_relayer.Base.{
  ℕ, suc, Bool, true, false, not, Option, none, some, List, [], ◌∷◌, ltb, ◌==◌, length, get_elem?,
  filter, any, Result, ok, err, ◌>>=◌, ◌>>◌, throw_if, or_throw, if◌then◌else◌,
}
use tornado_4337_relayer.Base.Text.{Text}
use tornado_4337_relayer.Errors.{
  Reason, Error, failure, thrown, validation_error, default_code, not_account_calls, no_withdraw,
  only_relay_withdraw, no_relay_withdraw, one_withdrawal, wrong_relayer, wrong_recipient,
  instance_not_served, carries_value,
}
use tornado_4337_relayer.Viem.{
  Viem, Address, DecodedCall, AccountCall, execute, execute_batch, WithdrawArgs, PaymasterCall,
  relay_withdraw, other_function, InstanceCall, withdraw, other_instance_function,
}

pub data Via : Type 0 where
  paymaster direct : Via

-- `TornadoWithdrawCall`; `args` holds the fields that a `withdrawalHash` covers
pub record TornadoWithdrawCall : Type 0 where
  pub index : ℕ
  pub args : WithdrawArgs
  pub refund : ℕ
  pub via : Via

pub record SponsorRules : Type 0 where
  pub paymaster : Address
  pub reward_account : Address
  pub allowed_instances : List Address
  pub sender : Text

abbrev is_relayed : TornadoWithdrawCall → Bool
is_relayed w = elim w.via [ paymaster ↦ true | direct ↦ false ]

-- `new ValidationError(message)`
abbrev pub invalid : Reason → Error
invalid reason = validation_error reason default_code

relayed_at : ℕ → Option PaymasterCall → Option TornadoWithdrawCall
relayed_at index (some (relay_withdraw args)) =
    some (record { index = index; args = args; refund = 0; via = paymaster })
relayed_at index _ = none

direct_at : ℕ → Address → Option InstanceCall → Option TornadoWithdrawCall
direct_at index target (some (withdraw proof root nullifier_hash recipient relayer fee refund)) =
    some (record {
      index = index;
      args = record {
        pool = target;
        proof = proof;
        root = root;
        nullifier_hash = nullifier_hash;
        recipient = recipient;
        relayer = relayer;
        fee = fee;
      };
      refund = refund;
      via = direct;
    })
direct_at index target _ = none

-- `matches.push(w)`
abbrev push : Option TornadoWithdrawCall → List TornadoWithdrawCall → List TornadoWithdrawCall
push none ws = ws
push (some w) ws = w ∷ ws

-- `paymaster && isAddressEqual(call.target, paymaster)`
abbrev is_for : Option Address → DecodedCall → Bool
is_for none call = false
is_for (some pm) call = call.target == pm

module _ (v : Viem) where
  unfoldable pub decode_account_calls : Text → Result Error (List DecodedCall)
  decode_account_calls call_data = elim (v.decode_account call_data) [
    | none ↦ err (invalid not_account_calls)
    | some (execute call) ↦ ok (call ∷ [])
    | some (execute_batch calls) ↦ ok calls
  ]

  -- what one call pushes
  withdraw_at : Option Address → ℕ → DecodedCall → Option TornadoWithdrawCall
  withdraw_at pm index call =
      if is_for pm call
      then relayed_at index (v.decode_paymaster call.calldata)
      else direct_at index call.target (v.decode_instance call.calldata)

  -- the loop, from the call at `index` on
  pub withdraws_from : Option Address → ℕ → List DecodedCall → List TornadoWithdrawCall
  withdraws_from pm index [] = []
  withdraws_from pm index (call ∷ calls) =
      push (withdraw_at pm index call) (withdraws_from pm (suc index) calls)

  unfoldable pub decode_tornado_withdraws :
      List DecodedCall → Option Address → List TornadoWithdrawCall
  unfolding withdraws_from withdraw_at relayed_at direct_at
  decode_tornado_withdraws calls pm = withdraws_from pm 0 calls

  unfoldable pub find_sponsoring_withdraw :
      List DecodedCall → SponsorRules → Result Error TornadoWithdrawCall
  find_sponsoring_withdraw calls rules = do
    let withdraws = decode_tornado_withdraws calls (some rules.paymaster)
    throw_if (length withdraws == 0) (invalid no_withdraw)
    let paymaster_calls = filter (λ c. c.target == rules.paymaster) calls
    let relayed = filter is_relayed withdraws
    throw_if (not (length paymaster_calls == length relayed)) (invalid only_relay_withdraw)
    throw_if (length relayed == 0) (invalid no_relay_withdraw)
    throw_if (ltb 1 (length withdraws)) (invalid one_withdrawal)
    w ← or_throw (get_elem? relayed 0) (failure thrown)
    throw_if (not (w.args.relayer == rules.reward_account)) (invalid wrong_relayer)
    sender ← or_throw (v.parse_address rules.sender) (failure thrown)
    throw_if (not (w.args.recipient == sender)) (invalid wrong_recipient)
    throw_if (not (any (λ a. a == w.args.pool) rules.allowed_instances))
        (invalid instance_not_served)
    call ← or_throw (get_elem? calls w.index) (failure thrown)
    throw_if (not (call.value == 0)) (invalid carries_value)
    ok w

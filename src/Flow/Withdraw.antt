-- ===== src/Flow/Withdraw.antt =====
-- The steps of `sponsoredWithdraw`, in their order.
use tornado_4337_relayer.Base.{
  ℕ, ◌+◌, ◌*◌, ◌/◌, Bool, true, false, not, Option, none, some, List, ◌∷◌, ltb, ◌==◌, any, Result,
  ok, err, or_throw, throw_if, if◌then◌else◌,
}
use tornado_4337_relayer.Base.Text.{Text}
use tornado_4337_relayer.Base.Integer.{difference}
use tornado_4337_relayer.Base.Step.{pure, lift, ◌>>=◌, ◌>>◌}
use tornado_4337_relayer.Fee.{UserOpGas, bps}
use tornado_4337_relayer.Viem.{Address, DecodedCall, WithdrawArgs}
use tornado_4337_relayer.UserOp.{or_else}
use tornado_4337_relayer.Service.Quote.{GasOverrides, QuoteParams}
use tornado_4337_relayer.Flow.{
  MerklePath, ProveInputs, ProveOutput, RelayerQuote, Estimate, OpRequest, WithdrawParams, Outside,
  Action, quoted, proved, estimated, sent, authorized, FlowError, no_leaf, unknown_root, thrown,
  Flow, WithdrawResult,
}

unfoldable pub bump : ℕ → ℕ → ℕ
bump x margin = x * (bps + margin) / bps

unfoldable pub max : ℕ → ℕ → ℕ
max a b = if ltb b a then a else b

unfoldable pub merkle_path : Outside → List ℕ → ℕ → Result FlowError MerklePath
merkle_path o leaves commitment =
    if any (λ l. l == commitment) leaves then ok (o.tree leaves commitment) else err no_leaf

-- an answer from outside, with the action that asked for it
unfoldable pub ask : {A : Type 0} → Action → Option A → Flow A
ask action answer actions = (or_throw answer thrown, action ∷ actions)

unfoldable pub request_of : List DecodedCall → RelayerQuote → Option Text → Bool → OpRequest
request_of calls quote authorization deployed = record {
  calls = calls;
  gas = quote.gas;
  max_fee_per_gas = quote.max_fee_per_gas;
  max_priority_fee_per_gas = quote.max_priority_fee_per_gas;
  authorization = authorization;
  overrides_code = not deployed;
}

-- the estimate with its margins, and at least the first quote's limits for the paymaster
unfoldable pub gas_of : Estimate → RelayerQuote → UserOpGas
gas_of est quote = record {
  call_gas_limit = bump est.call_gas_limit 1_500;
  verification_gas_limit = bump est.verification_gas_limit 1_500;
  pre_verification_gas = bump est.pre_verification_gas 1_000;
  paymaster_verification_gas_limit =
      max (bump (or_else est.paymaster_verification_gas_limit 0) 1_500)
        quote.gas.paymaster_verification_gas_limit;
  paymaster_post_op_gas_limit =
      max (bump (or_else est.paymaster_post_op_gas_limit 0) 2_000)
        quote.gas.paymaster_post_op_gas_limit;
}

abbrev pub overrides : UserOpGas → GasOverrides
overrides gas = record {
  call_gas_limit = some gas.call_gas_limit;
  verification_gas_limit = some gas.verification_gas_limit;
  pre_verification_gas = some gas.pre_verification_gas;
  paymaster_verification_gas_limit = some gas.paymaster_verification_gas_limit;
  paymaster_post_op_gas_limit = some gas.paymaster_post_op_gas_limit;
}

module _ (p : WithdrawParams) (o : Outside) where
  unfoldable pub prove : MerklePath → Address → ℕ → Flow ProveOutput
  unfolding ask
  prove path relayer fee =
      let inputs : ProveInputs = record {
        nullifier = p.note.nullifier;
        secret = p.note.secret;
        path = path;
        nullifier_hash = p.note.nullifier_hash;
        recipient = p.sender;
        relayer = relayer;
        fee = fee;
        refund = 0;
      } in
      ask (proved inputs) (o.prove inputs)

  -- the arguments of `relayWithdraw`, from the words of the proof
  unfoldable pub withdraw_args : ProveOutput → WithdrawArgs
  withdraw_args proof = record {
    pool = p.pool;
    proof = proof.proof;
    root = proof.root;
    nullifier_hash = proof.nullifier_hash;
    recipient = proof.recipient;
    relayer = proof.relayer;
    fee = proof.fee;
  }

  -- the sponsored call, and the tail calls with what is left for the sender
  unfoldable pub build_calls :
      ℕ → ProveOutput → ℕ → Address → Address → Result FlowError (List DecodedCall)
  build_calls denomination proof fee asset paymaster = elim (o.encode (withdraw_args proof)) [
    | none ↦ err thrown
    | some calldata ↦ ok (
        record { target = paymaster; value = 0; calldata = calldata }
        ∷ p.tail_calls p.sender (difference denomination fee) asset)
  ]

  -- steps 3 and 4: the estimate, the second quote, and another proof if the fee is another one
  unfoldable pub re_prove :
      MerklePath → RelayerQuote → ProveOutput → RelayerQuote → Flow ProveOutput
  re_prove path quote proof requote =
      if not (requote.fee == quote.fee) then prove path requote.relayer requote.fee else pure proof

  abbrev pub second_request : RelayerQuote → Estimate → QuoteParams
  second_request quote est = record {
    pool = p.pool;
    tail_calls_gas = none;
    gas = overrides (gas_of est quote);
    max_fee_per_gas = some quote.max_fee_per_gas;
  }

  unfoldable pub re_quote :
      ℕ → MerklePath → RelayerQuote → ProveOutput → Bool → Flow (RelayerQuote × ProveOutput)
  unfolding ask
  re_quote denomination path quote proof deployed = do
    calls ← lift (build_calls denomination proof quote.fee quote.fee_token quote.paymaster)
    let request = request_of calls quote none deployed
    est ← ask (estimated request) (o.estimate request)
    requote ← ask (quoted (second_request quote est)) (o.requote (second_request quote est))
    proof' ← re_prove path quote proof requote
    pure (requote, proof')

  unfoldable pub estimated_quote :
      ℕ → MerklePath → RelayerQuote → ProveOutput → Bool → Flow (RelayerQuote × ProveOutput)
  estimated_quote denomination path quote proof deployed =
      if p.skip_estimation
      then pure (quote, proof)
      else re_quote denomination path quote proof deployed

  -- step 5: an account with a delegation signs no other
  unfoldable pub authorize : Bool → Flow (Option Text)
  unfolding ask
  authorize true = pure none
  authorize false = do
    nonce ← lift (or_throw o.transaction_count thrown)
    signature ← ask (authorized p.implementation) (o.sign_authorization p.implementation nonce)
    pure (some signature)

  -- step 6, and the receipt
  unfoldable pub send_op :
      ℕ → Address → RelayerQuote → ProveOutput → Option Text → Bool → Flow WithdrawResult
  unfolding ask
  send_op denomination asset quote proof authorization deployed = do
    calls ← lift (build_calls denomination proof quote.fee asset quote.paymaster)
    let request = request_of calls quote authorization deployed
    hash ← ask (sent request) (o.send request)
    success ← lift (or_throw (o.receipt hash) thrown)
    pure (record {
      user_op_hash = hash;
      success = success;
      sender = p.sender;
      quote = quote;
      proof = proof;
      fee = quote.fee;
      amount_to_sender = difference denomination quote.fee;
    })

  abbrev pub first_request : QuoteParams
  first_request = record {
    pool = p.pool;
    tail_calls_gas = p.tail_calls_gas;
    gas = record {
      call_gas_limit = none;
      verification_gas_limit = none;
      pre_verification_gas = none;
      paymaster_verification_gas_limit = none;
      paymaster_post_op_gas_limit = none;
    };
    max_fee_per_gas = none;
  }

  unfoldable pub sponsored_withdraw : Flow WithdrawResult
  unfolding ask
  sponsored_withdraw = do
    denomination ← lift (or_throw o.denomination thrown)
    path ← lift (merkle_path o p.leaves p.note.commitment)
    root ← lift (or_throw (o.word path.root) thrown)
    known ← lift (or_throw (o.is_known_root root) thrown)
    lift (throw_if (not known) unknown_root)
    quote ← ask (quoted first_request) (o.quote first_request)
    proof ← prove path quote.relayer quote.fee
    deployed ← lift (or_throw o.is_deployed thrown)
    (quote', proof') ← estimated_quote denomination path quote proof deployed
    authorization ← authorize deployed
    send_op denomination quote.fee_token quote' proof' authorization deployed

-- ===== src/Flow/Bound.antt =====
-- What the operation that a withdrawal sends is bound to.
use mathlib.Core.Path.{subst}
use tornado_4337_relayer.Base.{
  ℕ, ◌≡◌, inl, inr, refl, sym, ap, ◌∙◌, arith, Bool, true, not, Option, some, List, [], ◌∷◌, ok,
  or_throw, or_throw-eq-ok, throw_if, Option-cases, ok_injective,
}
use tornado_4337_relayer.Base.Text.{Text}
use tornado_4337_relayer.Base.Integer.{difference}
use tornado_4337_relayer.Base.Step.{act->>=-eq-ok, lift->>=-eq-ok, pure-eq-ok}
use tornado_4337_relayer.Viem.{DecodedCall}
use tornado_4337_relayer.Flow.{
  MerklePath, ProveOutput, RelayerQuote, OpRequest, WithdrawParams, Outside, Action, quoted, sent,
  unknown_root, thrown, WithdrawResult,
}
use tornado_4337_relayer.Flow.Withdraw.{
  merkle_path, ask, request_of, prove, withdraw_args, build_calls, estimated_quote, authorize,
  send_op, first_request, sponsored_withdraw,
}
use tornado_4337_relayer.Flow.Steps.{
  NotSent, ask-eq-ok, IsFaithful, Names, Answered, prove-Names, estimated_quote-Done,
  authorize-NotSent,
}

module _ (p : WithdrawParams) (o : Outside) where
  -- the calls of the operation, for a proof whose arguments are encoded as `calldata`
  abbrev pub sponsored_calls : ℕ → RelayerQuote → RelayerQuote → Text → List DecodedCall
  sponsored_calls denomination first quote calldata =
      record { target = quote.paymaster; value = 0; calldata = calldata }
      ∷ p.tail_calls p.sender (difference denomination quote.fee) first.fee_token

  build_calls-eq-ok :
      (denomination : ℕ) (proof : ProveOutput) (first quote : RelayerQuote)
      (calls : List DecodedCall)
      → build_calls p o denomination proof quote.fee first.fee_token quote.paymaster ≡ ok calls
      → (calldata : Text) × (o.encode (withdraw_args p o proof) ≡ some calldata)
        × (sponsored_calls denomination first quote calldata ≡ calls)
  unfolding build_calls
  build_calls-eq-ok denomination proof first quote calls e =
      elim (Option-cases (o.encode (withdraw_args p o proof))) [
        | inl fails ↦ cc (rw (fails, build_calls) at e)
        | inr (calldata, is) ↦ (calldata, is, ok_injective _ calls (rw (is, build_calls) at e))
      ]

  pub record Bound (r : WithdrawResult) (actions : List Action) : Type 0 where
    pub first : RelayerQuote
    pub asked : o.quote (first_request p o) ≡ some first
    pub denomination : ℕ
    pub denomination_read : o.denomination ≡ some denomination
    pub path : MerklePath
    pub path_is : merkle_path o p.leaves p.note.commitment ≡ ok path
    pub known : o.is_known_root r.proof.root ≡ some true
    pub names : Names p o path first r.quote r.proof
    pub answered : Answered p o first r.quote
    pub calldata : Text
    pub encoded :
        o.encode (record {
          pool = p.pool;
          proof = r.proof.proof;
          root = r.proof.root;
          nullifier_hash = r.proof.nullifier_hash;
          recipient = r.proof.recipient;
          relayer = r.proof.relayer;
          fee = r.proof.fee;
        })
        ≡ some calldata
    pub authorization : Option Text
    pub delegated : Bool
    pub request : OpRequest
    pub request_is : request ≡ record {
      calls = sponsored_calls denomination first r.quote calldata;
      gas = r.quote.gas;
      max_fee_per_gas = r.quote.max_fee_per_gas;
      max_priority_fee_per_gas = r.quote.max_priority_fee_per_gas;
      authorization = authorization;
      overrides_code = not delegated;
    }
    pub accepted : o.send request ≡ some r.user_op_hash
    pub before : List Action
    pub sent_last : actions ≡ sent request ∷ before
    pub sent_once : NotSent before
    pub pays : r.fee ≡ r.quote.fee

  some_is : {a b : Text} → some a ≡ some b → a ≡ b
  some_is e = cc

  send_op-Bound :
      (denomination : ℕ) (path : MerklePath) (root : Text) (first quote : RelayerQuote)
      (proof : ProveOutput) (authorization : Option Text) (deployed : Bool) (r : WithdrawResult)
      (s t : List Action)
      → o.quote (first_request p o) ≡ some first
      → o.denomination ≡ some denomination
      → merkle_path o p.leaves p.note.commitment ≡ ok path
      → o.word path.root ≡ some root
      → o.is_known_root root ≡ some true
      → Names p o path first quote proof
      → Answered p o first quote
      → NotSent s
      → send_op p o denomination first.fee_token quote proof authorization deployed s ≡ (ok r, t)
      → Bound r t
  unfolding send_op request_of withdraw_args
  send_op-Bound denomination path root first quote proof authorization deployed r s t asked read
        found word_is known names answered h e =
      let (calls, built, e1) =
        lift->>=-eq-ok
          (build_calls p o denomination proof quote.fee first.fee_token quote.paymaster) _ e in
      let (calldata, encoded, calls_are) =
        build_calls-eq-ok denomination proof first quote calls built in
      let request = request_of calls quote authorization deployed in
      let (hash, m, sends, e2) = act->>=-eq-ok (ask (sent request) (o.send request)) _ e1 in
      let (answer, actions) = ask-eq-ok (sent request) (o.send request) sends in
      let (success, r1, e3) = lift->>=-eq-ok (or_throw (o.receipt hash) thrown) _ e2 in
      let (result, last) = pure-eq-ok _ r e3 in
      subst (λ x. Bound x t) result
        (record {
          first = first;
          asked = asked;
          denomination = denomination;
          denomination_read = read;
          path = path;
          path_is = found;
          known = ap o.is_known_root (some_is (sym names.root ∙ word_is)) ∙ known;
          names = names;
          answered = answered;
          calldata = calldata;
          encoded = encoded;
          authorization = authorization;
          delegated = deployed;
          request = request;
          request_is = ap (λ c. request_of c quote authorization deployed) (sym calls_are);
          accepted = answer;
          before = s;
          sent_last = sym (actions ∙ last);
          sent_once = h;
          pays = refl;
        })

  pub sponsored_withdraw-Bound :
      (r : WithdrawResult) (t : List Action)
      → IsFaithful o
      → sponsored_withdraw p o [] ≡ (ok r, t)
      → Bound r t
  unfolding sponsored_withdraw
  sponsored_withdraw-Bound r t f e =
      let (denomination, read, e1) = lift->>=-eq-ok (or_throw o.denomination thrown) _ e in
      let (path, r1, e2) = lift->>=-eq-ok (merkle_path o p.leaves p.note.commitment) _ e1 in
      let (root, r2, e3) = lift->>=-eq-ok (or_throw (o.word path.root) thrown) _ e2 in
      let (known, r3, e4) = lift->>=-eq-ok (or_throw (o.is_known_root root) thrown) _ e3 in
      let (u, r4, e5) = lift->>=-eq-ok (throw_if (not known) unknown_root) _ e4 in
      let (first, m1, asks, e6) =
        act->>=-eq-ok (ask (quoted (first_request p o)) (o.quote (first_request p o))) _ e5 in
      let (asked, s1) = ask-eq-ok (quoted (first_request p o)) (o.quote (first_request p o)) asks in
      let (old, m2, proves, e7) = act->>=-eq-ok (prove p o path first.relayer first.fee) _ e6 in
      let (names, h2) =
        prove-Names p o first first path old m1 m2 f (subst NotSent s1 (λ x. x, tt)) proves in
      let (deployed, r5, e8) = lift->>=-eq-ok (or_throw o.is_deployed thrown) _ e7 in
      let ((quote, proof), m3, estimates, e9) =
        act->>=-eq-ok (estimated_quote p o denomination path first old deployed) _ e8 in
      let done =
        estimated_quote-Done p o denomination first quote path old proof deployed m2 m3 f h2 names
          estimates in
      let (authorization, m4, authorizes, e10) = act->>=-eq-ok (authorize p o deployed) _ e9 in
      let h4 = authorize-NotSent p o deployed authorization m3 m4 done.not_sent authorizes in
      let on : known ≡ true = ground arith in
      send_op-Bound denomination path root first quote proof authorization deployed r m4 t asked
        (or_throw-eq-ok _ thrown read) r1 (or_throw-eq-ok _ thrown r2)
        (or_throw-eq-ok _ thrown r3 ∙ ap some on) done.names done.answered h4 e10

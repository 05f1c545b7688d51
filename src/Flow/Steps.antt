-- ===== src/Flow/Steps.antt =====
-- The steps of a withdrawal before it is sent: what the proof names, and that nothing is sent.
use mathlib.Core.Path.{subst}
use tornado_4337_relayer.Base.{
  ℕ, ◌≡◌, ◌⊎◌, inl, inr, sym, ap, ◌∙◌, arith, Bool, true, false, Option, none, some, List, ◌∷◌,
  ◌==◌, ok, or_throw, Bool-cases, All, if◌then◌else◌,
}
use tornado_4337_relayer.Base.Text.{Text}
use tornado_4337_relayer.Base.Step.{pure, act->>=-eq-ok, lift->>=-eq-ok, pure-eq-ok}
use tornado_4337_relayer.Flow.{
  MerklePath, ProveInputs, ProveOutput, RelayerQuote, Estimate, WithdrawParams, Outside, Action,
  quoted, estimated, sent, authorized, thrown,
}
use tornado_4337_relayer.Flow.Withdraw.{
  ask, request_of, prove, build_calls, second_request, re_prove, re_quote, estimated_quote,
  authorize,
}

abbrev pub IsSend : Action → Type 0
IsSend (sent request) = Unit
IsSend _ = ⊥

abbrev pub NotSent : List Action → Type 0
NotSent = All (λ a. IsSend a → ⊥)

pub ask-eq-ok :
    {A : Type 0} (action : Action) (answer : Option A) {s t : List Action} {a : A}
    → ask action answer s ≡ (ok a, t)
    → (answer ≡ some a) × (action ∷ s ≡ t)
unfolding ask
ask-eq-ok action none e = cc
ask-eq-ok action (some b) e = (cc, cc)

-- What is relied on of a prover: the words of its answer are those of the statement it was given.
pub record IsFaithful (o : Outside) : Type 0 where
  pub same_relayer :
      (i : ProveInputs) (out : ProveOutput) → o.prove i ≡ some out → out.relayer ≡ i.relayer
  pub same_fee : (i : ProveInputs) (out : ProveOutput) → o.prove i ≡ some out → out.fee ≡ i.fee
  pub same_recipient :
      (i : ProveInputs) (out : ProveOutput) → o.prove i ≡ some out → out.recipient ≡ i.recipient
  pub same_root :
      (i : ProveInputs) (out : ProveOutput)
      → o.prove i ≡ some out
      → o.word i.path.root ≡ some out.root
  pub same_nullifier_hash :
      (i : ProveInputs) (out : ProveOutput)
      → o.prove i ≡ some out
      → o.word i.nullifier_hash ≡ some out.nullifier_hash

module _ (p : WithdrawParams) (o : Outside) where
  -- The proof is for the root of `path` and the note, pays `quote` and names its relayer; or it names the relayer of the first quote, which
  -- asked the same fee.
  pub record Names (path : MerklePath) (first quote : RelayerQuote) (proof : ProveOutput)
      : Type 0 where
    pub fee : proof.fee ≡ quote.fee
    pub recipient : proof.recipient ≡ p.sender
    pub root : o.word path.root ≡ some proof.root
    pub nullifier_hash : o.word p.note.nullifier_hash ≡ some proof.nullifier_hash
    pub relayer :
        (proof.relayer ≡ quote.relayer)
        ⊎ ((proof.relayer ≡ first.relayer) × (first.fee ≡ quote.fee))

  -- the quote is the first one or the answer to the second request
  abbrev pub Answered : RelayerQuote → RelayerQuote → Type 0
  Answered first quote =
      ((p.skip_estimation ≡ true) × (quote ≡ first))
      ⊎ ((p.skip_estimation ≡ false)
          × ((est : Estimate) × (o.requote (second_request p o first est) ≡ some quote)))

  -- a step that returns, and sends nothing
  pub record Done (path : MerklePath) (first quote : RelayerQuote) (proof : ProveOutput)
      (t : List Action) : Type 0 where
    pub names : Names path first quote proof
    pub answered : Answered first quote
    pub not_sent : NotSent t

  pub prove-Names :
      (first quote : RelayerQuote) (path : MerklePath) (proof : ProveOutput) (s t : List Action)
      → IsFaithful o
      → NotSent s
      → prove p o path quote.relayer quote.fee s ≡ (ok proof, t)
      → Names path first quote proof × NotSent t
  unfolding prove
  prove-Names first quote path proof s t f h e =
      let (answer, same) = ask-eq-ok _ (o.prove _) e in
      (
        record {
          fee = f.same_fee _ proof answer;
          recipient = f.same_recipient _ proof answer;
          root = f.same_root _ proof answer;
          nullifier_hash = f.same_nullifier_hash _ proof answer;
          relayer = inl (f.same_relayer _ proof answer);
        },
        subst NotSent same (λ x. x, h),
      )

  re_prove-Names :
      (first quote : RelayerQuote) (path : MerklePath) (old proof : ProveOutput) (s t : List Action)
      → IsFaithful o
      → NotSent s
      → Names path first first old
      → re_prove p o path first old quote s ≡ (ok proof, t)
      → Names path first quote proof × NotSent t
  unfolding re_prove
  re_prove-Names first quote path old proof s t f h n e =
      elim (Bool-cases (quote.fee == first.fee)) [
        | inr other ↦ prove-Names first quote path proof s t f h (rw (other, re_prove) at e)
        | inl same ↦
            let (proofs, actions) = pure-eq-ok old proof (rw (same, re_prove) at e) in
            let fees : first.fee ≡ quote.fee = ground arith in
            let named : old.relayer ≡ first.relayer = elim n.relayer [
              | inl x ↦ x
              | inr (x, y) ↦ x
            ] in
            (
              subst (Names path first quote) proofs (record {
                fee = n.fee ∙ fees;
                recipient = n.recipient;
                root = n.root;
                nullifier_hash = n.nullifier_hash;
                relayer = inr (named, fees);
              }),
              subst NotSent actions h,
            )
      ]

  re_quote-Done :
      (denomination : ℕ) (first quote : RelayerQuote) (path : MerklePath) (old proof : ProveOutput)
      (deployed : Bool) (s t : List Action)
      → IsFaithful o
      → NotSent s
      → Names path first first old
      → p.skip_estimation ≡ false
      → re_quote p o denomination path first old deployed s ≡ (ok (quote, proof), t)
      → Done path first quote proof t
  unfolding re_quote
  re_quote-Done denomination first quote path old proof deployed s t f h n asks e =
      let (calls, built, e1) =
        lift->>=-eq-ok (build_calls p o denomination old first.fee first.fee_token first.paymaster)
          _ e in
      let request = request_of calls first none deployed in
      let (est, m1, estimate, e2) =
        act->>=-eq-ok (ask (estimated request) (o.estimate request)) _ e1 in
      let (a1, s1) = ask-eq-ok (estimated request) (o.estimate request) estimate in
      let params = second_request p o first est in
      let (q, m2, requote, e3) = act->>=-eq-ok (ask (quoted params) (o.requote params)) _ e2 in
      let (a2, s2) = ask-eq-ok (quoted params) (o.requote params) requote in
      let (proof', m3, proves, e4) = act->>=-eq-ok (re_prove p o path first old q) _ e3 in
      let h2 : NotSent m2 = subst NotSent s2 (λ x. x, subst NotSent s1 (λ x. x, h)) in
      let (names, h3) = re_prove-Names first q path old proof' m2 m3 f h2 n proves in
      let (same, last) = pure-eq-ok (q, proof') (quote, proof) e4 in
      let quotes : q ≡ quote = ap (λ x. x.0) same in
      record {
        names = subst (λ x. Names path first (x.0) (x.1)) same names;
        answered = inr (asks, (est, a2 ∙ ap some quotes));
        not_sent = subst NotSent last h3;
      }

  pub estimated_quote-Done :
      (denomination : ℕ) (first quote : RelayerQuote) (path : MerklePath) (old proof : ProveOutput)
      (deployed : Bool) (s t : List Action)
      → IsFaithful o
      → NotSent s
      → Names path first first old
      → estimated_quote p o denomination path first old deployed s ≡ (ok (quote, proof), t)
      → Done path first quote proof t
  unfolding estimated_quote
  estimated_quote-Done denomination first quote path old proof deployed s t f h n e =
      elim (Bool-cases p.skip_estimation) [
        | inr asks ↦
            re_quote-Done denomination first quote path old proof deployed s t f h n asks
              (branch false asks e)
        | inl skips ↦
            let (same, last) = pure-eq-ok (first, old) (quote, proof) (branch true skips e) in
            record {
              names = subst (λ x. Names path first (x.0) (x.1)) same n;
              answered = inl (skips, sym (ap (λ x. x.0) same));
              not_sent = subst NotSent last h;
            }
      ]
    where
      branch :
          (b : Bool)
          → p.skip_estimation ≡ b
          → estimated_quote p o denomination path first old deployed s ≡ (ok (quote, proof), t)
          → (if b then pure (first, old) else re_quote p o denomination path first old deployed) s
            ≡ (ok (quote, proof), t)
      branch b is e =
          ap
            (λ c.
              (if c then pure (first, old) else re_quote p o denomination path first old deployed)
                s)
            (sym is)
          ∙ e

  pub authorize-NotSent :
      (deployed : Bool) (authorization : Option Text) (s t : List Action)
      → NotSent s
      → authorize p o deployed s ≡ (ok authorization, t)
      → NotSent t
  unfolding authorize
  authorize-NotSent true a s t h e = subst NotSent (pure-eq-ok none a e).1 h
  authorize-NotSent false a s t h e =
      let (nonce, r, e1) = lift->>=-eq-ok (or_throw o.transaction_count thrown) _ e in
      let (signature, m, signs, e2) =
        act->>=-eq-ok
          (ask (authorized p.implementation) (o.sign_authorization p.implementation nonce)) _ e1 in
      let (x, actions) =
        ask-eq-ok (authorized p.implementation) (o.sign_authorization p.implementation nonce)
          signs in
      let (y, last) = pure-eq-ok (some signature) a e2 in
      subst NotSent last (subst NotSent actions (λ z. z, h))

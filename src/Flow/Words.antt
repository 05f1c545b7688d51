-- ===== src/Flow/Words.antt =====
-- The words of the repository's own prover are those of the statement it proves.
use tornado_4337_relayer.Base.{
  ℕ, ◌≡◌, sym, ap, ◌∙◌, Option, some, ltb, ok, or_throw, or_throw-eq-ok, >>=-eq-ok, ok_injective,
  Bool-cases, inl, inr, ◌*◌, ◌^◌,
}
use tornado_4337_relayer.Base.Text.{Text}
use tornado_4337_relayer.Flow.{ProveInputs, ProveOutput, Outside, thrown}
use tornado_4337_relayer.Flow.Prover.{sized, prove_words}
use tornado_4337_relayer.Flow.Steps.{IsFaithful}

sized-eq-some : (size n m : ℕ) → sized size n ≡ some m → m ≡ n
unfolding sized
sized-eq-some size n m e = elim (Bool-cases (ltb n (2 ^ (8 * size)))) [
  | inl small ↦ cc (rw (small, sized) at e)
  | inr large ↦ cc (rw (large, sized) at e)
]

record SameWords (word : ℕ → Option Text) (i : ProveInputs) (out : ProveOutput) : Type 0 where
  relayer : out.relayer ≡ i.relayer
  fee : out.fee ≡ i.fee
  recipient : out.recipient ≡ i.recipient
  root : word i.path.root ≡ some out.root
  nullifier_hash : word i.nullifier_hash ≡ some out.nullifier_hash

prove_words-SameWords :
    (groth : ProveInputs → Option Text) (word : ℕ → Option Text) (i : ProveInputs)
    (out : ProveOutput)
    → prove_words groth word i ≡ ok out
    → SameWords word i out
unfolding prove_words
prove_words-SameWords groth word i out e =
    let (proof, r0, e1) = >>=-eq-ok (or_throw (groth i) thrown) _ e in
    let (root, r1, e2) = >>=-eq-ok (or_throw (word i.path.root) thrown) _ e1 in
    let (hash, r2, e3) = >>=-eq-ok (or_throw (word i.nullifier_hash) thrown) _ e2 in
    let (recipient, r3, e4) = >>=-eq-ok (or_throw (sized 20 i.recipient) thrown) _ e3 in
    let (relayer, r4, e5) = >>=-eq-ok (or_throw (sized 20 i.relayer) thrown) _ e4 in
    let (fee, r5, e6) = >>=-eq-ok (or_throw (sized 32 i.fee) thrown) _ e5 in
    let (refund, r6, e7) = >>=-eq-ok (or_throw (sized 32 i.refund) thrown) _ e6 in
    let same = ok_injective _ out e7 in
    record {
      relayer =
          ap (λ (x : ProveOutput). x.relayer) (sym same)
          ∙ sized-eq-some 20 i.relayer relayer (or_throw-eq-ok _ thrown r4);
      fee =
          ap (λ (x : ProveOutput). x.fee) (sym same)
          ∙ sized-eq-some 32 i.fee fee (or_throw-eq-ok _ thrown r5);
      recipient =
          ap (λ (x : ProveOutput). x.recipient) (sym same)
          ∙ sized-eq-some 20 i.recipient recipient (or_throw-eq-ok _ thrown r3);
      root = or_throw-eq-ok _ thrown r1 ∙ ap (λ (x : ProveOutput). some x.root) same;
      nullifier_hash =
          or_throw-eq-ok _ thrown r2 ∙ ap (λ (x : ProveOutput). some x.nullifier_hash) same;
    }

-- A client with the repository's prover has a faithful one, whatever makes the proofs.
pub prove_words-IsFaithful :
    (groth : ProveInputs → Option Text) (word : ℕ → Option Text) (o : Outside)
    → o.word ≡ word
    → ((i : ProveInputs) (out : ProveOutput)
        → o.prove i ≡ some out
        → prove_words groth word i ≡ ok out)
    → IsFaithful o
prove_words-IsFaithful groth word o same_word h = record {
  same_relayer = λ i out e. (prove_words-SameWords groth word i out (h i out e)).relayer;
  same_fee = λ i out e. (prove_words-SameWords groth word i out (h i out e)).fee;
  same_recipient = λ i out e. (prove_words-SameWords groth word i out (h i out e)).recipient;
  same_root = λ i out e.
      ap (λ f. f i.path.root) same_word ∙ (prove_words-SameWords groth word i out (h i out e)).root;
  same_nullifier_hash = λ i out e.
      ap (λ f. f i.nullifier_hash) same_word
      ∙ (prove_words-SameWords groth word i out (h i out e)).nullifier_hash;
}

-- ===== src/Flow/Prover.antt =====
-- `prove` of the prover that `createTornadoProver` of client/src/prover.ts returns: the words that
-- the contract takes, around the proof.
use tornado_4337_relayer.Base.{
  ℕ, ◌*◌, ◌^◌, Option, none, some, ltb, Result, ok, ◌>>=◌, or_throw, if◌then◌else◌,
}
use tornado_4337_relayer.Base.Text.{Text}
use tornado_4337_relayer.Flow.{ProveInputs, ProveOutput, FlowError, thrown}

-- `toHex(n, { size })`, as the number that the word spells: a larger number throws
unfoldable pub sized : ℕ → ℕ → Option ℕ
sized size n = if ltb n (2 ^ (8 * size)) then some n else none

-- `groth` makes the proof and `word` is `toHex(n, { size: 32 })`.
unfoldable pub prove_words :
    (ProveInputs → Option Text) → (ℕ → Option Text) → ProveInputs → Result FlowError ProveOutput
unfolding sized
prove_words groth word inputs = do
  proof ← or_throw (groth inputs) thrown
  root ← or_throw (word inputs.path.root) thrown
  nullifier_hash ← or_throw (word inputs.nullifier_hash) thrown
  recipient ← or_throw (sized 20 inputs.recipient) thrown
  relayer ← or_throw (sized 20 inputs.relayer) thrown
  fee ← or_throw (sized 32 inputs.fee) thrown
  refund ← or_throw (sized 32 inputs.refund) thrown
  ok (record {
    proof = proof;
    root = root;
    nullifier_hash = nullifier_hash;
    recipient = recipient;
    relayer = relayer;
    fee = fee;
    refund = refund;
  })

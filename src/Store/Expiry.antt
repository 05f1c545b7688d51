-- ===== src/Store/Expiry.antt =====
-- A note is never held for ever: whoever has reserved or signed it, once the time that was granted is
-- over the next request has it.
use tornado_4337_relayer.Base.{
  ℕ, ◌≡◌, ◌<◌, ap, ◌∙◌, Bool, true, not, ◌||◌, none, some, List, [], ◌∷◌, arith, ltb, Option-cases,
  inl, inr,
}
use tornado_4337_relayer.Base.Text.{Text, text_eq, text_eq_iff, text_key}
use tornado_4337_relayer.Base.Dict.{Distinct, unless, get-delete_where}
use tornado_4337_relayer.Store.{Store, SponsoredNote, NewNote, get, reserved, reserve, prune}
use tornado_4337_relayer.Store.Laws.{reserve_lem, get-release, release_missing, commit_lem}
use tornado_4337_relayer.Store.File.Durable.{
  Call, reserves, commits, releases, prunes, step, run, IsDurable, step-IsDurable,
}
use tornado_4337_relayer.Store.Exclusive.{every, get-committed_note}

-- a reservation of `k` that the call makes is over at `now`
abbrev pub ends_before : Text → ℕ → Call → Bool
ends_before k now (reserves ms j n) = not (text_eq j k) || ltb n.valid_until now
ends_before k now _ = true

-- what holds `k`, if anything does, is over at `now`
abbrev pub Ends : Store → Text → ℕ → Type 0
Ends s k now = (n : SponsoredNote) → get s k ≡ some n → n.valid_until < now

pruned_notes :
    (s : Store) (k : Text) (time : ℕ)
    → Distinct s.notes
    → get (prune s time) k ≡ unless (λ (v : SponsoredNote). ltb v.valid_until time) (get s k)
unfolding prune
pruned_notes s k time d =
    get-delete_where (λ (v : SponsoredNote). ltb v.valid_until time) s.notes k d

step-Ends :
    (s : Store) (c : Call) (k : Text) (now : ℕ)
    → Distinct s.notes
    → Ends s k now
    → ends_before k now c ≡ true
    → Ends (step s c) k now
unfolding step
step-Ends s (reserves ms j new) k now d h over n at = elim (reserve_lem ms s j new) [
  | inl (held_note, e, same) ↦ h n (rw (same, step) at at)
  | inr (token, free, made, after) ↦ ground (arith, after k, h n)
]
step-Ends s (commits writable j t) k now d h over n at = elim (commit_lem writable s j t) [
  | inr (e, done, why) ↦ h n (rw (done, step) at at)
  | inl (m, is, yours, can, done) ↦
      let there = rw (done, step) at at in
      ground (arith, get-committed_note s j k m, text_eq_iff j k, h n, h m, there)
]
step-Ends s (releases j t) k now d h over n at = elim (Option-cases (get s j)) [
  | inl missing ↦ h n (rw (release_missing s j t missing) at at)
  | inr (m, is) ↦ ground (arith, get-release s j k t m is, h n)
]
step-Ends s (prunes time) k now d h over n at = ground (arith, pruned_notes s k time d, h n)

run-Ends :
    (s : Store) (calls : List Call) (k : Text) (now : ℕ)
    → IsDurable s
    → Ends s k now
    → every (ends_before k now) calls ≡ true
    → IsDurable (run s calls) × Ends (run s calls) k now
unfolding run
run-Ends s [] k now d h over = (d, h)
run-Ends s (c ∷ calls) k now d h over =
    run-Ends (step s c) calls k now (step-IsDurable s c d)
      (step-Ends s c k now d.distinct h (ground arith)) (ground arith)

free_after :
    (s : Store) (k : Text) (now : ℕ) → Distinct s.notes → Ends s k now → get (prune s now) k ≡ none
free_after s k now d h = elim (Option-cases (get s k)) [
  | inl free ↦ pruned_notes s k now d ∙ ap (unless _) free
  | inr (n, at) ↦ pruned_notes s k now d ∙ ap (unless _) at ∙ ground (arith, h n at)
]

-- Whatever calls are made, also by requests that end without a `commit` or a `release`, a note can be
-- reserved again once what held it at first and each reservation of it meanwhile is over: the
-- `reserve` that follows the `prune` of `sign` gets it.
pub reservation_expires :
    (s : Store) (calls : List Call) (k : Text) (now ms : ℕ) (other : NewNote)
    → IsDurable s
    → Ends s k now
    → every (ends_before k now) calls ≡ true
    → (token : Text) × ((reserve ms (prune (run s calls) now) k other).0 ≡ reserved token)
reservation_expires s calls k now ms other d h over =
    let (d', h') = run-Ends s calls k now d h over in
    let free = free_after (run s calls) k now d'.distinct h' in
    elim (reserve_lem ms (prune (run s calls) now) k other) [
      | inl (n, at, same) ↦ cc
      | inr (token, none_there, made, after) ↦ (token, made)
    ]

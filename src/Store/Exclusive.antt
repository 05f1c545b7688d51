-- ===== src/Store/Exclusive.antt =====
-- A note that is reserved or signed stays with the request that holds its token, whatever the other
-- requests do to the store of relayer/src/service.ts meanwhile.
use tornado_4337_relayer.Base.{
  ℕ, ◌≡◌, refl, ap, ◌∙◌, Bool, true, not, ◌&&◌, some, List, [], ◌∷◌, arith, ltb, leb, if◌then◌else◌,
  Option-cases, inl, inr, ok, err,
}
use tornado_4337_relayer.Base.Text.{Text, text_eq, text_eq_iff, text_key}
use tornado_4337_relayer.Base.Dict.{Distinct, get-set, get-delete_where}
use tornado_4337_relayer.Errors.{signed, failure, write_failed}
use tornado_4337_relayer.Store.{
  Store, SponsoredNote, NewNote, get, pending_note, reserved, held, reserve, commit, release, prune,
  is_pending,
}
use tornado_4337_relayer.Store.Laws.{
  reserve_lem, reserve_held, get-release, release_missing, commit_lem, commit_held, committed,
  can_write,
}
use tornado_4337_relayer.Store.File.Durable.{
  Call, reserves, commits, releases, prunes, step, run, IsDurable, step-IsDurable,
}

-- the call is not made by the holder of `token`, and does not expire a note that lives to `until`
abbrev pub is_foreign : Text → Text → ℕ → Call → Bool
is_foreign k token until (reserves ms j n) = true
is_foreign k token until (commits writable j t) = not (text_eq j k && text_eq t token)
is_foreign k token until (releases j t) = not (text_eq j k && text_eq t token)
is_foreign k token until (prunes now) = leb now until

pub get-committed_note :
    (s : Store) (k j : Text) (n : SponsoredNote)
    → get (committed s k n) j
      ≡ (if text_eq k j then some (record n { status = signed }) else get s j)
get-committed_note s k j n = ground (arith, get-set s.notes k j (record n { status = signed }))

release_keeps :
    (s : Store) (j k token : Text) (n : SponsoredNote)
    → get s k ≡ some n
    → not (text_eq j k && (text_eq n.token token && is_pending n)) ≡ true
    → get (release s j token) k ≡ some n
release_keeps s j k token n at other = elim (Option-cases (get s j)) [
  | inl missing ↦ rw (release_missing s j token missing) at
  | inr (m, is) ↦ ground (arith, get-release s j k token m is, text_eq_iff j k)
]

prune_keeps :
    (s : Store) (k : Text) (now : ℕ) (n : SponsoredNote)
    → Distinct s.notes
    → get s k ≡ some n
    → leb now n.valid_until ≡ true
    → get (prune s now) k ≡ some n
unfolding prune
prune_keeps s k now n d at live =
    ground (arith, get-delete_where (λ v. ltb v.valid_until now) s.notes k d)

step_keeps :
    (s : Store) (c : Call) (k : Text) (n : SponsoredNote)
    → Distinct s.notes
    → get s k ≡ some n
    → is_foreign k n.token n.valid_until c ≡ true
    → get (step s c) k ≡ some n
unfolding step
step_keeps s (reserves ms j new) k n d at foreign = elim (reserve_lem ms s j new) [
  | inl (h, e, same) ↦ rw (same, step) at
  | inr (token, free, made, after) ↦ ground (arith, after k, text_eq_iff j k)
]
step_keeps s (commits writable j t) k n d at foreign = elim (commit_lem writable s j t) [
  | inl (m, e, yours, can, done) ↦
      rw (done, step)
        (ground (arith, get-committed_note s j k m, text_eq_iff j k, text_eq_iff t n.token))
  | inr (e, done, why) ↦ rw (done, step) at
]
step_keeps s (releases j t) k n d at foreign =
    release_keeps s j k t n at (ground (arith, text_eq_iff n.token t, text_eq_iff t n.token))
step_keeps s (prunes now) k n d at foreign = prune_keeps s k now n d at foreign

-- the call does not expire a note that lives to `until`
abbrev pub spares : ℕ → Call → Bool
spares until (prunes now) = leb now until
spares until _ = true

step_keeps_signed :
    (s : Store) (c : Call) (k : Text) (n : SponsoredNote)
    → Distinct s.notes
    → get s k ≡ some n
    → n.status ≡ signed
    → spares n.valid_until c ≡ true
    → get (step s c) k ≡ some n
unfolding step
step_keeps_signed s (reserves ms j new) k n d at is ok_ =
    step_keeps s (reserves ms j new) k n d at refl
step_keeps_signed s (commits writable j t) k n d at is ok_ = elim (commit_lem writable s j t) [
  | inl (m, e, yours, can, done) ↦
      rw (done, step) (ground (arith, get-committed_note s j k m, text_eq_iff j k))
  | inr (e, done, why) ↦ rw (done, step) at
]
step_keeps_signed s (releases j t) k n d at is ok_ = release_keeps s j k t n at (ground arith)
step_keeps_signed s (prunes now) k n d at is ok_ = prune_keeps s k now n d at ok_

abbrev pub every {ℓ} : {A : Type ℓ} → (A → Bool) → List A → Bool
every p [] = true
every p (x ∷ xs) = p x && every p xs

kept_by_others :
    (s : Store) (calls : List Call) (k : Text) (n : SponsoredNote)
    → IsDurable s
    → get s k ≡ some n
    → every (is_foreign k n.token n.valid_until) calls ≡ true
    → get (run s calls) k ≡ some n
unfolding run
kept_by_others s [] k n h at foreign = at
kept_by_others s (c ∷ calls) k n h at foreign =
    kept_by_others (step s c) calls k n (step-IsDurable s c h)
      (step_keeps s c k n h.distinct at (ground arith)) (ground arith)

kept_signed :
    (s : Store) (calls : List Call) (k : Text) (n : SponsoredNote)
    → IsDurable s
    → get s k ≡ some n
    → n.status ≡ signed
    → every (spares n.valid_until) calls ≡ true
    → get (run s calls) k ≡ some n
unfolding run
kept_signed s [] k n h at is live = at
kept_signed s (c ∷ calls) k n h at is live =
    kept_signed (step s c) calls k n (step-IsDurable s c h)
      (step_keeps_signed s c k n h.distinct at is (ground arith)) is (ground arith)

reserved_there :
    (s : Store) (ms : ℕ) (k token : Text) (new : NewNote)
    → (reserve ms s k new).0 ≡ reserved token
    → get (reserve ms s k new).1 k ≡ some (pending_note new token)
reserved_there s ms k token new made = elim (reserve_lem ms s k new) [
  | inl (h, e, same) ↦ cc (rw same at made)
  | inr (token', free, is, after) ↦
      let tokens : token' ≡ token = cc in ground (arith, after k, text_eq_iff k k)
]

committed_there :
    (s : Store) (writable : Bool) (k token : Text) (n : SponsoredNote)
    → get s k ≡ some n
    → (commit writable s k token).0 ≡ ok tt
    → get (commit writable s k token).1 k ≡ some (record n { status = signed })
committed_there s writable k token n at done = elim (commit_lem writable s k token) [
  | inr (e, failed, why) ↦ cc (rw failed at done)
  | inl (m, is, yours, can, made) ↦
      rw made (ground (arith, get-committed_note s k k m, text_eq_iff k k))
]

commit_held-0 :
    (writable : Bool) (s : Store) (k token : Text) (n : SponsoredNote)
    → get s k ≡ some n
    → n.token ≡ token
    → (commit writable s k token).0
      ≡ (if can_write writable s then ok tt else err (failure write_failed))
commit_held-0 writable s k token n at yours =
    ap (λ x. x.0) (commit_held writable s k token n at yours) ∙ ground arith

-- A reservation is exclusive. From a successful `reserve`, while the other requests make any calls
-- that do not carry its token and no `prune` comes after its expiry, every `reserve` of the note is
-- refused, and a `commit` with the token succeeds exactly if the file, if there is one, can be
-- written.
pub reservation_exclusive :
    (s : Store) (ms : ℕ) (k token : Text) (new : NewNote) (calls : List Call) (writable : Bool)
    (ms' : ℕ) (other : NewNote)
    → IsDurable s
    → (reserve ms s k new).0 ≡ reserved token
    → every (is_foreign k token new.valid_until) calls ≡ true
    → let t : Store = run (reserve ms s k new).1 calls in
      (reserve ms' t k other ≡ (held (pending_note new token), t))
      × ((commit writable t k token).0
          ≡ (if can_write writable t then ok tt else err (failure write_failed)))
unfolding step
reservation_exclusive s ms k token new calls writable ms' other h made foreign =
    let s' = (reserve ms s k new).1 in
    let there : get s' k ≡ some (pending_note new token) = reserved_there s ms k token new made in
    let still =
      kept_by_others s' calls k (pending_note new token) (step-IsDurable s (reserves ms k new) h)
        there foreign in
    (
      reserve_held ms' (run s' calls) k other (pending_note new token) still,
      commit_held-0 writable (run s' calls) k token (pending_note new token) still refl,
    )

-- A signature is exclusive. From a successful `commit`, whatever calls are made, `release` and
-- `commit` with any token included, while no `prune` comes after the expiry, every `reserve` of the
-- note is refused and shows the signed note.
pub signature_exclusive :
    (s : Store) (writable : Bool) (k token : Text) (n : SponsoredNote) (calls : List Call) (ms : ℕ)
    (other : NewNote)
    → IsDurable s
    → get s k ≡ some n
    → (commit writable s k token).0 ≡ ok tt
    → every (spares n.valid_until) calls ≡ true
    → let t : Store = run (commit writable s k token).1 calls in
      reserve ms t k other ≡ (held (record n { status = signed }), t)
unfolding step
signature_exclusive s writable k token n calls ms other h at done live =
    let s' = (commit writable s k token).1 in
    let there : get s' k ≡ some (record n { status = signed }) =
      committed_there s writable k token n at done in
    reserve_held ms (run s' calls) k other _
      (kept_signed s' calls k _ (step-IsDurable s (commits writable k token) h) there refl live)

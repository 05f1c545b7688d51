-- ===== src/Store/Laws.antt =====
-- What each operation of the store does to the note at each key, and to the file.
use tornado_4337_relayer.Base.{
  ℕ, suc, ◌≡◌, Bool, true, false, ◌&&◌, none, some, arith, if◌then◌else◌, Option-cases, Bool-cases,
  inl, inr, ok, err, ◌⊎◌,
}
use tornado_4337_relayer.Base.Text.{Text, text_eq, text_eq_iff, text_key}
use tornado_4337_relayer.Base.Dict
use tornado_4337_relayer.Base.Dict.{
  Dict, Distinct, unless, get-set, get-delete, get-delete_where, set-Distinct, delete-Distinct,
  delete_where-Distinct,
}
use tornado_4337_relayer.Errors.{signed, failure, write_failed, reservation_lost, Error}
use tornado_4337_relayer.Store.{
  Store, SponsoredNote, NewNote, get, reserved, held, pending_note, token_of, reserve, commit,
  release, is_pending, mark_signed, written, signed_entries,
}

-- The note at `j` after `reserve`: the key that was free has the new pending note.
pub get-reserve :
    (ms : ℕ) (s : Store) (k j : Text) (n : NewNote)
    → get s k ≡ none
    → get (reserve ms s k n).1 j
      ≡ (if text_eq k j then some (pending_note n (token_of ms (suc s.seq))) else get s j)
unfolding reserve
get-reserve ms s k j n free = rw (free, reserve) (get-set s.notes k j _)

pub reserve_free :
    (ms : ℕ) (s : Store) (k : Text) (n : NewNote)
    → get s k ≡ none
    → (reserve ms s k n).0 ≡ reserved (token_of ms (suc s.seq))
unfolding reserve
reserve_free ms s k n free = rw (free, reserve)

pub reserve_held :
    (ms : ℕ) (s : Store) (k : Text) (new : NewNote) (n : SponsoredNote)
    → get s k ≡ some n
    → reserve ms s k new ≡ (held n, s)
unfolding reserve
reserve_held ms s k new n e = rw (e, reserve)

-- `reserve` is refused exactly where some entry stands, whatever its status; a refusal changes
-- nothing and shows the entry, and a success adds one pending note that holds the returned token
-- and leaves every other key alone.
pub reserve_lem :
    (ms : ℕ) (s : Store) (k : Text) (n : NewNote)
    → ((h : SponsoredNote) × (get s k ≡ some h) × (reserve ms s k n ≡ (held h, s)))
      ⊎ ((token : Text) × (get s k ≡ none)
          × ((reserve ms s k n).0 ≡ reserved token)
          × ((j : Text)
              → get (reserve ms s k n).1 j
                ≡ (if text_eq k j then some (pending_note n token) else get s j)))
reserve_lem ms s k n = elim (Option-cases (get s k)) [
  | inl free ↦
      inr (
        token_of ms (suc s.seq),
        free,
        reserve_free ms s k n free,
        λ j. get-reserve ms s k j n free,
      )
  | inr (h, e) ↦ inl (h, e, reserve_held ms s k n h e)
]

pub get-release :
    (s : Store) (k j token : Text) (n : SponsoredNote)
    → get s k ≡ some n
    → get (release s k token) j ≡ (
        if text_eq n.token token && is_pending n
        then (if text_eq k j then none else get s j)
        else get s j)
unfolding release
get-release s k j token n e =
    rw (e, release)
      (elim (Bool-cases (text_eq n.token token && is_pending n)) [
        | inl yours ↦ rw yours (get-delete s.notes k j)
        | inr other ↦ rw other
      ])

pub release_missing : (s : Store) (k token : Text) → get s k ≡ none → release s k token ≡ s
unfolding release
release_missing s k token e = rw (e, release)

-- The file after a commit that was accepted.
abbrev pub file_after : Store → Text → SponsoredNote → Store
file_after s k n = elim s.file [
  | none ↦ s
  | some old ↦ record s {
    file = some (written (Dict.set (signed_entries s.notes) k (record n { status = signed })));
  }
]

-- The store after a commit that succeeded: the note is signed, and a file has it too.
abbrev pub committed : Store → Text → SponsoredNote → Store
committed s k n = record (file_after s k n) {
  notes = Dict.set s.notes k (record n { status = signed });
}

abbrev pub can_write : Bool → Store → Bool
can_write writable s = elim s.file [ none ↦ true | some old ↦ writable ]

mark_signed_lem :
    (writable : Bool) (s : Store) (k : Text) (n : SponsoredNote)
    → mark_signed writable s k n
      ≡ (if can_write writable s then (ok tt, committed s k n) else (err (failure write_failed), s))
unfolding mark_signed
mark_signed_lem writable s k n = ground arith

pub commit_held :
    (writable : Bool) (s : Store) (k token : Text) (n : SponsoredNote)
    → get s k ≡ some n
    → n.token ≡ token
    → commit writable s k token
      ≡ (if can_write writable s then (ok tt, committed s k n) else (err (failure write_failed), s))
unfolding commit
commit_held writable s k token n e t =
    rw (e, commit) (rw ((text_eq_iff n.token token).1 t) (mark_signed_lem writable s k n))

-- `commit` succeeds exactly where the token holds the entry and a file, if there is one, can be
-- written; it then marks the note signed in memory and in the file. In every other case it throws
-- and the store, file included, is as it was.
pub commit_lem :
    (writable : Bool) (s : Store) (k token : Text)
    → ((n : SponsoredNote) × (get s k ≡ some n)
        × (n.token ≡ token)
        × (can_write writable s ≡ true)
        × (commit writable s k token ≡ (ok tt, committed s k n)))
      ⊎ ((e : Error) × (commit writable s k token ≡ (err e, s))
          × ((n : SponsoredNote)
              → get s k ≡ some n
              → n.token ≡ token
              → can_write writable s ≡ false))
unfolding commit
commit_lem writable s k token = elim (Option-cases (get s k)) [
  | inl missing ↦ inr (failure reservation_lost, rw (missing, commit), λ n e. cc)
  | inr (n, e) ↦ elim (Bool-cases (text_eq n.token token)) [
    | inr other ↦ inr (
      failure reservation_lost,
      rw (e, commit) (rw other),
      λ m e' t. ground (arith, text_eq_iff m.token token),
    )
    | inl yours ↦
        let t = (text_eq_iff n.token token).0 yours in
        let done = commit_held writable s k token n e t in
        elim (Bool-cases (can_write writable s)) [
          | inl can ↦ inl (n, e, t, can, rw can at done)
          | inr cannot ↦ inr (failure write_failed, rw cannot at done, λ m e' t'. cannot)
        ]
  ]
]

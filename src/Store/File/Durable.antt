-- ===== src/Store/File/Durable.antt =====
-- Every signed note that is in memory is in the file, after any history of the store's operations.
use mathlib.Core.Path.{subst}
use tornado_4337_relayer.Base.{
  ℕ, ◌≡◌, refl, sym, ap, ◌∙◌, Bool, not, Option, none, some, List, [], ◌∷◌, arith, ltb,
  Option-cases, inl, inr,
}
use tornado_4337_relayer.Base.Text.{Text, text_key}
use tornado_4337_relayer.Base.Dict
use tornado_4337_relayer.Base.Dict.{
  Dict, Distinct, unless, get-set, get-delete, get-delete_where, set-Distinct, delete-Distinct,
  delete_where-Distinct,
}
use tornado_4337_relayer.Errors.{signed}
use tornado_4337_relayer.Store.{
  Store, SponsoredNote, StoredNote, NewNote, get, reserve, commit, release, prune, is_signed,
  stored, written, signed_entries,
}
use tornado_4337_relayer.Store.Laws.{
  get-reserve, get-release, release_missing, commit_lem, committed,
}

-- A call of the store's interface that may change it.
pub data Call : Type 0 where
  reserves : ℕ → Text → NewNote → Call
  commits : Bool → Text → Text → Call
  releases : Text → Text → Call
  prunes : ℕ → Call

unfoldable pub step : Store → Call → Store
step s (reserves ms k n) = (reserve ms s k n).1
step s (commits writable k token) = (commit writable s k token).1
step s (releases k token) = release s k token
step s (prunes now) = prune s now

unfoldable pub run : Store → List Call → Store
run s [] = s
run s (c ∷ cs) = run (step s c) cs

-- Keys are distinct, and a file, if there is one, has each signed note.
pub record IsDurable (s : Store) : Type 0 where
  pub distinct : Distinct s.notes
  pub file_distinct : (file : Dict Text StoredNote) → s.file ≡ some file → Distinct file
  pub recorded :
      (file : Dict Text StoredNote) (k : Text) (n : SponsoredNote)
      → s.file ≡ some file
      → get s k ≡ some n
      → n.status ≡ signed
      → Dict.get file k ≡ some (stored n)

abbrev map_stored : Option SponsoredNote → Option StoredNote
map_stored none = none
map_stored (some n) = some (stored n)

pub get-written :
    (d : Dict Text SponsoredNote) (k : Text) → Dict.get (written d) k ≡ map_stored (Dict.get d k)
unfolding Dict.get written
get-written [] k = refl
get-written ((j, n) ∷ d) k = ground (arith, get-written d k)

-- An operation that leaves the file and signs nothing new keeps it complete.
nothing_signed :
    (s t : Store)
    → IsDurable s
    → t.file ≡ s.file
    → Distinct t.notes
    → ((j : Text) (m : SponsoredNote) → get t j ≡ some m → m.status ≡ signed → get s j ≡ some m)
    → IsDurable t
nothing_signed s t h same d old = record {
  distinct = d;
  file_distinct = λ file in_file. h.file_distinct file (sym same ∙ in_file);
  recorded = λ file j m in_file at is. h.recorded file j m (sym same ∙ in_file) (old j m at is) is;
}

reserve-IsDurable :
    (ms : ℕ) (s : Store) (k : Text) (n : NewNote) → IsDurable s → IsDurable (reserve ms s k n).1
reserve-IsDurable ms s k n h = elim (Option-cases (get s k)) [
  | inr (old, e) ↦ unfold reserve in rw (e, reserve) h
  | inl free ↦
      nothing_signed s _ h (unfold reserve in rw (free, reserve))
        (unfold reserve in rw (free, reserve) (set-Distinct s.notes k _ h.distinct))
        (λ j m at is. ground (arith, get-reserve ms s k j n free))
]

release-IsDurable : (s : Store) (k token : Text) → IsDurable s → IsDurable (release s k token)
release-IsDurable s k token h = elim (Option-cases (get s k)) [
  | inl missing ↦ rw (release_missing s k token missing) h
  | inr (n, e) ↦
      nothing_signed s _ h (unfold release in ground arith)
        (unfold release in ground (arith, delete-Distinct s.notes k h.distinct))
        (λ j m at is. ground (arith, get-release s k j token n e))
]

prune-IsDurable : (s : Store) (now : ℕ) → IsDurable s → IsDurable (prune s now)
unfolding prune
prune-IsDurable s now h =
    nothing_signed s (prune s now) h refl (delete_where-Distinct _ s.notes h.distinct) (λ j m at is.
      ground (
        arith,
        get-delete_where (λ (v : SponsoredNote). ltb v.valid_until now) s.notes j h.distinct,
      ))

written-Distinct : (d : Dict Text SponsoredNote) → Distinct d → Distinct (written d)
unfolding written
written-Distinct [] h = tt
written-Distinct ((k, n) ∷ d) (fresh, h) =
    (get-written d k ∙ ap map_stored fresh, written-Distinct d h)

file_of_committed :
    (s : Store) (k : Text) (n : SponsoredNote) (old file : Dict Text StoredNote)
    → s.file ≡ some old
    → (committed s k n).file ≡ some file
    → written (Dict.set (signed_entries s.notes) k (record n { status = signed })) ≡ file
file_of_committed s k n old file was e = ground arith

file_after-Distinct :
    (s : Store) (k : Text) (n : SponsoredNote) (file : Dict Text StoredNote)
    → IsDurable s
    → (committed s k n).file ≡ some file
    → Distinct file
file_after-Distinct s k n file h e =
    let entries = Dict.set (signed_entries s.notes) k (record n { status = signed }) in
    let fine = written-Distinct entries (
      set-Distinct (signed_entries s.notes) k (record n { status = signed })
        (delete_where-Distinct (λ v. not (is_signed v)) s.notes h.distinct)) in
    elim (Option-cases s.file) [
      | inl memory ↦ cc (rw memory at e)
      | inr (old, was) ↦ subst (λ f. Distinct f) (file_of_committed s k n old file was e) fine
    ]

committed-IsDurable :
    (s : Store) (k : Text) (n : SponsoredNote) → IsDurable s → IsDurable (committed s k n)
committed-IsDurable s k n h = record {
  distinct = set-Distinct s.notes k _ h.distinct;
  file_distinct = λ file in_file. file_after-Distinct s k n file h in_file;
  recorded = λ file j m in_file at is. ground (
    arith,
    get-written (Dict.set (signed_entries s.notes) k (record n { status = signed })) j,
    get-set (signed_entries s.notes) k j (record n { status = signed }),
    get-set s.notes k j (record n { status = signed }),
    get-delete_where (λ v. not (is_signed v)) s.notes j h.distinct,
  );
}

commit-IsDurable :
    (writable : Bool) (s : Store) (k token : Text)
    → IsDurable s
    → IsDurable (commit writable s k token).1
commit-IsDurable writable s k token h = elim (commit_lem writable s k token) [
  | inl (n, e, t, can, done) ↦ rw done (committed-IsDurable s k n h)
  | inr (e, done, why) ↦ rw done h
]

pub step-IsDurable : (s : Store) (c : Call) → IsDurable s → IsDurable (step s c)
unfolding step
step-IsDurable s (reserves ms k n) h = reserve-IsDurable ms s k n h
step-IsDurable s (commits writable k token) h = commit-IsDurable writable s k token h
step-IsDurable s (releases k token) h = release-IsDurable s k token h
step-IsDurable s (prunes now) h = prune-IsDurable s now h

-- From a store whose keys are distinct and whose file, if it has one, has each signed note with all
-- its fields, any calls lead to such a store, failed writes included.
pub run-IsDurable : (s : Store) (cs : List Call) → IsDurable s → IsDurable (run s cs)
unfolding run
run-IsDurable s [] h = h
run-IsDurable s (c ∷ cs) h = run-IsDurable (step s c) cs (step-IsDurable s c h)

-- ===== src/Store/Examples.antt =====
-- The store's operations on a note that is reserved, signed and restored.
use mathlib.Core.Path.{subst}
use tornado_4337_relayer.Base.{
  ◌≡◌, ◌↔◌, ◌<◌, refl, arith, true, some, [], ◌∷◌, List, ok, err, if◌then◌else◌,
}
use tornado_4337_relayer.Base.Text.{Text, codes, text_eq, text_key}
use tornado_4337_relayer.Base.Decimal.{decimal, big_int}
use tornado_4337_relayer.Base.Dict
use tornado_4337_relayer.Base.Dict.{Dict}
use tornado_4337_relayer.Errors.{signed, failure, write_failed}
use tornado_4337_relayer.Store.{
  Store, SponsoredNote, StoredNote, NewNote, get, pending_note, reserved, held, token_of, reserve,
  commit, mark_signed, persist_signed, prune, written, stored, known, committed_gas_cost,
}
use tornado_4337_relayer.Store.Laws.{can_write}
use tornado_4337_relayer.Store.File.{entries, open_file_store}
use tornado_4337_relayer.Store.File.Durable.{
  Call, reserves, commits, releases, prunes, step, run, IsDurable, run-IsDurable,
}
use tornado_4337_relayer.Store.File.Restart.{restart_refuses}
use tornado_4337_relayer.Store.Budget.{all_cost, total_cost, committed_gas_cost_iff}
use tornado_4337_relayer.Store.Expiry.{Ends, reservation_expires}
use tornado_4337_relayer.Store.Exclusive.{reservation_exclusive, signature_exclusive}

abbrev note_hash : Text
note_hash = codes "0x0000000000000000000000000000000000000000000000000000000000000004"

abbrev other_hash : Text
other_hash = codes "0x0000000000000000000000000000000000000000000000000000000000000009"

-- an empty file store
abbrev empty_store : Store
empty_store = record { notes = []; seq = 0; file = some [] }

nothing_there :
    {A : Type 0} {x : A} (k : Text) (n : SponsoredNote)
    → get empty_store k ≡ some n
    → {y : A} → x ≡ y
unfolding Dict.get
nothing_there k n at = cc

empty_store-IsDurable : IsDurable empty_store
empty_store-IsDurable = record {
  distinct = tt;
  file_distinct = λ file e. let same : [] ≡ file = cc in subst (λ f. Dict.Distinct f) same tt;
  recorded = λ file k n e at is. nothing_there k n at;
}

abbrev sample_note : NewNote
sample_note = record {
  valid_until = 600;
  sender = codes "0xa";
  nonce = 1;
  max_gas_cost_wei = some 30;
}

-- `1000-1`
abbrev sample_token : Text
sample_token = codes "1000-1"

abbrev sample_calls : List Call
sample_calls =
    reserves 1001 other_hash sample_note
    ∷ releases note_hash (codes "1001-2")
    ∷ commits true other_hash (codes "1001-2")
    ∷ prunes 600
    ∷ []

makes_sample : (reserve 1000 empty_store note_hash sample_note).0 ≡ reserved sample_token
unfolding reserve token_of Dict.get decimal
makes_sample = refl

reservation_exclusive_example :
    let t : Store = run (reserve 1000 empty_store note_hash sample_note).1 sample_calls in
    (reserve 1002 t note_hash sample_note ≡ (held (pending_note sample_note sample_token), t))
    × ((commit true t note_hash sample_token).0
        ≡ (if can_write true t then ok tt else err (failure write_failed)))
unfolding text_eq
reservation_exclusive_example =
    reservation_exclusive empty_store 1000 note_hash sample_token sample_note sample_calls true 1002
      sample_note empty_store-IsDurable makes_sample refl

-- the store with the reservation
abbrev reserved_store : Store
reserved_store = record {
  notes = (note_hash, pending_note sample_note sample_token) ∷ [];
  seq = 1;
  file = some [];
}

reserved_store-IsDurable : IsDurable reserved_store
unfolding run step reserve token_of Dict.get Dict.set decimal
reserved_store-IsDurable =
    run-IsDurable empty_store (reserves 1000 note_hash sample_note ∷ []) empty_store-IsDurable

abbrev signed_note : SponsoredNote
signed_note = record (pending_note sample_note sample_token) { status = signed }

commits_sample : (commit true reserved_store note_hash sample_token).0 ≡ ok tt
unfolding commit mark_signed persist_signed written stored Dict.get Dict.set text_eq
commits_sample = refl

holds_sample : get reserved_store note_hash ≡ some (pending_note sample_note sample_token)
unfolding Dict.get text_eq
holds_sample = refl

signature_exclusive_example :
    let t : Store = run (commit true reserved_store note_hash sample_token).1 sample_calls in
    reserve 1002 t note_hash sample_note ≡ (held signed_note, t)
signature_exclusive_example =
    signature_exclusive reserved_store true note_hash sample_token
      (pending_note sample_note sample_token) sample_calls 1002 sample_note reserved_store-IsDurable
      holds_sample commits_sample refl

run-IsDurable_example : IsDurable (run reserved_store sample_calls)
run-IsDurable_example = run-IsDurable reserved_store sample_calls reserved_store-IsDurable

abbrev history : List Call
history = commits true note_hash sample_token ∷ reserves 1001 other_hash sample_note ∷ []

abbrev sample_file : Dict Text StoredNote
sample_file = (note_hash, stored signed_note) ∷ []

abbrev reopened : Store
reopened = record { notes = (note_hash, signed_note) ∷ []; seq = 0; file = some sample_file }

leaves_sample : (run reserved_store history).file ≡ some sample_file
unfolding run step commit mark_signed persist_signed written stored reserve token_of decimal
    Dict.get Dict.set text_eq
leaves_sample = refl

still_held : get (run reserved_store history) note_hash ≡ some signed_note
unfolding run step commit mark_signed persist_signed written stored reserve token_of decimal
    Dict.get Dict.set text_eq
still_held = refl

opens_sample :
    open_file_store (λ s. true) (λ s. some s) true 600 (entries sample_file) ≡ ok reopened
unfolding open_file_store written stored Dict.get Dict.set text_eq decimal big_int
opens_sample = refl

restart_refuses_example : reserve 1003 reopened note_hash sample_note ≡ (held signed_note, reopened)
restart_refuses_example =
    restart_refuses (λ s. true) (λ s. some s) reserved_store history sample_file note_hash
      signed_note (codes "0xa") true 600 reopened 1003 sample_note reserved_store-IsDurable
      leaves_sample still_held refl (omega arith) refl opens_sample

committed_gas_cost_iff_example :
    (committed_gas_cost (signed_note ∷ signed_note ∷ []) ≡ known 60) ↔ (
      (all_cost (signed_note ∷ signed_note ∷ []) ≡ true)
      × (60 ≡ total_cost (signed_note ∷ signed_note ∷ [])))
committed_gas_cost_iff_example = committed_gas_cost_iff (signed_note ∷ signed_note ∷ []) 60

reserved_store-Ends : Ends reserved_store note_hash 601
reserved_store-Ends n at =
    let same : pending_note sample_note sample_token ≡ n = cc (at, holds_sample) in
    subst (λ (x : SponsoredNote). x.valid_until < 601) same (omega arith)

-- the holder of the reservation is never heard of again
reservation_expires_example :
    (token : Text) × ((reserve 1002
        (prune (run reserved_store sample_calls) 601)
        note_hash
        sample_note).0
      ≡ reserved token)
unfolding text_eq
reservation_expires_example =
    reservation_expires reserved_store sample_calls note_hash 601 1002 sample_note
      reserved_store-IsDurable reserved_store-Ends refl

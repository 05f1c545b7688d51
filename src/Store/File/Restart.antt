-- ===== src/Store/File/Restart.antt =====
-- What a restarted store holds of the file that the stopped one left.
use tornado_4337_relayer.Base.{
  ℕ, ◌≤◌, ◌≡◌, refl, ◌∙◌, Bool, true, false, Option, none, some, List, [], ◌∷◌, arith, ltb,
  if◌then◌else◌, Bool-cases, inl, inr, Result, ok, err, >>=-eq-ok,
}
use tornado_4337_relayer.Base.Text.{Text, text_eq, text_eq_iff, text_key}
use tornado_4337_relayer.Base.Decimal.{decimal, big_int-decimal}
use tornado_4337_relayer.Base.Dict
use tornado_4337_relayer.Base.Dict.{Dict, Distinct, get-set}
use tornado_4337_relayer.Errors.{signed, Error, failure, write_failed}
use tornado_4337_relayer.Store.{
  Store, SponsoredNote, StoredNote, NewNote, get, held, reserve, stored, optional_decimal, written,
  signed_entries,
}
use tornado_4337_relayer.Store.Laws.{reserve_held}
use tornado_4337_relayer.Store.File.{
  entries, restored_cost, add_entry, load_entry, load_from, open_file_store, is_nullifier_hash,
  restored_note,
}
use tornado_4337_relayer.Store.File.Durable.{Call, run, IsDurable, run-IsDurable}

restored_cost-optional : (c : Option ℕ) → restored_cost (optional_decimal c) ≡ ok c
unfolding restored_cost
restored_cost-optional none = refl
restored_cost-optional (some n) = rw (big_int-decimal n)

add_entry-ne :
    (j k : Text) (o : Option SponsoredNote) (notes : Dict Text SponsoredNote)
    → text_eq j k ≡ false
    → Dict.get (add_entry j o notes) k ≡ Dict.get notes k
add_entry-ne j k none notes ne = refl
add_entry-ne j k (some n) notes ne = ground (arith, get-set notes j k n)

add_entry_self :
    (j k : Text) (o : Option SponsoredNote) (n : SponsoredNote) (notes : Dict Text SponsoredNote)
    → text_eq j k ≡ true
    → o ≡ some n
    → Dict.get (add_entry j o notes) k ≡ some n
add_entry_self j k none n notes same e = cc
add_entry_self j k (some m) n notes same e = ground (arith, get-set notes j k m)

module _ (is_hex : Text → Bool) (get_address : Text → Option Text) where
  restored_note-stored :
      (n : SponsoredNote) (sender : Text)
      → n.status ≡ signed
      → get_address n.sender ≡ some sender
      → restored_note is_hex get_address
          (stored n)
          (record { valid_until = n.valid_until; nonce = decimal n.nonce; sender = n.sender })
        ≡ ok (record n { sender = sender })
  unfolding restored_note stored
  restored_note-stored n sender is addressed =
      ground (arith, big_int-decimal n.nonce, restored_cost-optional n.max_gas_cost_wei)

  -- An unexpired entry that `write` printed is restored as it was, its sender spelled by
  -- `getAddress`.
  load_entry-stored :
      (now : ℕ) (k : Text) (n : SponsoredNote) (o : Option SponsoredNote) (sender : Text)
      → load_entry is_hex get_address now k (stored n) ≡ ok o
      → n.status ≡ signed
      → now ≤ n.valid_until
      → get_address n.sender ≡ some sender
      → o ≡ some (record n { sender = sender })
  unfolding load_entry stored text_eq
  load_entry-stored now k n o sender e is live addressed =
      elim (Bool-cases (is_nullifier_hash is_hex get_address k)) [
        | inr malformed ↦ cc (rw malformed at e)
        | inl fine ↦ elim (Bool-cases (ltb n.valid_until now)) [
          | inl expired ↦ absurd (ground arith)
          | inr fresh ↦ cc (rw (fine, fresh) at e, restored_note-stored n sender is addressed)
        ]
      ]

  load_from-keep :
      (now : ℕ) (k : Text) (notes d : Dict Text SponsoredNote) (raw : Dict Text StoredNote)
      → Dict.get raw k ≡ none
      → load_from is_hex get_address now notes raw ≡ ok d
      → Dict.get d k ≡ Dict.get notes k
  unfolding load_from Dict.get
  load_from-keep now k notes d [] miss e = cc
  load_from-keep now k notes d ((j, v) ∷ raw) miss e =
      let (o, here, rest) = >>=-eq-ok (load_entry is_hex get_address now j v) _ e in
      elim (Bool-cases (text_eq j k)) [
        | inl same ↦ cc (rw same at miss)
        | inr ne ↦
            load_from-keep now k (add_entry j o notes) d raw (rw ne at miss) rest
            ∙ add_entry-ne j k o notes ne
      ]

  load_from-found :
      (now : ℕ) (k : Text) (v : StoredNote) (notes d : Dict Text SponsoredNote)
      (raw : Dict Text StoredNote)
      → Distinct raw
      → Dict.get raw k ≡ some v
      → load_from is_hex get_address now notes raw ≡ ok d
      → (o : Option SponsoredNote) × (load_entry is_hex get_address now k v ≡ ok o)
        × ((n : SponsoredNote) → o ≡ some n → Dict.get d k ≡ some n)
  unfolding load_from Dict.get
  load_from-found now k v notes d [] distinct at e = cc
  load_from-found now k v notes d ((j, w) ∷ raw) distinct at e =
      let (o, here, rest) = >>=-eq-ok (load_entry is_hex get_address now j w) _ e in
      elim (Bool-cases (text_eq j k)) [
        | inr ne ↦ load_from-found now k v (add_entry j o notes) d raw distinct.1 (rw ne at at) rest
        | inl same ↦ (
          o,
          ground (arith, text_eq_iff j k),
          λ n is.
              let j_is_k = (text_eq_iff j k).0 same in
              load_from-keep now k (add_entry j o notes) d raw (rw j_is_k at (distinct.0)) rest
              ∙ add_entry_self j k o n notes same is,
        )
      ]

  get-opened :
      (writable : Bool) (d : Dict Text SponsoredNote) (t : Store) (k : Text) (n : SponsoredNote)
      → ◌≡◌ {A = Result Error Store}
          (if writable
            then ok (record { notes = d; seq = 0; file = some (written (signed_entries d)) })
            else err (failure write_failed))
          (ok t)
      → Dict.get d k ≡ some n
      → get t k ≡ some n
  get-opened writable d t k n made at = ground arith

  -- Take a file store after any history of calls, failed writes included, and reopen it at `now`
  -- from the file that it left. A note that was signed and has not expired is held again, so a
  -- request to reserve it is refused, and the entry shown is the old one with all its fields, its
  -- sender spelled by `getAddress`.
  pub restart_refuses :
      (s : Store) (calls : List Call) (file : Dict Text StoredNote) (k : Text) (n : SponsoredNote)
      (sender : Text) (writable : Bool) (now : ℕ) (t : Store) (ms : ℕ) (new : NewNote)
      → IsDurable s
      → (run s calls).file ≡ some file
      → get (run s calls) k ≡ some n
      → n.status ≡ signed
      → now ≤ n.valid_until
      → get_address n.sender ≡ some sender
      → open_file_store is_hex get_address writable now (entries file) ≡ ok t
      → reserve ms t k new ≡ (held (record n { sender = sender }), t)
  unfolding open_file_store
  restart_refuses s calls file k n sender writable now t ms new h left at is live addressed opened =
      let durable = run-IsDurable s calls h in
      let (d, loaded, made) = >>=-eq-ok (load_from is_hex get_address now [] file) _ opened in
      let (o, entry, found) =
        load_from-found now k (stored n) [] d file (durable.file_distinct file left)
          (durable.recorded file k n left at is) loaded in
      let same = load_entry-stored now k n o sender entry is live addressed in
      reserve_held ms t k new _ (get-opened writable d t k _ made (found _ same))

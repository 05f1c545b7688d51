-- ===== src/Store/File.antt =====
-- The constructor of `FileSponsorshipStore`, relayer/src/store.ts: what a restart restores. viem's
-- `isHex` and `getAddress` are parameters; `getAddress` is `none` where it throws. Numbers in the file
-- are natural numbers in decimal, as `write` prints them: an entry edited into another spelling that
-- `BigInt` still reads is refused here.
pub mod Durable
pub mod Restart
use tornado_4337_relayer.Base.{
  ℕ, ◌+◌, Bool, true, false, not, ◌&&◌, ◌||◌, Option, none, some, [], ◌∷◌, ltb, ◌==◌, length,
  Result, ok, err, ◌>>=◌, or_throw, if◌then◌else◌,
}
use tornado_4337_relayer.Base.Text.{Text, codes, text_eq, text_key}
use tornado_4337_relayer.Base.Decimal.{big_int, decimal}
use tornado_4337_relayer.Base.Dict
use tornado_4337_relayer.Base.Dict.{Dict}
use tornado_4337_relayer.Errors.{
  signed, Error, failure, not_a_store, malformed_nullifier_hash, malformed_entry, write_failed,
  thrown,
}
use tornado_4337_relayer.Store.{
  Json, absent, null, other, number, text, StoredNote, SponsoredNote, Store, signed_entries,
  written,
}

-- the file system's answer to `existsSync` and `readFileSync`, after `JSON.parse`
pub data Contents : Type 0 where
  missing unreadable not_an_object : Contents
  entries : Dict Text StoredNote → Contents

-- `v.status !== 'signed'` is false
abbrev is_text : Text → Json → Bool
is_text t (text s) = text_eq s t
is_text t _ = false

-- `v.token ?? 'restored'`. A token that is no string equals no token of this program; it is kept
-- as a text without a dash.
abbrev restored_token : Json → Text
restored_token (text t) = t
restored_token (number n) = decimal n
restored_token other = codes "other"
restored_token _ = codes "restored"

-- `v.maxGasCostWei === undefined ? undefined : BigInt(v.maxGasCostWei)`
restored_cost : Json → Result Error (Option ℕ)
restored_cost absent = ok none
restored_cost (number n) = ok (some n)
restored_cost (text t) = do n ← or_throw (big_int t) (failure thrown); ok (some n)
restored_cost _ = err (failure thrown)

-- the fields that the type tests let through
pub record Checked : Type 0 where
  pub valid_until : ℕ
  pub nonce : Text
  pub sender : Text

abbrev checked : Json → Json → Json → Option Checked
checked (number v) (text n) (text s) = some (record { valid_until = v; nonce = n; sender = s })
checked _ _ _ = none

abbrev add_entry : Text → Option SponsoredNote → Dict Text SponsoredNote → Dict Text SponsoredNote
add_entry key none notes = notes
add_entry key (some n) notes = Dict.set notes key n

module _ (is_hex : Text → Bool) (get_address : Text → Option Text) where
  -- `isHex(key) && key.length === 66`
  abbrev pub is_nullifier_hash : Text → Bool
  is_nullifier_hash key = is_hex key && length key == 66

  -- the note that an unexpired entry becomes
  restored_note : StoredNote → Checked → Result Error SponsoredNote
  unfolding restored_cost
  restored_note v c = do
    sender ← or_throw (get_address c.sender) (failure thrown)
    nonce ← or_throw (big_int c.nonce) (failure thrown)
    cost ← restored_cost v.max_gas_cost_wei
    ok (record {
      valid_until = c.valid_until;
      sender = sender;
      nonce = nonce;
      status = signed;
      token = restored_token v.token;
      max_gas_cost_wei = cost;
    })

  -- the body of the loop: `none` is `continue`
  pub load_entry : ℕ → Text → StoredNote → Result Error (Option SponsoredNote)
  load_entry now key v =
      if not (is_text (codes "signed") v.status)
      then ok none
      else if not (is_nullifier_hash key)
      then err (failure malformed_nullifier_hash)
      else elim (checked v.valid_until v.nonce v.sender) [
        | none ↦ err (failure malformed_entry)
        | some c ↦ if ltb c.valid_until now then ok none else do n ← restored_note v c; ok (some n)
      ]

  -- the loop over `Object.entries(raw)`
  load_from :
      ℕ → Dict Text SponsoredNote → Dict Text StoredNote → Result Error (Dict Text SponsoredNote)
  load_from now notes [] = ok notes
  load_from now notes ((key, v) ∷ raw) = do
    n ← load_entry now key v
    load_from now (add_entry key n notes) raw

  -- how many notes have no recorded cost: `legacyEntries`
  pub legacy_entries : Dict Text SponsoredNote → ℕ
  legacy_entries [] = 0
  legacy_entries ((k, n) ∷ notes) =
      elim n.max_gas_cost_wei [ none ↦ 1 | some c ↦ 0 ] + legacy_entries notes

  abbrev load_contents : ℕ → Contents → Result Error (Dict Text SponsoredNote)
  load_contents now missing = ok []
  load_contents now unreadable = err (failure thrown)
  load_contents now not_an_object = err (failure not_a_store)
  load_contents now (entries raw) = load_from now [] raw

  -- `new FileSponsorshipStore(path, now)`, which ends by writing the file once
  unfoldable pub open_file_store : Bool → ℕ → Contents → Result Error Store
  unfolding load_from load_entry restored_note
  open_file_store writable now contents = do
    notes ← load_contents now contents
    (if writable
        then ok (record { notes = notes; seq = 0; file = some (written (signed_entries notes)) })
        else err (failure write_failed))

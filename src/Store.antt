-- ===== src/Store.antt =====
-- The sponsorship stores: `SponsoredNote`, `MemorySponsorshipStore` and `committedGasCost` of
-- relayer/src/service.ts, and the writing half of `FileSponsorshipStore` of relayer/src/store.ts.
-- One record stands for both classes: `file` is `none` in a memory store, whose `persistSigned` does
-- nothing, and the contents of the JSON file in a file store. Seconds and milliseconds are natural
-- numbers.
pub mod Laws
pub mod File
pub mod Exclusive
pub mod Expiry
pub mod Budget
pub mod Examples
use tornado_4337_relayer.Base.{
  ℕ, suc, ◌+◌, ◌≡◌, refl, Bool, true, false, not, ◌&&◌, Option, none, some, List, [], ◌∷◌, ◌++◌,
  ltb, leb, Key, Result, ok, err, if◌then◌else◌, filter,
}
use tornado_4337_relayer.Base.Text.{Text, codes, text_eq, text_key}
use tornado_4337_relayer.Base.Decimal.{decimal}
use tornado_4337_relayer.Base.Dict
use tornado_4337_relayer.Base.Dict.{Dict, values, delete_where}
use tornado_4337_relayer.Errors.{
  Status, pending, signed, Error, failure, reservation_lost, write_failed,
}

pub record SponsoredNote : Type 0 where
  pub valid_until : ℕ
  pub sender : Text
  pub nonce : ℕ
  pub status : Status
  pub token : Text
  pub max_gas_cost_wei : Option ℕ

-- `Omit<SponsoredNote, 'status' | 'token'>`
pub record NewNote : Type 0 where
  pub valid_until : ℕ
  pub sender : Text
  pub nonce : ℕ
  pub max_gas_cost_wei : Option ℕ

-- A field of an entry of the JSON file: `absent` where the key is missing, `other` for a Boolean, an
-- array or an object.
pub data Json : Type 0 where
  absent null other : Json
  number : ℕ → Json
  text : Text → Json

-- `StoredNote`, read before its fields are checked
pub record StoredNote : Type 0 where
  pub valid_until : Json
  pub sender : Json
  pub nonce : Json
  pub status : Json
  pub token : Json
  pub max_gas_cost_wei : Json

pub record Store : Type 0 where
  pub notes : Dict Text SponsoredNote
  pub seq : ℕ
  pub file : Option (Dict Text StoredNote)

abbrev pub new_memory_store : Store
new_memory_store = record { notes = []; seq = 0; file = none }

abbrev pub is_signed : SponsoredNote → Bool
is_signed n = elim n.status [ pending ↦ false | signed ↦ true ]

abbrev pub is_pending : SponsoredNote → Bool
is_pending n = elim n.status [ pending ↦ true | signed ↦ false ]

abbrev pub get : Store → Text → Option SponsoredNote
get s k = Dict.get s.notes k

-- `${Date.now()}-${++this.seq}`
unfoldable pub token_of : ℕ → ℕ → Text
token_of ms seq = decimal ms ++ (b'-' ∷ decimal seq)

pub data Reservation : Type 0 where
  reserved : Text → Reservation
  held : SponsoredNote → Reservation

abbrev pub pending_note : NewNote → Text → SponsoredNote
pending_note n token = record {
  valid_until = n.valid_until;
  sender = n.sender;
  nonce = n.nonce;
  status = pending;
  token = token;
  max_gas_cost_wei = n.max_gas_cost_wei;
}

-- `reserve(k, note)` at the clock's millisecond `ms`
unfoldable pub reserve : ℕ → Store → Text → NewNote → Reservation × Store
reserve ms s k note = elim (get s k) [
  | some n ↦ (held n, s)
  | none ↦
      let token = token_of ms (suc s.seq) in
      (
        reserved token,
        record s { notes = Dict.set s.notes k (pending_note note token); seq = suc s.seq },
      )
]

-- `signedEntries()`
abbrev pub signed_entries : Dict Text SponsoredNote → Dict Text SponsoredNote
signed_entries notes = delete_where (λ n. not (is_signed n)) notes

abbrev optional_decimal : Option ℕ → Json
optional_decimal none = absent
optional_decimal (some n) = text (decimal n)

-- one entry of the object that `write` prints: only signed entries come here
unfoldable pub stored : SponsoredNote → StoredNote
stored n = record {
  valid_until = number n.valid_until;
  sender = text n.sender;
  nonce = text (decimal n.nonce);
  status = text (codes "signed");
  token = text n.token;
  max_gas_cost_wei = optional_decimal n.max_gas_cost_wei;
}

-- `write(entries)`: the contents of the file that replaces the old one
unfoldable pub written : Dict Text SponsoredNote → Dict Text StoredNote
unfolding stored
written [] = []
written ((k, n) ∷ entries) = (k, stored n) ∷ written entries

-- `persistSigned(k, next)`: `writable` says whether the operating system lets the file be replaced;
-- the temporary file is renamed over the old one, so a failed write leaves the old contents.
unfoldable pub persist_signed : Bool → Store → Text → SponsoredNote → Result Error Store
persist_signed writable s k next = elim s.file [
  | none ↦ ok s
  | some old ↦
      if writable
      then ok (record s { file = some (written (Dict.set (signed_entries s.notes) k next)) })
      else err (failure write_failed)
]

mark_signed : Bool → Store → Text → SponsoredNote → Result Error (Unit {0}) × Store
unfolding persist_signed
mark_signed writable s k n =
    let next = record n { status = signed } in
    elim (persist_signed writable s k next) [
      | ok s' ↦ (ok tt, record s' { notes = Dict.set s.notes k next })
      | err e ↦ (err e, s)
    ]

-- `commit(k, token)`
unfoldable pub commit : Bool → Store → Text → Text → Result Error (Unit {0}) × Store
unfolding mark_signed
commit writable s k token = elim (get s k) [
  | none ↦ (err (failure reservation_lost), s)
  | some n ↦
      if text_eq n.token token
      then mark_signed writable s k n
      else (err (failure reservation_lost), s)
]

-- `release(k, token)`
unfoldable pub release : Store → Text → Text → Store
release s k token = elim (get s k) [
  | none ↦ s
  | some n ↦
      if text_eq n.token token && is_pending n
      then record s { notes = Dict.delete s.notes k }
      else s
]

-- `prune(now)`
unfoldable pub prune : Store → ℕ → Store
prune s now = record s { notes = delete_where (λ v. ltb v.valid_until now) s.notes }

-- `outstanding(now)`
unfoldable pub outstanding : Store → ℕ → List SponsoredNote
outstanding s now = filter (λ v. leb now v.valid_until) (values s.notes)

pub data GasCost : Type 0 where
  known : ℕ → GasCost
  unknown : ℕ → ℕ → GasCost

abbrev max : ℕ → ℕ → ℕ
max a b = if ltb a b then b else a

-- the loop of `committedGasCost`, over its three variables
committed_from : ℕ → ℕ → ℕ → List SponsoredNote → GasCost
committed_from wei count until [] = if ltb 0 count then unknown count until else known wei
committed_from wei count until (n ∷ notes) = elim n.max_gas_cost_wei [
  | some cost ↦ committed_from (wei + cost) count until notes
  | none ↦ committed_from wei (count + 1) (max until n.valid_until) notes
]

unfoldable pub committed_gas_cost : List SponsoredNote → GasCost
unfolding committed_from
committed_gas_cost notes = committed_from 0 0 0 notes

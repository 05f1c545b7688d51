-- ===== src/NoteString.antt =====
-- client/src/note.ts: a note, and the string that keeps it.
pub mod Pieces
pub mod RoundTrip
mod Examples
use tornado_4337_relayer.Base.{
  ℕ, Bool, true, false, ◌&&◌, ◌||◌, Option, none, some, List, [], ◌∷◌, ◌++◌, leb, ◌==◌, length,
  take, drop, if◌then◌else◌,
}
use tornado_4337_relayer.Base.Text.{Text, codes, text_eq}
use tornado_4337_relayer.Base.Decimal.{is_digit, big_int, decimal}
use tornado_4337_relayer.Base.Trim.{trim}

abbrev pub Bytes : Type 0
Bytes = List ℕ

-- What `note.ts` calls of `@noble/curves`, `viem` and `micro-zk-proofs`: `numberToBytesLE(n, 31)`
-- (`none` where it throws), `bytesToNumberLE`, `toHex` of bytes, `hexToBytes` on hex digits, and
-- `pedersenHash`.
pub record Codec : Type 0 where
  pub to_bytes_le : ℕ → Option Bytes
  pub from_bytes_le : Bytes → ℕ
  pub to_hex : Bytes → Text
  pub from_hex : Text → Bytes
  pub pedersen_hash : Bytes → ℕ

pub record Note : Type 0 where
  pub nullifier : ℕ
  pub secret : ℕ
  pub commitment : ℕ
  pub nullifier_hash : ℕ
  pub preimage : Bytes

pub record ParsedNote : Type 0 where
  pub note : Note
  pub currency : Text
  pub amount : Text
  pub chain_id : ℕ

-- the classes of `NOTE_REGEX`
unfoldable pub is_letter : ℕ → Bool
is_letter c = leb b'a' c && leb c b'z' || leb b'A' c && leb c b'Z'

unfoldable pub is_currency : ℕ → Bool
unfolding is_letter
is_currency c = is_letter c || is_digit c

unfoldable pub is_amount : ℕ → Bool
is_amount c = is_digit c || c == b'.'

unfoldable pub is_hex_digit : ℕ → Bool
is_hex_digit c = is_digit c || leb b'a' c && leb c b'f' || leb b'A' c && leb c b'F'

-- the longest run of a class, and what follows
unfoldable pub run_of : (ℕ → Bool) → Text → Text × Text
run_of p [] = ([], [])
run_of p (c ∷ s) = let (run, rest) = run_of p s in if p c then (c ∷ run, rest) else ([], c ∷ s)

-- at least one character, and a dash behind it
unfoldable pub dashed : Text × Text → Option (Text × Text)
dashed ([], rest) = none
dashed (c ∷ run, []) = none
dashed (c ∷ run, d ∷ rest) = if d == b'-' then some (c ∷ run, rest) else none

-- `([class]+)-`: no class has the dash, so the longest run is the only match
unfoldable pub group : (ℕ → Bool) → Text → Option (Text × Text)
unfolding run_of dashed
group p s = dashed (run_of p s)

unfoldable pub all_hex : Text → Bool
all_hex [] = true
all_hex (c ∷ s) = is_hex_digit c && all_hex s

unfoldable pub after_prefix : Text → Text → Option Text
after_prefix prefix s =
    if text_eq (take (length prefix) s) prefix then some (drop (length prefix) s) else none

-- `0x([0-9a-fA-F]{124})$`
unfoldable pub hex_part : Text → Option Text
unfolding all_hex is_hex_digit
hex_part s = elim (after_prefix (codes "0x") s) [
  | none ↦ none
  | some hex ↦ if length hex == 124 && all_hex hex then some hex else none
]

-- `{ ...note, currency, amount, chainId: BigInt(chainId) }`
unfoldable pub with_chain_id : Text → Text → Note → Option ℕ → Option ParsedNote
with_chain_id currency amount note none = none
with_chain_id currency amount note (some n) =
    some (record { note = note; currency = currency; amount = amount; chain_id = n })

unfoldable pub with_note : Text → Text → Text → Option Note → Option ParsedNote
unfolding with_chain_id
with_note currency amount chain_id none = none
with_note currency amount chain_id (some note) =
    with_chain_id currency amount note (big_int chain_id)

module _ (codec : Codec) where
  unfoldable pub note_of_bytes : ℕ → ℕ → Bytes → Bytes → Note
  note_of_bytes nullifier secret nullifier_bytes secret_bytes = record {
    nullifier = nullifier;
    secret = secret;
    commitment = codec.pedersen_hash (nullifier_bytes ++ secret_bytes);
    nullifier_hash = codec.pedersen_hash nullifier_bytes;
    preimage = nullifier_bytes ++ secret_bytes;
  }

  unfoldable pub note_from_secrets : ℕ → ℕ → Option Note
  note_from_secrets nullifier secret = elim (codec.to_bytes_le nullifier) [
    | none ↦ none
    | some n ↦ elim (codec.to_bytes_le secret) [
      | none ↦ none
      | some s ↦ some (note_of_bytes nullifier secret n s)
    ]
  ]

  -- `createNote()`, for the random bytes of the two secrets
  unfoldable pub create_note : Bytes → Bytes → Option Note
  create_note a b = note_from_secrets (codec.from_bytes_le a) (codec.from_bytes_le b)

  unfoldable pub to_note_string : Note → Text → Text → ℕ → Text
  to_note_string note currency amount chain_id =
      codes "tornado-"
      ++ (currency
          ++ (b'-'
              ∷ (amount ++ (b'-' ∷ (decimal chain_id ++ (b'-' ∷ codec.to_hex note.preimage))))))

  -- the groups, for a match
  unfoldable pub parsed_note : Text → Text → Text → Text → Option ParsedNote
  unfolding with_note with_chain_id
  parsed_note currency amount chain_id hex =
      let preimage = codec.from_hex hex in
      with_note currency amount chain_id (
        note_from_secrets (codec.from_bytes_le (take 31 preimage))
          (codec.from_bytes_le (take 31 (drop 31 preimage))))

  -- `none` stands for a string that is refused
  unfoldable pub parse_note_string : Text → Option ParsedNote
  parse_note_string note_string = elim (after_prefix (codes "tornado-") (trim note_string)) [
    | none ↦ none
    | some s ↦ elim (group is_currency s) [
      | none ↦ none
      | some (currency, s1) ↦ elim (group is_amount s1) [
        | none ↦ none
        | some (amount, s2) ↦ elim (group is_digit s2) [
          | none ↦ none
          | some (chain_id, s3) ↦ elim (hex_part s3) [
            | none ↦ none
            | some hex ↦ parsed_note currency amount chain_id hex
          ]
        ]
      ]
    ]
  ]

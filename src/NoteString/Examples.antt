-- ===== src/NoteString/Examples.antt =====
-- A note of two small secrets, with a codec that knows one byte of each.
use tornado_4337_relayer.Base.{
  ℕ, arith, ◌+◌, ◌*◌, ◌-◌, ◌/◌, ◌%◌, ◌≡◌, refl, true, ltb, none, some, [], ◌∷◌, ◌++◌, length,
  replicate, All, if◌then◌else◌,
}
use tornado_4337_relayer.Base.Text.{Text, codes, text_eq}
use tornado_4337_relayer.Base.Decimal.{is_digit}
use tornado_4337_relayer.Base.Trim.{trim}
use tornado_4337_relayer.NoteString.{
  Bytes, Codec, is_letter, is_currency, is_amount, is_hex_digit, all_hex, note_of_bytes,
  to_note_string, parse_note_string, group, hex_part, after_prefix,
}
use tornado_4337_relayer.NoteString.Pieces.{Of}
use tornado_4337_relayer.NoteString.RoundTrip.{Kept, parse_note_string-to_note_string}

abbrev hex_char : ℕ → ℕ
hex_char n = if ltb n 10 then b'0' + n else b'a' + (n - 10)

abbrev hex_of : Bytes → Text
hex_of [] = []
hex_of (x ∷ xs) = hex_char (x / 16) ∷ hex_char (x % 16) ∷ hex_of xs

abbrev value_of_char : ℕ → ℕ
value_of_char c = if ltb c 58 then c - 48 else c - 87

abbrev bytes_of : Text → Bytes
bytes_of (a ∷ b ∷ s) = (16 * value_of_char a + value_of_char b) ∷ bytes_of s
bytes_of _ = []

abbrev first_byte : Bytes → ℕ
first_byte [] = 0
first_byte (x ∷ xs) = x

abbrev sample_codec : Codec
sample_codec = record {
  to_bytes_le = λ n. if ltb n 256 then some (n ∷ replicate 30 0) else none;
  from_bytes_le = first_byte;
  to_hex = λ b. codes "0x" ++ hex_of b;
  from_hex = bytes_of;
  pedersen_hash = length;
}

abbrev bytes : ℕ → Bytes
bytes n = n ∷ replicate 30 0

abbrev hex : Text
hex = hex_of (bytes 5 ++ bytes 172)

all_hex-digits : (w : Text) → all_hex w ≡ true → All (λ c. is_hex_digit c ≡ true) w
unfolding all_hex
all_hex-digits [] e = tt
all_hex-digits (c ∷ w) e = (ground arith, all_hex-digits w (ground arith))

kept : Kept sample_codec 5 172 (bytes 5) (bytes 172) hex
unfolding all_hex is_hex_digit is_digit
kept = record {
  first = record { written = refl; read_back = refl; size = refl };
  second = record { written = refl; read_back = refl; size = refl };
  in_hex = record {
    written = refl;
    read_back = refl;
    size = refl;
    digits = all_hex-digits hex refl;
  };
}

currency : Of is_currency (codes "eth")
unfolding is_currency is_letter is_digit
currency = ((refl, (refl, (refl, tt))), λ none_there. cc)

amount : Of is_amount (codes "0.1")
unfolding is_amount is_digit
amount = ((refl, (refl, (refl, tt))), λ none_there. cc)

refusals :
    (parse_note_string sample_codec (codes "tornado-eth-0.1-1-0x00") ≡ none)
    × (parse_note_string sample_codec (codes "tornado-eth--1-0x00") ≡ none)
    × (parse_note_string sample_codec (codes "hurricane-eth-0.1-1-0x00") ≡ none)
unfolding parse_note_string group is_currency is_letter is_amount is_digit hex_part after_prefix
    text_eq trim
refusals = (refl, refl, refl)

parse_note_string-to_note_string_example :
    parse_note_string sample_codec (
      to_note_string sample_codec
        (note_of_bytes sample_codec 5 172 (bytes 5) (bytes 172))
        (codes "eth")
        (codes "0.1")
        1)
    ≡ some (record {
      note = note_of_bytes sample_codec 5 172 (bytes 5) (bytes 172);
      currency = codes "eth";
      amount = codes "0.1";
      chain_id = 1;
    })
parse_note_string-to_note_string_example =
    parse_note_string-to_note_string sample_codec 5 172 (bytes 5) (bytes 172) hex kept (codes "eth")
      (codes "0.1") 1 currency amount

-- ===== src/NoteString/RoundTrip.antt =====
-- A note is read back from its string.
use mathlib.Core.Path.{subst}
use tornado_4337_relayer.Base.{
  ℕ, ◌≡◌, refl, sym, ap, ◌∙◌, arith, false, some, ◌∷◌, ◌++◌, length, take, drop, length-append,
  All-append,
}
use tornado_4337_relayer.Base.Text.{Text, codes}
use tornado_4337_relayer.Base.Decimal.{is_digit, decimal, big_int-decimal, decimal-IsDigits}
use tornado_4337_relayer.Base.Trim.{is_space, trim, NoSpace, trim-NoSpace}
use tornado_4337_relayer.NoteString.{
  Bytes, Codec, is_currency, is_amount, is_hex_digit, after_prefix, hex_part, note_of_bytes,
  note_from_secrets, to_note_string, with_note, with_chain_id, parsed_note, parse_note_string,
}
use tornado_4337_relayer.NoteString.Pieces.{
  Of, group-dash, Encodes, IsHex, take-append, take-all, drop-append, hex_part-hex, class-NoSpace,
  is_currency-no_space, is_amount-no_space, is_hex_digit-no_space, is_digit-no_space,
  prefix-NoSpace, hex-NoSpace, dash_no_space, no_dash, after_tornado, decimal-ne_nil,
}

module _ (codec : Codec) (nullifier secret : ℕ) (n s : Bytes) (hex : Text) where
  -- What the library does with the two secrets of a note and with its bytes.
  pub record Kept : Type 0 where
    pub first : Encodes codec nullifier n
    pub second : Encodes codec secret s
    pub in_hex : IsHex codec (n ++ s) hex

  module _ (kept : Kept) where
    made :
        note_from_secrets codec nullifier secret ≡ some (note_of_bytes codec nullifier secret n s)
    unfolding note_from_secrets
    made = rw (kept.first.written, note_from_secrets) (rw kept.second.written refl)

    parsed :
        (currency amount : Text) (chain_id : ℕ)
        → parsed_note codec currency amount (decimal chain_id) hex
          ≡ some (record {
            note = note_of_bytes codec nullifier secret n s;
            currency = currency;
            amount = amount;
            chain_id = chain_id;
          })
    unfolding parsed_note with_note with_chain_id
    parsed currency amount chain_id =
        let bytes = kept.in_hex.read_back in
        let first : codec.from_bytes_le (take 31 (codec.from_hex hex)) ≡ nullifier =
          ap (λ b. codec.from_bytes_le (take 31 b)) bytes
          ∙ ap codec.from_bytes_le (take-append 31 n s kept.first.size)
          ∙ kept.first.read_back in
        let second : codec.from_bytes_le (take 31 (drop 31 (codec.from_hex hex))) ≡ secret =
          ap (λ b. codec.from_bytes_le (take 31 (drop 31 b))) bytes
          ∙ ap (λ b. codec.from_bytes_le (take 31 b)) (drop-append 31 n s kept.first.size)
          ∙ ap codec.from_bytes_le (take-all 31 s kept.second.size)
          ∙ kept.second.read_back in
        ap
          (λ k. with_note currency amount (decimal chain_id) (
            note_from_secrets codec k
              (codec.from_bytes_le (take 31 (drop 31 (codec.from_hex hex))))))
          first
        ∙ ap
            (λ k.
              with_note currency amount (decimal chain_id) (note_from_secrets codec nullifier k))
            second
        ∙ ap (with_note currency amount (decimal chain_id)) made
        ∙ ap (with_chain_id currency amount (note_of_bytes codec nullifier secret n s))
            (big_int-decimal chain_id)

    sized : length hex ≡ 124
    sized = kept.in_hex.size ∙ omega (arith, length-append n s, kept.first.size, kept.second.size)

    string-NoSpace :
        (currency amount : Text) (chain_id : ℕ)
        → Of is_currency currency
        → Of is_amount amount
        → NoSpace (
            to_note_string codec
              (note_of_bytes codec nullifier secret n s)
              currency
              amount
              chain_id)
    unfolding to_note_string note_of_bytes
    string-NoSpace currency amount chain_id (c, c_ne) (a, a_ne) =
        let spaceless = λ (w v : Text) (h : NoSpace w) (k : NoSpace v).
          All-append (λ x. is_space x ≡ false) w v h k in
        let digits =
          class-NoSpace is_digit (decimal chain_id) is_digit-no_space (decimal-IsDigits chain_id) in
        let hexes : NoSpace (codec.to_hex (n ++ s)) = subst NoSpace (sym kept.in_hex.written) (
          spaceless (codes "0x") hex hex-NoSpace
            (class-NoSpace is_hex_digit hex is_hex_digit-no_space kept.in_hex.digits)) in
        spaceless (codes "tornado-") _ prefix-NoSpace (
          spaceless currency _ (class-NoSpace is_currency currency is_currency-no_space c) (
            dash_no_space,
            spaceless amount _ (class-NoSpace is_amount amount is_amount-no_space a)
                (dash_no_space, spaceless (decimal chain_id) _ digits (dash_no_space, hexes)),
          ))

    -- A note that was made of two secrets is read back from its string, with its currency, its
    -- amount and its chain, where the library's bytes and hex digits are those of the two secrets.
    pub parse_note_string-to_note_string :
        (currency amount : Text) (chain_id : ℕ)
        → Of is_currency currency
        → Of is_amount amount
        → parse_note_string codec (
            to_note_string codec
              (note_of_bytes codec nullifier secret n s)
              currency
              amount
              chain_id)
          ≡ some (record {
            note = note_of_bytes codec nullifier secret n s;
            currency = currency;
            amount = amount;
            chain_id = chain_id;
          })
    unfolding parse_note_string to_note_string note_of_bytes
    parse_note_string-to_note_string currency amount chain_id c a =
        let note = note_of_bytes codec nullifier secret n s in
        let tail = decimal chain_id ++ (b'-' ∷ codec.to_hex note.preimage) in
        let chain_digits : Of is_digit (decimal chain_id) =
          (decimal-IsDigits chain_id, decimal-ne_nil chain_id) in
        let trimmed =
          trim-NoSpace (to_note_string codec note currency amount chain_id)
            (string-NoSpace currency amount chain_id c a) in
        let e1 : after_prefix (codes "tornado-")
              (trim (to_note_string codec note currency amount chain_id))
            ≡ some (currency ++ (b'-' ∷ (amount ++ (b'-' ∷ tail)))) =
          ap (after_prefix (codes "tornado-")) trimmed ∙ after_tornado _ in
        let e2 = group-dash is_currency currency (amount ++ (b'-' ∷ tail)) no_dash.0 c in
        let e3 = group-dash is_amount amount tail no_dash.1 a in
        let e4 =
          group-dash is_digit (decimal chain_id) (codec.to_hex note.preimage) no_dash.2
            chain_digits in
        let e5 : hex_part (codec.to_hex note.preimage) ≡ some hex =
          ap hex_part kept.in_hex.written ∙ hex_part-hex hex sized kept.in_hex.digits in
        rw (e1, parse_note_string) (rw e2 (rw e3 (rw e4 (rw e5 (parsed currency amount chain_id)))))

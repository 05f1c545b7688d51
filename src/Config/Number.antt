-- ===== src/Config/Number.antt =====
-- `BigInt(s)` on any text: spaces around are dropped, nothing is zero, and what is left is a decimal
-- number with at most a sign or, after `0x`, `0o` or `0b`, a number in that radix.
use tornado_4337_relayer.Base.{
  ℕ, ◌+◌, ◌-◌, ◌*◌, Bool, true, false, ◌&&◌, ◌||◌, Option, none, some, [], ◌∷◌, zero, suc, leb, ltb,
  ◌==◌, take, drop, if◌then◌else◌,
}
use tornado_4337_relayer.Base.Text.{Text, codes, text_eq}
use tornado_4337_relayer.Base.Trim.{trim}
use tornado_4337_relayer.Base.Integer.{ℤ, pos, negsuc}

unfoldable pub digit_value : ℕ → Option ℕ
digit_value c =
    if leb b'0' c && leb c b'9'
    then some (c - b'0')
    else if leb b'a' c && leb c b'z'
    then some (c - b'a' + 10)
    else if leb b'A' c && leb c b'Z'
    then some (c - b'A' + 10)
    else none

unfoldable pub radix_from : ℕ → ℕ → Text → Option ℕ
unfolding digit_value
radix_from radix acc [] = some acc
radix_from radix acc (c ∷ s) = elim (digit_value c) [
  | none ↦ none
  | some d ↦ elim (ltb d radix) [ true ↦ radix_from radix (acc * radix + d) s | false ↦ none ]
]

-- at least one digit
unfoldable pub digits_in : ℕ → Text → Option ℕ
unfolding radix_from
digits_in radix [] = none
digits_in radix (c ∷ s) = radix_from radix 0 (c ∷ s)

unfoldable pub as_positive : Option ℕ → Option ℤ
as_positive none = none
as_positive (some n) = some (pos n)

unfoldable pub as_negative : Option ℕ → Option ℤ
as_negative none = none
as_negative (some zero) = some (pos 0)
as_negative (some (suc n)) = some (negsuc n)

abbrev prefix_of : Text → Text → Text → Bool
prefix_of s lower upper = text_eq (take 2 s) lower || text_eq (take 2 s) upper

-- `s` is trimmed and not empty
unfoldable pub integer_literal : ℕ → Text → Option ℤ
unfolding digits_in as_positive as_negative
integer_literal c s =
    let whole = c ∷ s in
    if prefix_of whole (codes "0x") (codes "0X")
    then as_positive (digits_in 16 (drop 2 whole))
    else if prefix_of whole (codes "0o") (codes "0O")
    then as_positive (digits_in 8 (drop 2 whole))
    else if prefix_of whole (codes "0b") (codes "0B")
    then as_positive (digits_in 2 (drop 2 whole))
    else if c == b'-'
    then as_negative (digits_in 10 s)
    else if c == b'+'
    then as_positive (digits_in 10 s)
    else as_positive (digits_in 10 whole)

unfoldable pub string_to_big_int : Text → Option ℤ
unfolding integer_literal
string_to_big_int s = elim (trim s) [ [] ↦ some (pos 0) | c ∷ rest ↦ integer_literal c rest ]

-- ===== src/Price/Fixed.antt =====
-- `FixedPriceSource` and `parseDecimal` of relayer/src/price.ts.
pub mod Form
pub mod Floor
mod Examples
use tornado_4337_relayer.Base.{
  ℕ, Option, none, some, List, [], ◌∷◌, ◌++◌, ◌==◌, take, replicate, if◌then◌else◌,
}
use tornado_4337_relayer.Base.Text.{Text, text_key}
use tornado_4337_relayer.Base.Decimal.{is_digit, big_int}
use tornado_4337_relayer.Base.Trim.{trim}
use tornado_4337_relayer.Base.Dict
use tornado_4337_relayer.Base.Dict.{Dict}
use tornado_4337_relayer.UserOp.{to_lower_case}

-- the longest run of digits, and what follows it
unfoldable pub leading_digits : Text → Text × Text
leading_digits [] = ([], [])
leading_digits (c ∷ s) =
    let (run, rest) = leading_digits s in if is_digit c then (c ∷ run, rest) else ([], c ∷ s)

-- the group `(?:\.(\d+))?` and the end: a dot, a digit and digits to the end
unfoldable pub complete_fraction : Text × Text → Option Text
complete_fraction ([], rest) = none
complete_fraction (d ∷ run, []) = some (d ∷ run)
complete_fraction (d ∷ run, c ∷ rest) = none

unfoldable pub fraction_of : Text → Option Text
unfolding complete_fraction
fraction_of [] = some []
fraction_of (c ∷ s) = if c == b'.' then complete_fraction (leading_digits s) else none

unfoldable pub with_fraction : Text → Option Text → Option (Text × Text)
with_fraction whole none = none
with_fraction [] (some frac) = none
with_fraction (d ∷ run) (some frac) = some (d ∷ run, frac)

-- `/^(\d+)(?:\.(\d+))?$/`, with `frac = ''` where the group took no part
unfoldable pub decimal_parts : Text → Option (Text × Text)
unfolding leading_digits fraction_of with_fraction
decimal_parts s = let (run, rest) = leading_digits s in with_fraction run (fraction_of rest)

-- `(frac + '0'.repeat(decimals)).slice(0, decimals)`
unfoldable pub padded : Text → ℕ → Text
padded frac decimals = take decimals (frac ++ replicate decimals b'0')

unfoldable pub joined : ℕ → Text × Text → Option ℕ
unfolding padded
joined decimals (whole, frac) = big_int (whole ++ padded frac decimals)

-- a text of another form throws
unfoldable pub parse_decimal : Text → ℕ → Option ℕ
unfolding decimal_parts joined
parse_decimal value decimals = elim (decimal_parts (trim value)) [
  | none ↦ none
  | some parts ↦ joined decimals parts
]

-- the constructor: `prices.set(token.toLowerCase(), price)` for each entry in turn
unfoldable pub fixed_prices : List (Text × Text) → Dict Text Text → Dict Text Text
fixed_prices [] prices = prices
fixed_prices ((token, price) ∷ rest) prices =
    fixed_prices rest (Dict.set prices (to_lower_case token) price)

-- `FixedPriceSource.tokenPerEth(token, decimals)`
unfoldable pub fixed_token_per_eth : Dict Text Text → Text → ℕ → Option ℕ
fixed_token_per_eth prices token decimals = elim (Dict.get prices (to_lower_case token)) [
  | none ↦ none
  | some price ↦ parse_decimal price decimals
]

-- ===== src/Base/Decimal.antt =====
-- Numbers written in decimal: `n.toString()` and template literals on one side, `BigInt(s)` on a run
-- of decimal digits on the other.
use Prim.Native.Nat.{ℕ, zero, suc, ◌+◌, ◌-◌, ◌*◌, ◌/◌, ◌%◌, ◌<◌}
use mathlib.Core.Path.{◌≡◌, refl, ap, ◌∙◌}
use mathlib.Core.Logic.{inl, inr}
use mathlib.Core.Bool.{Bool, true, ◌&&◌}
use mathlib.Core.Option.{Option, none, some}
use mathlib.Core.List.{[], ◌∷◌, ◌++◌}
use native.Mathlib.Omega.{arith}
use tornado_4337_relayer.Base.Tests.{leb, ltb, Bool-cases, if◌then◌else◌}
use tornado_4337_relayer.Base.Lists.{length, length-append, All}
use tornado_4337_relayer.Base.Text.{Text}

unfoldable pub is_digit : ℕ → Bool
is_digit c = leb b'0' c && leb c b'9'

-- `BigInt(s)` where `s` is a run of decimal digits, which is all that the program prints. The other
-- spellings that `BigInt` reads (hexadecimal, spaces around, a sign, the empty string) are `none`.
digits_from : ℕ → Text → Option ℕ
digits_from acc [] = some acc
digits_from acc (c ∷ s) =
    let rest = digits_from (acc * 10 + (c - b'0')) s in if is_digit c then rest else none

unfoldable pub big_int : Text → Option ℕ
unfolding digits_from is_digit
big_int [] = none
big_int (c ∷ s) = digits_from 0 (c ∷ s)

-- With `n < 10 ^ fuel` the fuel is enough: see `big_int-decimal`.
decimal_from : ℕ → ℕ → Text
decimal_from zero n = []
decimal_from (suc fuel) n =
    let high = decimal_from fuel (n / 10) in
    if ltb n 10 then (b'0' + n) ∷ [] else high ++ (b'0' + n % 10) ∷ []

unfoldable pub decimal : ℕ → Text
unfolding decimal_from
decimal n = decimal_from (suc n) n

digits_from-concat :
    (acc n c : ℕ) (s : Text)
    → digits_from acc s ≡ some n
    → c < 10
    → digits_from acc (s ++ (b'0' + c) ∷ []) ≡ some (n * 10 + c)
unfolding digits_from is_digit
digits_from-concat acc n c [] h lt = ground arith
digits_from-concat acc n c (d ∷ s) h lt =
    ground (arith, digits_from-concat (acc * 10 + (d - b'0')) n c s)

digits_from-decimal_from : (fuel n : ℕ) → n < fuel → digits_from 0 (decimal_from fuel n) ≡ some n
unfolding decimal_from
digits_from-decimal_from zero n h = elim h [ ]
digits_from-decimal_from (suc fuel) n h = elim (Bool-cases (ltb n 10)) [
  | inl small ↦ rw small (
      digits_from-concat 0 0 n [] (unfold digits_from in refl) (ground arith)
      ∙ ap some (omega arith))
  | inr large ↦ rw large (
      digits_from-concat 0 (n / 10) (n % 10) (decimal_from fuel (n / 10))
        (digits_from-decimal_from fuel (n / 10) (ground arith)) (omega arith)
      ∙ ap some (omega arith))
]

decimal_from_pos : (fuel n : ℕ) → 0 < length (decimal_from (suc fuel) n)
unfolding decimal_from
decimal_from_pos fuel n =
    ground (arith, length-append (decimal_from fuel (n / 10)) ((b'0' + n % 10) ∷ []))

big_int_of_digits :
    (s : Text) (n : ℕ) → 0 < length s → digits_from 0 s ≡ some n → big_int s ≡ some n
unfolding big_int
big_int_of_digits [] n h e = absurd (omega arith)
big_int_of_digits (c ∷ s) n h e = e

-- Reading back what was printed gives the number.
pub big_int-decimal : (n : ℕ) → big_int (decimal n) ≡ some n
unfolding decimal
big_int-decimal n =
    big_int_of_digits (decimal_from (suc n) n) n (decimal_from_pos n n)
      (digits_from-decimal_from (suc n) n (omega arith))

pub decimal_injective : (m n : ℕ) → decimal m ≡ decimal n → m ≡ n
decimal_injective m n e = ground (arith, ap big_int e, big_int-decimal m, big_int-decimal n)

abbrev pub IsDigits : Text → Type 0
IsDigits = All λ c. is_digit c ≡ true

IsDigits-concat : (s : Text) (c : ℕ) → IsDigits s → is_digit c ≡ true → IsDigits (s ++ c ∷ [])
IsDigits-concat [] c h d = (d, tt)
IsDigits-concat (a ∷ s) c (p, h) d = (p, IsDigits-concat s c h d)

decimal_from-IsDigits : (fuel n : ℕ) → IsDigits (decimal_from fuel n)
unfolding decimal_from is_digit
decimal_from-IsDigits zero n = tt
decimal_from-IsDigits (suc fuel) n = ground (
  arith,
  IsDigits-concat (decimal_from fuel (n / 10)) (b'0' + n % 10) (decimal_from-IsDigits fuel (n / 10))
      (unfold is_digit in ground arith),
)

pub decimal-IsDigits : (n : ℕ) → IsDigits (decimal n)
unfolding decimal
decimal-IsDigits n = decimal_from-IsDigits (suc n) n

-- What follows the first dash is determined, when only digits stand before it.
pub after_dash :
    (a b s t : Text) → IsDigits a → IsDigits b → a ++ (b'-' ∷ s) ≡ b ++ (b'-' ∷ t) → s ≡ t
unfolding is_digit
after_dash [] [] s t ha hb e = cc
after_dash (x ∷ a) (y ∷ b) s t ha hb e = after_dash a b s t ha.1 hb.1 (cc)
after_dash [] (y ∷ b) s t ha hb e = absurd (ground arith)
after_dash (x ∷ a) [] s t ha hb e = absurd (ground arith)

-- The number that a run of digits spells, after the digits of `acc`.
abbrev pub number_from : ℕ → Text → ℕ
number_from acc [] = acc
number_from acc (c ∷ s) = number_from (acc * 10 + (c - b'0')) s

digits_from-number_from :
    (acc : ℕ) (s : Text) → IsDigits s → digits_from acc s ≡ some (number_from acc s)
unfolding digits_from
digits_from-number_from acc [] h = refl
digits_from-number_from acc (c ∷ s) h =
    ground (arith, digits_from-number_from (acc * 10 + (c - b'0')) s h.1)

pub big_int-IsDigits : (s : Text) → IsDigits s → 0 < length s → big_int s ≡ some (number_from 0 s)
unfolding big_int
big_int-IsDigits [] h some_digit = absurd (omega arith)
big_int-IsDigits (c ∷ s) h some_digit = digits_from-number_from 0 (c ∷ s) h

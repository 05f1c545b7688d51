-- ===== src/Price/Fixed/Floor.antt =====
-- The number that `parseDecimal` reads.
use native.Mathlib.Nat.{mul-div-mul_right, mul_assoc, div-eq_of_lt-le, pow-suc}
use mathlib.Core.Path.{subst}
use tornado_4337_relayer.Base.{
  ℕ, zero, suc, ◌+◌, ◌-◌, ◌*◌, ◌/◌, ◌^◌, ◌≤◌, ◌<◌, ◌≡◌, ◌↔◌, inl, inr, refl, sym, ap, ◌∙◌, arith,
  some, [], ◌∷◌, ◌++◌, length, take, replicate, length-append, All-append, true, Option-cases,
}
use tornado_4337_relayer.Base.Text.{Text}
use tornado_4337_relayer.Base.Decimal.{is_digit, IsDigits, number_from, big_int-IsDigits}
use tornado_4337_relayer.Base.Trim.{trim}
use tornado_4337_relayer.Price.Fixed.Form.{
  IsDecimal, decimal_parts-IsDecimal, IsDecimal-decimal_parts,
}
use tornado_4337_relayer.Price.Fixed.{decimal_parts, padded, joined, parse_decimal}

number_from-append :
    (acc : ℕ) (s t : Text) → number_from acc (s ++ t) ≡ number_from (number_from acc s) t
number_from-append acc [] t = refl
number_from-append acc (c ∷ s) t = number_from-append (acc * 10 + (c - b'0')) s t

number_from-lt : (acc : ℕ) (s : Text) → IsDigits s → number_from acc s < (acc + 1) * 10 ^ length s
unfolding is_digit
number_from-lt acc [] h = omega arith
number_from-lt acc (c ∷ s) h =
    let d = c - b'0' in
    let small : d < 10 = ground arith in
    let p = 10 ^ length s in
    let ih = number_from-lt (acc * 10 + d) s h.1 in rw (pow-suc 10 (length s)) (grind arith)

number_from_le : (acc : ℕ) (s : Text) → acc * 10 ^ length s ≤ number_from acc s
number_from_le acc [] = omega arith
number_from_le acc (c ∷ s) =
    let ih = number_from_le (acc * 10 + (c - b'0')) s in rw (pow-suc 10 (length s)) (grind arith)

take-zeros :
    (e n m : ℕ) (s : Text)
    → e ≤ n
    → e ≤ m
    → take e (s ++ replicate n b'0') ≡ take e (s ++ replicate m b'0')
take-zeros zero n m s hn hm = refl
take-zeros (suc e) (suc n) (suc m) [] hn hm =
    ap (λ t. b'0' ∷ t) (take-zeros e n m [] (omega arith) (omega arith))
take-zeros (suc e) n m (c ∷ s) hn hm =
    ap (λ t. c ∷ t) (take-zeros e n m s (omega arith) (omega arith))
take-zeros (suc e) zero m [] hn hm = absurd (omega arith)
take-zeros (suc e) (suc n) zero [] hn hm = absurd (omega arith)

number_from-zeros : (acc d : ℕ) → number_from acc (take d (replicate d b'0')) ≡ acc * 10 ^ d
number_from-zeros acc zero = omega arith
number_from-zeros acc (suc d) = rw (pow-suc 10 d) (number_from-zeros (acc * 10 + 0) d ∙ grind arith)

padded-suc : (d : ℕ) (s : Text) → take d (s ++ replicate (suc d) b'0') ≡ padded s d
unfolding padded
padded-suc d s = take-zeros d (suc d) d s (omega arith) (omega arith)

-- The fraction, padded and cut to `d` digits behind `acc`: the number that all its digits spell,
-- rounded down to `d` of them.
number_from-padded :
    (acc d : ℕ) (f : Text)
    → IsDigits f
    → number_from acc (padded f d) ≡ number_from acc f * 10 ^ d / 10 ^ length f
unfolding padded
number_from-padded acc d [] h = number_from-zeros acc d ∙ omega arith
number_from-padded acc zero (c ∷ s) h = sym (
    ap (λ x. x / 10 ^ suc (length s)) (omega arith)
    ∙ div-eq_of_lt-le (10 ^ suc (length s)) (number_from_le acc (c ∷ s))
        (number_from-lt acc (c ∷ s) h))
number_from-padded acc (suc d) (c ∷ s) h =
    let here = acc * 10 + (c - b'0') in
    let n = number_from here s in
    ap (number_from here) (padded-suc d s)
    ∙ number_from-padded here d s h.1
    ∙ sym (mul-div-mul_right {m = 10} (n * 10 ^ d) (10 ^ length s) (omega arith))
    ∙ rw (pow-suc 10 d, pow-suc 10 (length s))
        (ap (λ x. x / (10 ^ length s * 10)) (mul_assoc n (10 ^ d) 10))

padded-IsDigits : (f : Text) (d : ℕ) → IsDigits f → IsDigits (padded f d)
unfolding padded is_digit
padded-IsDigits f zero h = tt
padded-IsDigits [] (suc d) h = (refl, padded-IsDigits [] d h)
padded-IsDigits (c ∷ s) (suc d) (p, h) =
    (p, subst IsDigits (sym (padded-suc d s)) (padded-IsDigits s d h))

joined_lem :
    (d : ℕ) (whole frac : Text)
    → IsDigits whole
    → 0 < length whole
    → IsDigits frac
    → joined d (whole, frac) ≡ some (number_from 0 (whole ++ frac) * 10 ^ d / 10 ^ length frac)
unfolding joined
joined_lem d w f hw some_digit hf =
    big_int-IsDigits (w ++ padded f d)
      (All-append (λ c. is_digit c ≡ true) w (padded f d) hw (padded-IsDigits f d hf))
      (omega (arith, length-append w (padded f d)))
    ∙ ap some (
        number_from-append 0 w (padded f d)
        ∙ number_from-padded (number_from 0 w) d f hf
        ∙ ap (λ x. x * 10 ^ d / 10 ^ length f) (sym (number_from-append 0 w f)))

-- What `parseDecimal` reads: the digits of `whole` and `frac` as one number, scaled to `decimals`
-- places and rounded down.
pub record Floored (value : Text) (decimals n : ℕ) : Type 0 where
  pub whole : Text
  pub frac : Text
  pub form : IsDecimal (trim value) whole frac
  pub floor : n ≡ number_from 0 (whole ++ frac) * 10 ^ decimals / 10 ^ length frac

parse_decimal_parts :
    (value : Text) (decimals : ℕ) (parts : Text × Text)
    → decimal_parts (trim value) ≡ some parts
    → parse_decimal value decimals ≡ joined decimals parts
unfolding parse_decimal
parse_decimal_parts value decimals parts e = rw (e, parse_decimal) refl

-- `parseDecimal` returns a number exactly when the trimmed text is digits, or digits, a dot and
-- digits; and the number is the decimal that they spell times ten to the power of `decimals`,
-- rounded down.
pub parse_decimal_iff :
    (value : Text) (decimals n : ℕ)
    → (parse_decimal value decimals ≡ some n) ↔ Floored value decimals n
unfolding parse_decimal
parse_decimal_iff value decimals n = (
  λ e. elim (Option-cases (decimal_parts (trim value))) [
    | inl no_match ↦ cc (rw (no_match, parse_decimal) at e)
    | inr ((w, f), is) ↦
        let form = decimal_parts-IsDecimal (trim value) w f is in
        let read = joined_lem decimals w f form.whole_digits form.some_digit form.frac_digits in
        let e1 = rw (is, parse_decimal) at e in
        record { whole = w; frac = f; form = form; floor = cc }
  ],
  λ f.
      let parts = IsDecimal-decimal_parts (trim value) f.whole f.frac f.form in
      let read =
        joined_lem decimals f.whole f.frac f.form.whole_digits f.form.some_digit
          f.form.frac_digits in
      parse_decimal_parts value decimals (f.whole, f.frac) parts ∙ read ∙ ap some (sym f.floor),
)

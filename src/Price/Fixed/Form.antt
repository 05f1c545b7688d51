-- ===== src/Price/Fixed/Form.antt =====
-- The texts that the pattern of `parseDecimal` matches.
use mathlib.Core.List.{append-nil}
use mathlib.Core.Path.{subst}
use tornado_4337_relayer.Base.{
  ℕ, ◌<◌, ◌≡◌, ◌≢◌, inl, inr, refl, sym, ap, ◌∙◌, arith, Option, none, some, [], ◌∷◌, ◌++◌, ◌==◌,
  length, false, Bool-cases,
}
use tornado_4337_relayer.Base.Text.{Text}
use tornado_4337_relayer.Base.Decimal.{is_digit, IsDigits}
use tornado_4337_relayer.Price.Fixed.{
  leading_digits, complete_fraction, fraction_of, with_fraction, decimal_parts,
}

-- a text that does not begin with a digit
pub data Stops : Text → Type 0 where
  at_end : Stops []
  at_other : {c : ℕ} {s : Text} → is_digit c ≡ false → Stops (c ∷ s)

leading_digits_lem :
    (s : Text)
    → (s ≡ (leading_digits s).0 ++ (leading_digits s).1)
      × IsDigits (leading_digits s).0
      × Stops (leading_digits s).1
unfolding leading_digits
leading_digits_lem [] = (refl, tt, at_end)
leading_digits_lem (c ∷ s) =
    let (whole, digits, stops) = leading_digits_lem s in
    elim (Bool-cases (is_digit c)) [
      | inl d ↦ rw d (ap (λ t. c ∷ t) whole, (d, digits), stops)
      | inr n ↦ rw n (refl, tt, at_other n)
    ]

leading_digits-append :
    (run rest : Text) → IsDigits run → Stops rest → leading_digits (run ++ rest) ≡ (run, rest)
unfolding leading_digits
leading_digits-append [] [] h at_end = refl
leading_digits-append [] (c ∷ s) h (at_other n) = rw n refl
leading_digits-append (c ∷ run) rest h stops =
    rw (h.0, leading_digits-append run rest h.1 stops) refl

-- `whole` and `frac` are the digits before and after the dot of `t`; with no dot, there are none after.
pub data Spells (t whole frac : Text) : Type 0 where
  without_dot : t ≡ whole → frac ≡ [] → Spells t whole frac
  with_dot : t ≡ whole ++ (b'.' ∷ frac) → frac ≢ [] → Spells t whole frac

pub record IsDecimal (t whole frac : Text) : Type 0 where
  pub whole_digits : IsDigits whole
  pub some_digit : 0 < length whole
  pub frac_digits : IsDigits frac
  pub spells : Spells t whole frac

with_fraction-eq-some :
    (run : Text) (o : Option Text) {w f : Text}
    → with_fraction run o ≡ some (w, f)
    → (run ≡ w) × (o ≡ some f) × (0 < length w)
unfolding with_fraction
with_fraction-eq-some run none e = cc
with_fraction-eq-some [] (some frac) e = cc
with_fraction-eq-some (d ∷ run) (some frac) {w} e =
    let same : d ∷ run ≡ w = cc in (same, cc, subst (λ t. 0 < length t) same (omega arith))

complete_fraction-eq-some :
    (p : Text × Text) {f : Text} → complete_fraction p ≡ some f → (p ≡ (f, [])) × (f ≢ [])
unfolding complete_fraction
complete_fraction-eq-some ([], rest) e = cc
complete_fraction-eq-some (d ∷ run, []) {f} e = (cc, λ no. cc)
complete_fraction-eq-some (d ∷ run, c ∷ rest) e = cc

fraction_of-Spells :
    (rest w f : Text) → fraction_of rest ≡ some f → IsDigits f × Spells (w ++ rest) w f
unfolding fraction_of
fraction_of-Spells [] w f e =
    let same : f ≡ [] = cc in (subst IsDigits (sym same) tt, without_dot (append-nil w) same)
fraction_of-Spells (c ∷ s) w f e = elim (Bool-cases (c == b'.')) [
  | inr n ↦ cc (rw n at e)
  | inl y ↦
      let (parts, ne) = complete_fraction-eq-some (leading_digits s) (rw y at e) in
      let (whole, digits, stops) = leading_digits_lem s in
      let s_is : s ≡ f = whole ∙ ap (λ p. p.0 ++ p.1) parts ∙ append-nil f in
      let dot : c ≡ b'.' = ground arith in
      (
        subst IsDigits (ap (λ p. p.0) parts) digits,
        with_dot (ap (λ t. w ++ t) (ap (λ x. x ∷ s) dot ∙ ap (λ t. b'.' ∷ t) s_is)) ne,
      )
]

pub decimal_parts-IsDecimal :
    (t whole frac : Text) → decimal_parts t ≡ some (whole, frac) → IsDecimal t whole frac
unfolding decimal_parts
decimal_parts-IsDecimal t w f e =
    let (run, rest) = leading_digits t in
    let (same, frac_is, some_digit) =
      with_fraction-eq-some (leading_digits t).0 (fraction_of (leading_digits t).1) e in
    let (split, digits, stops) = leading_digits_lem t in
    let (frac_digits, spells) = fraction_of-Spells (leading_digits t).1 w f frac_is in
    record {
      whole_digits = subst IsDigits same digits;
      some_digit = some_digit;
      frac_digits = frac_digits;
      spells =
          subst (λ u. Spells u w f) (ap (λ r. r ++ (leading_digits t).1) (sym same) ∙ sym split)
            spells;
    }

with_fraction-some : (w f : Text) → 0 < length w → with_fraction w (some f) ≡ some (w, f)
unfolding with_fraction
with_fraction-some [] f h = absurd (omega arith)
with_fraction-some (c ∷ w) f h = refl

fraction_of-digits : (f : Text) → IsDigits f → f ≢ [] → fraction_of (b'.' ∷ f) ≡ some f
unfolding fraction_of complete_fraction
fraction_of-digits [] h ne = absurd (ne refl)
fraction_of-digits (c ∷ f) h ne =
    ap complete_fraction
      (ap leading_digits (sym (append-nil (c ∷ f))) ∙ leading_digits-append (c ∷ f) [] h at_end)

dot_no_digit : is_digit b'.' ≡ false
unfolding is_digit
dot_no_digit = refl

pub IsDecimal-decimal_parts :
    (t whole frac : Text) → IsDecimal t whole frac → decimal_parts t ≡ some (whole, frac)
unfolding decimal_parts
IsDecimal-decimal_parts t w f d = elim d.spells [
  | without_dot same none_after ↦
      let parts : leading_digits t ≡ (w, []) =
        ap leading_digits (same ∙ sym (append-nil w))
        ∙ leading_digits-append w [] d.whole_digits at_end in
      ap (λ p. with_fraction p.0 (fraction_of p.1)) parts
      ∙ unfold fraction_of in
        ap (λ x. with_fraction w (some x)) (sym none_after) ∙ with_fraction-some w f d.some_digit
  | with_dot same ne ↦
      let parts : leading_digits t ≡ (w, b'.' ∷ f) =
        ap leading_digits same
        ∙ leading_digits-append w (b'.' ∷ f) d.whole_digits (at_other dot_no_digit) in
      ap (λ p. with_fraction p.0 (fraction_of p.1)) parts
      ∙ ap (with_fraction w) (fraction_of-digits f d.frac_digits ne)
      ∙ with_fraction-some w f d.some_digit
]

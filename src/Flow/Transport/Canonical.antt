-- ===== src/Flow/Transport/Canonical.antt =====
-- What the canonical shape keeps, and that it is one.
use tornado_4337_relayer.Base.{
  ℕ, zero, suc, ◌+◌, ◌*◌, ◌/◌, ◌%◌, ◌<◌, ◌≡◌, refl, sym, ap, ◌∙◌, arith, true, ◌&&◌, ◌||◌, Option,
  none, some, List, [], ◌∷◌, ◌++◌, ltb, Bool-cases, Option-cases, inl, inr, ◌⊎◌,
}
use tornado_4337_relayer.Base.Text.{Text, codes, text_eq}
use tornado_4337_relayer.NoteString.{all_hex, is_hex_digit, after_prefix}
use tornado_4337_relayer.Base.Decimal.{is_digit}
use tornado_4337_relayer.Config.Number.{digit_value, radix_from, digits_in}
use tornado_4337_relayer.Flow.Transport.{
  hex_digit, hex_from, hex_text, JsonValue, text, other, hex_digits_of, rewritten, quantity_text,
  quantity, Auth, Operation, Param, object, plain, is_string, is_missing, kept_factory_data,
  canonical_auth, canonical_operation, canonical_param, canonical,
}

digit_value-hex_digit : (n : ℕ) → n < 16 → digit_value (hex_digit n) ≡ some n
unfolding digit_value hex_digit
digit_value-hex_digit n h = ground arith

radix_from_digit :
    (acc c : ℕ) (s : Text)
    → c < 16
    → radix_from 16 acc (hex_digit c ∷ s) ≡ radix_from 16 (acc * 16 + c) s
unfolding radix_from
radix_from_digit acc c s lt =
    rw (digit_value-hex_digit c lt, radix_from)
      (let below : ltb c 16 ≡ true = ground arith in rw below refl)

radix_from-concat :
    (acc n c : ℕ) (s : Text)
    → radix_from 16 acc s ≡ some n
    → c < 16
    → radix_from 16 acc (s ++ (hex_digit c ∷ [])) ≡ some (n * 16 + c)
unfolding radix_from
radix_from-concat acc n c [] h lt =
    let same : acc ≡ n = cc (h) in radix_from_digit acc c [] lt ∙ ap (λ x. some (x * 16 + c)) same
radix_from-concat acc n c (d ∷ s) h lt = elim (Option-cases (digit_value d)) [
  | inl no_digit ↦ cc (rw (no_digit, radix_from) at h)
  | inr (v, is) ↦ elim (Bool-cases (ltb v 16)) [
    | inr large ↦ cc (rw large at (rw (is, radix_from) at h))
    | inl small ↦
        rw (is, radix_from)
          (rw small
            (radix_from-concat (acc * 16 + v) n c s (rw small at (rw (is, radix_from) at h)) lt))
  ]
]

-- `BigInt` of what `toHex` prints is the number.
radix_from-hex_from : (fuel n : ℕ) → n < fuel → radix_from 16 0 (hex_from fuel n) ≡ some n
unfolding hex_from
radix_from-hex_from zero n h = elim h [ ]
radix_from-hex_from (suc fuel) n h = elim (Bool-cases (ltb n 16)) [
  | inl small ↦ rw small (
      radix_from-concat 0 0 n [] (unfold radix_from in refl) (ground arith) ∙ ap some (omega arith))
  | inr large ↦ rw large (
      radix_from-concat 0 (n / 16) (n % 16) (hex_from fuel (n / 16))
        (radix_from-hex_from fuel (n / 16) (ground arith)) (omega arith)
      ∙ ap some (omega arith))
]

-- Printed digits are the digits of a match.
pub record IsPrinted (s : Text) : Type 0 where
  pub first : ℕ
  pub rest : Text
  pub is : s ≡ first ∷ rest
  pub hex : all_hex s ≡ true

all_hex-concat :
    (s : Text) (c : ℕ) → all_hex s ≡ true → is_hex_digit c ≡ true → all_hex (s ++ (c ∷ [])) ≡ true
unfolding all_hex
all_hex-concat [] c h d = ground arith
all_hex-concat (x ∷ s) c h d = ground (arith, all_hex-concat s c)

hex_digit-is_hex_digit : (n : ℕ) → n < 16 → is_hex_digit (hex_digit n) ≡ true
unfolding is_hex_digit is_digit hex_digit
hex_digit-is_hex_digit n h = ground arith

concat-IsPrinted :
    (s : Text) (c : ℕ) → all_hex s ≡ true → is_hex_digit c ≡ true → IsPrinted (s ++ (c ∷ []))
concat-IsPrinted [] c h d = record {
  first = c;
  rest = [];
  is = refl;
  hex = all_hex-concat [] c h d;
}
concat-IsPrinted (x ∷ s) c h d = record {
  first = x;
  rest = s ++ (c ∷ []);
  is = refl;
  hex = all_hex-concat (x ∷ s) c h d;
}

nothing_hex : all_hex [] ≡ true
unfolding all_hex
nothing_hex = refl

hex_from-IsPrinted : (fuel n : ℕ) → n < fuel → IsPrinted (hex_from fuel n)
unfolding hex_from
hex_from-IsPrinted zero n h = elim h [ ]
hex_from-IsPrinted (suc fuel) n h = elim (Bool-cases (ltb n 16)) [
  | inl small ↦
      rw small
        (concat-IsPrinted [] (hex_digit n) nothing_hex (hex_digit-is_hex_digit n (ground arith)))
  | inr large ↦ rw large (
      concat-IsPrinted (hex_from fuel (n / 16)) (hex_digit (n % 16))
        (hex_from-IsPrinted fuel (n / 16) (ground arith)).hex
        (hex_digit-is_hex_digit (n % 16) (omega arith)))
]

printed_match : (s : Text) → IsPrinted s → hex_digits_of (codes "0x" ++ s) ≡ some s
unfolding hex_digits_of after_prefix text_eq
printed_match [] p = cc (p.is)
printed_match (c ∷ s) p = rw p.hex refl

printed_value :
    (s : Text) (n : ℕ) → IsPrinted s → radix_from 16 0 s ≡ some n → digits_in 16 s ≡ some n
unfolding digits_in
printed_value [] n p e = cc (p.is)
printed_value (c ∷ s) n p e = e

-- A number that is printed as a quantity is read back, and its spelling stays as it is.
pub quantity-hex_text :
    (n : ℕ)
    → (digits_in 16 (hex_from (suc n) n) ≡ some n)
      × (quantity (text (hex_text n)) ≡ text (hex_text n))
unfolding quantity quantity_text rewritten hex_text
quantity-hex_text n =
    let p = hex_from-IsPrinted (suc n) n (omega arith) in
    let value =
      printed_value (hex_from (suc n) n) n p (radix_from-hex_from (suc n) n (omega arith)) in
    (
      value,
      ap (λ o. text (quantity_text (codes "0x" ++ hex_from (suc n) n) o))
            (printed_match (hex_from (suc n) n) p)
          ∙ ap (λ o. text (rewritten (codes "0x" ++ hex_from (suc n) n) o)) value,
    )

rewritten-cases :
    (s : Text) (o : Option ℕ) → (rewritten s o ≡ s) ⊎ ((n : ℕ) × (rewritten s o ≡ hex_text n))
unfolding rewritten
rewritten-cases s none = inl refl
rewritten-cases s (some n) = inr (n, refl)

quantity_text-cases :
    (s : Text) (o : Option Text)
    → (quantity_text s o ≡ s) ⊎ ((n : ℕ) × (quantity_text s o ≡ hex_text n))
unfolding quantity_text
quantity_text-cases s none = inl refl
quantity_text-cases s (some digits) = rewritten-cases s (digits_in 16 digits)

quantity_twice : (v : JsonValue) → quantity (quantity v) ≡ quantity v
unfolding quantity
quantity_twice (other n) = refl
quantity_twice (text s) = elim (quantity_text-cases s (hex_digits_of s)) [
  | inl same ↦ ap (λ t. quantity (text t)) same
  | inr (n, printed) ↦
      ap (λ t. quantity (text t)) printed ∙ (quantity-hex_text n).1 ∙ ap text (sym printed)
]

auth_twice : (a : Option Auth) → canonical_auth (canonical_auth a) ≡ canonical_auth a
unfolding canonical_auth
auth_twice none = refl
auth_twice (some a) = λ i. some (record a {
  chain_id = quantity_twice a.chain_id i;
  nonce = quantity_twice a.nonce i;
  y_parity = quantity_twice a.y_parity i;
})

factory_data_twice :
    (f d : Option JsonValue) → kept_factory_data f (kept_factory_data f d) ≡ kept_factory_data f d
unfolding kept_factory_data
factory_data_twice f d =
    elim (Bool-cases (is_string f (codes "0x7702") && (is_string d (codes "0x") || is_missing d))) [
      | inl dropped ↦ rw dropped (unfold is_string is_missing in ground arith)
      | inr kept ↦ rw kept (rw kept refl)
    ]

operation_twice :
    (op : Operation) → canonical_operation (canonical_operation op) ≡ canonical_operation op
unfolding canonical_operation
operation_twice op = λ i. record op {
  factory_data = factory_data_twice op.factory op.factory_data i;
  auth = auth_twice op.auth i;
}

-- A request in the canonical shape is in the canonical shape.
pub canonical_twice : (params : List Param) → canonical (canonical params) ≡ canonical params
unfolding canonical canonical_param
canonical_twice [] = refl
canonical_twice (object op ∷ params) =
    ap (λ o. object o ∷ canonical (canonical params)) (operation_twice op)
    ∙ ap (λ l. object (canonical_operation op) ∷ l) (canonical_twice params)
canonical_twice (plain v ∷ params) = ap (λ l. plain v ∷ l) (canonical_twice params)

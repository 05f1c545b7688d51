-- ===== src/NoteString/Pieces.antt =====
-- The pieces of a note string, one by one.
use tornado_4337_relayer.Base.{
  ℕ, zero, suc, ◌*◌, ◌≡◌, ◌≢◌, refl, ap, ◌∙◌, arith, Bool, true, false, none, some, [], ◌∷◌, ◌++◌,
  length, take, drop, All,
}
use tornado_4337_relayer.Base.Text.{Text, codes, text_eq}
use tornado_4337_relayer.Base.Decimal.{is_digit, big_int, decimal, big_int-decimal}
use tornado_4337_relayer.Base.Trim.{is_space, NoSpace}
use tornado_4337_relayer.NoteString.{
  Bytes, Codec, is_letter, is_currency, is_amount, is_hex_digit, run_of, dashed, group, all_hex,
  after_prefix, hex_part,
}

abbrev pub Of : (ℕ → Bool) → Text → Type 0
Of p w = All (λ c. p c ≡ true) w × (w ≢ [])

run_of-dash :
    (p : ℕ → Bool) (w rest : Text)
    → p b'-' ≡ false
    → All (λ c. p c ≡ true) w
    → run_of p (w ++ (b'-' ∷ rest)) ≡ (w, b'-' ∷ rest)
unfolding run_of
run_of-dash p [] rest dash h = rw dash refl
run_of-dash p (c ∷ w) rest dash (is, h) = rw (is, run_of-dash p w rest dash h) refl

dashed_run : (w rest : Text) → w ≢ [] → dashed (w, b'-' ∷ rest) ≡ some (w, rest)
unfolding dashed
dashed_run [] rest ne = absurd (ne refl)
dashed_run (c ∷ w) rest ne = refl

pub group-dash :
    (p : ℕ → Bool) (w rest : Text)
    → p b'-' ≡ false
    → Of p w
    → group p (w ++ (b'-' ∷ rest)) ≡ some (w, rest)
unfolding group
group-dash p w rest dash (h, ne) = ap dashed (run_of-dash p w rest dash h) ∙ dashed_run w rest ne

-- What the library does with one number, and with the bytes of one note.
pub record Encodes (codec : Codec) (n : ℕ) (b : Bytes) : Type 0 where
  pub written : codec.to_bytes_le n ≡ some b
  pub read_back : codec.from_bytes_le b ≡ n
  pub size : length b ≡ 31

pub record IsHex (codec : Codec) (b : Bytes) (hex : Text) : Type 0 where
  pub written : codec.to_hex b ≡ codes "0x" ++ hex
  pub read_back : codec.from_hex hex ≡ b
  pub size : length hex ≡ 2 * length b
  pub digits : All (λ c. is_hex_digit c ≡ true) hex

pub take-append : (n : ℕ) (xs ys : Bytes) → length xs ≡ n → take n (xs ++ ys) ≡ xs
take-append zero [] ys e = refl
take-append zero (x ∷ xs) ys e = absurd (omega arith)
take-append (suc n) [] ys e = absurd (omega arith)
take-append (suc n) (x ∷ xs) ys e = ap (λ l. x ∷ l) (take-append n xs ys (omega arith))

pub take-all : (n : ℕ) (xs : Bytes) → length xs ≡ n → take n xs ≡ xs
take-all zero [] e = refl
take-all zero (x ∷ xs) e = absurd (omega arith)
take-all (suc n) [] e = absurd (omega arith)
take-all (suc n) (x ∷ xs) e = ap (λ l. x ∷ l) (take-all n xs (omega arith))

pub drop-append : (n : ℕ) (xs ys : Bytes) → length xs ≡ n → drop n (xs ++ ys) ≡ ys
drop-append zero [] ys e = refl
drop-append zero (x ∷ xs) ys e = absurd (omega arith)
drop-append (suc n) [] ys e = absurd (omega arith)
drop-append (suc n) (x ∷ xs) ys e = drop-append n xs ys (omega arith)

hex-all_hex : (hex : Text) → All (λ c. is_hex_digit c ≡ true) hex → all_hex hex ≡ true
unfolding all_hex
hex-all_hex [] h = refl
hex-all_hex (c ∷ hex) (is, h) = rw (is, hex-all_hex hex h) refl

pub hex_part-hex :
    (hex : Text)
    → length hex ≡ 124
    → All (λ c. is_hex_digit c ≡ true) hex
    → hex_part (codes "0x" ++ hex) ≡ some hex
unfolding hex_part after_prefix text_eq
hex_part-hex hex size h = rw (size, hex-all_hex hex h) refl

pub class-NoSpace :
    (p : ℕ → Bool) (w : Text)
    → ((c : ℕ) → p c ≡ true → is_space c ≡ false)
    → All (λ c. p c ≡ true) w
    → NoSpace w
class-NoSpace p [] h all = tt
class-NoSpace p (c ∷ w) h (is, all) = (h c is, class-NoSpace p w h all)

pub is_currency-no_space : (c : ℕ) → is_currency c ≡ true → is_space c ≡ false
unfolding is_currency is_letter is_digit is_space
is_currency-no_space c h = ground arith

pub is_amount-no_space : (c : ℕ) → is_amount c ≡ true → is_space c ≡ false
unfolding is_amount is_digit is_space
is_amount-no_space c h = ground arith

pub is_hex_digit-no_space : (c : ℕ) → is_hex_digit c ≡ true → is_space c ≡ false
unfolding is_hex_digit is_digit is_space
is_hex_digit-no_space c h = ground arith

pub is_digit-no_space : (c : ℕ) → is_digit c ≡ true → is_space c ≡ false
unfolding is_digit is_space
is_digit-no_space c h = ground arith

pub prefix-NoSpace : NoSpace (codes "tornado-")
unfolding is_space
prefix-NoSpace = (refl, (refl, (refl, (refl, (refl, (refl, (refl, (refl, tt))))))))

pub hex-NoSpace : NoSpace (codes "0x")
unfolding is_space
hex-NoSpace = (refl, (refl, tt))

pub dash_no_space : is_space b'-' ≡ false
unfolding is_space
dash_no_space = refl

pub no_dash : (is_currency b'-' ≡ false) × (is_amount b'-' ≡ false) × (is_digit b'-' ≡ false)
unfolding is_currency is_letter is_amount is_digit
no_dash = (refl, refl, refl)

pub after_tornado : (s : Text) → after_prefix (codes "tornado-") (codes "tornado-" ++ s) ≡ some s
unfolding after_prefix text_eq
after_tornado s = refl

pub decimal-ne_nil : (n : ℕ) → decimal n ≢ []
unfolding big_int
decimal-ne_nil n e = cc (ap big_int e, big_int-decimal n, nothing)
  where
    nothing : big_int [] ≡ none
    nothing = refl

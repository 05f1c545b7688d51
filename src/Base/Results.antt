-- ===== src/Base/Results.antt =====
-- What a function that may throw returns, generic in the error, and `do` blocks over it.
use mathlib.Core.Path.{◌≡◌, refl, ap}
use mathlib.Core.Bool.{Bool, true, false}
use mathlib.Core.Option.{Option, none, some}

pub data Result {ℓ} (E : Type ℓ) (A : Type ℓ) : Type ℓ where
  ok : A → Result E A
  err : E → Result E A

module _ {ℓ} {E : Type ℓ} where
  infixl 5 ◌>>=◌ ◌>>◌
  -- a throw skips what follows
  abbrev pub ◌>>=◌ : {A B : Type ℓ} → Result E A → (A → Result E B) → Result E B
  err thrown >>= next = err thrown
  ok value >>= next = next value

  abbrev pub ◌>>◌ : {B : Type ℓ} → Result E (Unit {ℓ}) → Result E B → Result E B
  check >> rest = check >>= λ _. rest

  -- `if (b) throw e`
  abbrev pub throw_if : Bool → E → Result E (Unit {ℓ})
  throw_if false e = ok tt
  throw_if true e = err e

  -- a value that is not there throws `e`
  abbrev pub or_throw : {A : Type ℓ} → Option A → E → Result E A
  or_throw (some value) e = ok value
  or_throw none e = err e

  pub throw_if-eq-ok : (b : Bool) (e : E) {u : Unit {ℓ}} → throw_if b e ≡ ok u → b ≡ false
  throw_if-eq-ok true e h = cc
  throw_if-eq-ok false e h = refl

  -- A statement after a guard that did not throw.
  pub throws-eq-ok :
      {A : Type ℓ} (b : Bool) (e : E) (rest : Result E A) {a : A}
      → (throw_if b e >> rest) ≡ ok a
      → (b ≡ false) × (rest ≡ ok a)
  throws-eq-ok true e rest h = cc
  throws-eq-ok false e rest h = (refl, h)

  pub or_throw-eq-ok :
      {A : Type ℓ} (o : Option A) (e : E) {a : A} → or_throw o e ≡ ok a → o ≡ some a
  or_throw-eq-ok none e h = cc
  or_throw-eq-ok (some value) e h = cc

  -- A chain that returns has had a value from its first link.
  pub >>=-eq-ok :
      {A B : Type ℓ} (first : Result E A) (next : A → Result E B) {returned : B}
      → (first >>= next) ≡ ok returned
      → (value : A) × (first ≡ ok value) × (next value ≡ ok returned)
  >>=-eq-ok (err thrown) next h = cc
  >>=-eq-ok (ok value) next h = (value, refl, h)

  pub >>=-known :
      {A B : Type ℓ} (first : Result E A) (next : A → Result E B) {value : A}
      → first ≡ ok value
      → (first >>= next) ≡ next value
  >>=-known first next e = ap (λ r. r >>= next) e

  pub ok_injective : {A : Type ℓ} (a b : A) → ◌≡◌ {A = Result E A} (ok a) (ok b) → a ≡ b
  ok_injective a b h = cc

-- ===== src/Base/Step.antt =====
-- A method that reads and writes the state of its object and may throw. What was written before a
-- throw stays.
use mathlib.Core.Path.{◌≡◌, refl, sym, ap, ◌∙◌}
use tornado_4337_relayer.Base.Results.{Result, ok, err}

abbrev pub Step : Type 0 → Type 0 → Type 0 → Type 0
Step S E A = S → Result E A × S

module _ {S E A : Type 0} where
  abbrev pub pure : A → Step S E A
  pure a s = (ok a, s)

  -- code that does not touch the state
  abbrev pub lift : Result E A → Step S E A
  lift r s = (r, s)

  abbrev pub gets : (S → Result E A) → Step S E A
  gets f s = (f s, s)

module _ {S E A B : Type 0} where
  abbrev pub continue : Result E A → (A → Step S E B) → Step S E B
  continue (ok a) f s = f a s
  continue (err e) f s = (err e, s)

  infixl 5 ◌>>=◌ ◌>>◌
  abbrev pub ◌>>=◌ : Step S E A → (A → Step S E B) → Step S E B
  ◌>>=◌ m f s = let (r, s') = m s in continue r f s'

  abbrev pub ◌>>◌ : Step S E A → Step S E B → Step S E B
  m >> n = m >>= λ _. n

  linked :
      (r : Result E A × S) (f : A → Step S E B) {s' : S} {b : B}
      → continue (r.0) f (r.1) ≡ (ok b, s')
      → (a : A) × (t : S) × (r ≡ (ok a, t)) × (f a t ≡ (ok b, s'))
  linked (ok a, t) f e = (a, t, refl, e)
  linked (err e', t) f e = cc

  -- A chain that ends without a throw, link by link.
  pub act->>=-eq-ok :
      (m : Step S E A) (f : A → Step S E B) {s s' : S} {b : B}
      → (m >>= f) s ≡ (ok b, s')
      → (a : A) × (t : S) × (m s ≡ (ok a, t)) × (f a t ≡ (ok b, s'))
  act->>=-eq-ok m f {s = s} e = linked (m s) f e

  -- The same where the first link does not touch the state.
  pub lift->>=-eq-ok :
      (r : Result E A) (f : A → Step S E B) {s s' : S} {b : B}
      → (lift r >>= f) s ≡ (ok b, s')
      → (a : A) × (r ≡ ok a) × (f a s ≡ (ok b, s'))
  lift->>=-eq-ok (ok a) f e = (a, refl, e)
  lift->>=-eq-ok (err e') f e = cc

  -- A link that is known not to throw.
  pub act->>=-known :
      (m : Step S E A) (f : A → Step S E B) (s t : S) {a : A} {y : Result E B × S}
      → m s ≡ (ok a, t)
      → (m >>= f) s ≡ y
      → f a t ≡ y
  act->>=-known m f s t known e = sym (ap (λ x. continue (x.0) f (x.1)) known) ∙ e

  pub act->>=-make :
      (m : Step S E A) (f : A → Step S E B) (s t : S) {a : A}
      → m s ≡ (ok a, t)
      → (m >>= f) s ≡ f a t
  act->>=-make m f s t known = ap (λ x. continue (x.0) f (x.1)) known

  pub act->>=-err :
      (m : Step S E A) (f : A → Step S E B) (s t : S) {e : E}
      → m s ≡ (err e, t)
      → (m >>= f) s ≡ (err e, t)
  act->>=-err m f s t failed = ap (λ x. continue (x.0) f (x.1)) failed

  pub lift->>=-err :
      (r : Result E A) (f : A → Step S E B) (s : S) {e : E}
      → r ≡ err e
      → (lift r >>= f) s ≡ (err e, s)
  lift->>=-err r f s failed = rw failed refl

pub pure-eq-ok :
    {S E A : Type 0} (a b : A) {s t : S}
    → ◌≡◌ {A = Result E A × S} (ok a, s) (ok b, t)
    → (a ≡ b) × (s ≡ t)
pure-eq-ok a b e = (cc, cc)

-- ===== src/Base/Dict.antt =====
-- JavaScript's `Map`: an association list in the order of insertion.
use mathlib.Core.Path.{◌≡◌, refl}
use mathlib.Core.Logic.{inl, inr}
use mathlib.Core.Bool.{Bool}
use mathlib.Core.Option.{Option, none, some}
use mathlib.Core.List.{List, [], ◌∷◌}
use native.Mathlib.Omega.{arith}
use tornado_4337_relayer.Base.Tests.{if◌then◌else◌, Key, Bool-cases}

abbrev pub Dict {ℓ} : Type ℓ → Type ℓ → Type ℓ
Dict K V = List (K × V)

module _ {ℓ} {K V : Type ℓ} ⦃e : Key K⦄ where
  -- `map.get(k)`
  unfoldable pub get : Dict K V → K → Option V
  get [] k = none
  get ((j, v) ∷ d) k = if e.eqb j k then some v else get d k

  -- `map.set(k, v)`: a key that is there keeps its place
  unfoldable pub set : Dict K V → K → V → Dict K V
  set [] k v = (k, v) ∷ []
  set ((j, w) ∷ d) k v = if e.eqb j k then (j, v) ∷ d else (j, w) ∷ set d k v

  -- `map.delete(k)`
  unfoldable pub delete : Dict K V → K → Dict K V
  delete [] k = []
  delete ((j, v) ∷ d) k = if e.eqb j k then delete d k else (j, v) ∷ delete d k

  pub get-set :
      (d : Dict K V) (k j : K) (v : V) → get (set d k v) j ≡ (if e.eqb k j then some v else get d j)
  unfolding get set
  get-set [] k j v = refl
  get-set ((i, w) ∷ d) k j v =
      ground (arith, e.eqb_iff i k, e.eqb_iff i j, e.eqb_iff k j, get-set d k j v)

  pub get-delete :
      (d : Dict K V) (k j : K) → get (delete d k) j ≡ (if e.eqb k j then none else get d j)
  unfolding get delete
  get-delete [] k j = ground arith
  get-delete ((i, w) ∷ d) k j =
      ground (arith, e.eqb_iff i k, e.eqb_iff i j, e.eqb_iff k j, get-delete d k j)

module _ {ℓ} {K V : Type ℓ} where
  -- `[...map.values()]`
  abbrev pub values : Dict K V → List V
  values [] = []
  values ((k, v) ∷ d) = v ∷ values d

  -- `[...map.keys()]`
  abbrev pub keys : Dict K V → List K
  keys [] = []
  keys ((k, v) ∷ d) = k ∷ keys d

  -- `for (const [k, v] of map) if (p(v)) map.delete(k)`: the keys of a map are distinct, so each
  -- deletion takes the entry at hand and no other
  abbrev pub delete_where : (V → Bool) → Dict K V → Dict K V
  delete_where p [] = []
  delete_where p ((k, v) ∷ d) = if p v then delete_where p d else (k, v) ∷ delete_where p d

-- An optional value, dropped if the test holds.
abbrev pub unless {ℓ} : {V : Type ℓ} → (V → Bool) → Option V → Option V
unless p none = none
unless p (some v) = if p v then none else some v

module _ {ℓ} {K V : Type ℓ} ⦃e : Key K⦄ where
  -- The keys of a `Map` are distinct.
  abbrev pub Distinct : Dict K V → Type ℓ
  Distinct [] = Unit
  Distinct ((k, v) ∷ d) = (get d k ≡ none) × Distinct d

  pub set-Distinct : (d : Dict K V) (k : K) (v : V) → Distinct d → Distinct (set d k v)
  unfolding set get
  set-Distinct [] k v h = (refl, tt)
  set-Distinct ((i, w) ∷ d) k v (fresh, h) = elim (Bool-cases (e.eqb i k)) [
    | inl same ↦ rw same (fresh, h)
    | inr other ↦
        rw other
          (ground (arith, get-set d k i v, e.eqb_iff k i, e.eqb_iff i k), set-Distinct d k v h)
  ]

  pub delete-Distinct : (d : Dict K V) (k : K) → Distinct d → Distinct (delete d k)
  unfolding delete
  delete-Distinct [] k h = tt
  delete-Distinct ((i, w) ∷ d) k (fresh, h) = elim (Bool-cases (e.eqb i k)) [
    | inl same ↦ rw same (delete-Distinct d k h)
    | inr other ↦ rw other (ground (arith, get-delete d k i), delete-Distinct d k h)
  ]

  pub get-delete_where :
      (p : V → Bool) (d : Dict K V) (k : K)
      → Distinct d
      → get (delete_where p d) k ≡ unless p (get d k)
  unfolding get
  get-delete_where p [] k h = refl
  get-delete_where p ((i, w) ∷ d) k (fresh, h) =
      ground (arith, get-delete_where p d k h, e.eqb_iff i k)

  pub delete_where-Distinct :
      (p : V → Bool) (d : Dict K V) → Distinct d → Distinct (delete_where p d)
  delete_where-Distinct p [] h = tt
  delete_where-Distinct p ((i, w) ∷ d) (fresh, h) = elim (Bool-cases (p w)) [
    | inl gone ↦ rw gone (delete_where-Distinct p d h)
    | inr kept ↦
        rw kept (ground (arith, get-delete_where p d i h, fresh), delete_where-Distinct p d h)
  ]

pub ruleset dict_laws = (get-set, get-delete)

-- ===== src/Store/Budget.antt =====
-- What `committedGasCost` of relayer/src/service.ts adds up.
use tornado_4337_relayer.Base.{
  ℕ, ◌+◌, ◌≤◌, leb, filter, Bool-cases, ◌≡◌, ◌↔◌, refl, Bool, true, false, ◌&&◌, none, some, List,
  [], ◌∷◌, arith, ltb, Option-cases, inl, inr,
}
use tornado_4337_relayer.Base.Text.{Text, text_eq, text_key}
use tornado_4337_relayer.Base.Dict
use tornado_4337_relayer.Base.Dict.{Dict, values}
use tornado_4337_relayer.Store.{SponsoredNote, known, committed_from, committed_gas_cost}

abbrev pub has_cost : SponsoredNote → Bool
has_cost n = elim n.max_gas_cost_wei [ none ↦ false | some c ↦ true ]

abbrev pub all_cost : List SponsoredNote → Bool
all_cost [] = true
all_cost (n ∷ notes) = has_cost n && all_cost notes

abbrev pub cost : SponsoredNote → ℕ
cost n = elim n.max_gas_cost_wei [ none ↦ 0 | some c ↦ c ]

abbrev pub total_cost : List SponsoredNote → ℕ
total_cost [] = 0
total_cost (n ∷ notes) = cost n + total_cost notes

from_unknown :
    (wei count until total : ℕ) (notes : List SponsoredNote)
    → ltb 0 count ≡ true
    → committed_from wei count until notes ≡ known total
    → true ≡ false
unfolding committed_from
from_unknown wei count until total [] some_unknown e = ground arith
from_unknown wei count until total (n ∷ notes) some_unknown e =
    elim (Option-cases n.max_gas_cost_wei) [
      | inl without ↦
          from_unknown wei (count + 1) _ total notes (ground arith)
            (rw (without, committed_from) at e)
      | inr (c, is) ↦
          from_unknown (wei + c) count until total notes some_unknown (rw (is, committed_from) at e)
    ]

known_of :
    (wei until total : ℕ) (notes : List SponsoredNote)
    → committed_from wei 0 until notes ≡ known total
    → (all_cost notes ≡ true) × (total ≡ wei + total_cost notes)
unfolding committed_from
known_of wei until total [] e = (refl, ground arith)
known_of wei until total (n ∷ notes) e = elim (Option-cases n.max_gas_cost_wei) [
  | inl without ↦
      absurd
        (ground (arith, from_unknown wei 1 _ total notes refl (rw (without, committed_from) at e)))
  | inr (c, is) ↦
      let (all, sum) = known_of (wei + c) until total notes (rw (is, committed_from) at e) in
      (ground arith, ground arith)
]

of_known :
    (wei until : ℕ) (notes : List SponsoredNote)
    → all_cost notes ≡ true
    → committed_from wei 0 until notes ≡ known (wei + total_cost notes)
unfolding committed_from
of_known wei until [] all = ground arith
of_known wei until (n ∷ notes) all = elim (Option-cases n.max_gas_cost_wei) [
  | inl without ↦ absurd (ground arith)
  | inr (c, is) ↦ ground (arith, of_known (wei + c) until notes)
]

-- The liability is known exactly where every entry has a recorded cost, and it is then their sum:
-- one entry without a cost makes the whole unknown, wherever it stands.
pub committed_gas_cost_iff :
    (notes : List SponsoredNote) (total : ℕ)
    → (committed_gas_cost notes ≡ known total)
      ↔ ((all_cost notes ≡ true) × (total ≡ total_cost notes))
unfolding committed_gas_cost
committed_gas_cost_iff notes total = (
  λ e. let (all, sum) = known_of 0 0 total notes e in (all, ground arith),
  λ (all, sum). ground (arith, of_known 0 0 notes all),
)

-- A live note's cost is in the sum.
pub cost-le-total_cost :
    (d : Dict Text SponsoredNote) (k : Text) (n : SponsoredNote) (now : ℕ)
    → Dict.get d k ≡ some n
    → now ≤ n.valid_until
    → cost n ≤ total_cost (filter (λ v. leb now v.valid_until) (values d))
unfolding Dict.get
cost-le-total_cost [] k n now at live = cc
cost-le-total_cost ((j, m) ∷ d) k n now at live = elim (Bool-cases (text_eq j k)) [
  | inl same ↦ ground (arith, rw same at at)
  | inr ne ↦ ground (arith, cost-le-total_cost d k n now (rw ne at at) live)
]

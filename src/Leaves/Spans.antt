-- ===== src/Leaves/Spans.antt =====
-- The deposits of a pool as its contract emits them, and the part of them in a span of blocks.
use mathlib.Core.Path.{subst}
use tornado_4337_relayer.Base.{
  ℕ, ◌+◌, ◌≤◌, ◌≡◌, ap, refl, arith, Bool, true, false, ◌&&◌, List, [], ◌∷◌, ◌++◌, map, filter,
  length, take, ltb, leb, inl, inr, Bool-cases,
}
use tornado_4337_relayer.Leaves.{Event, keep_until}

-- The index counts up from `n`, and the blocks do not go back below `low`.
abbrev pub Emitted : (n low : ℕ) → List Event → Type 0
Emitted n low [] = Unit
Emitted n low (e ∷ l) = (e.leaf_index ≡ n) × (low ≤ e.block) × Emitted (n + 1) e.block l

-- the events of the blocks from `a` to before `c`
abbrev pub in_span : ℕ → ℕ → Event → Bool
in_span a c e = leb a e.block && ltb e.block c

abbrev pub span : ℕ → ℕ → List Event → List Event
span a c l = filter (in_span a c) l

pub span-empty : (l : List Event) (n low a c : ℕ) → Emitted n low l → c ≤ low → span a c l ≡ []
span-empty [] n low a c h below = refl
span-empty (e ∷ l) n low a c (i, o, h) below =
    ground (arith, span-empty l (n + 1) e.block a c h (omega arith))

-- Spans that follow one another.
pub span-append :
    (l : List Event) (n low a b c : ℕ)
    → Emitted n low l
    → a ≤ b
    → b ≤ c
    → span a b l ++ span b c l ≡ span a c l
span-append [] n low a b c h ab bc = refl
span-append (e ∷ l) n low a b c (i, o, h) ab bc = elim (Bool-cases (ltb e.block b)) [
  | inl before ↦ ground (arith, span-append l (n + 1) e.block a b c h ab bc)
  | inr later ↦ ground (
    arith,
    span-append l (n + 1) e.block a b c h ab bc,
    span-empty l (n + 1) e.block a b h (ground arith),
  )
]

-- The indices count up from `n`.
abbrev pub Indexed : ℕ → List Event → Type 0
Indexed n [] = Unit
Indexed n (e ∷ l) = (e.leaf_index ≡ n) × Indexed (n + 1) l

pub renumber : (n m : ℕ) (l : List Event) → n ≡ m → Indexed n l → Indexed m l
renumber n m l e h = subst (λ x. Indexed x l) e h

-- A span starts at the index that counts the events before it.
pub span-Indexed :
    (l : List Event) (n low a c : ℕ)
    → Emitted n low l
    → Indexed (n + length (span 0 a l)) (span a c l)
span-Indexed [] n low a c h = tt
span-Indexed (e ∷ l) n low a c (i, o, h) =
    let ih = span-Indexed l (n + 1) e.block a c h in
    elim (Bool-cases (ltb e.block a)) [
      | inl before ↦
          let skipped : in_span a c e ≡ false = ground arith in
          let counted : in_span 0 a e ≡ true = ground arith in
          rw (skipped, counted) (renumber _ _ _ (omega arith) ih)
      | inr later ↦
          let none_before : span 0 a l ≡ [] = span-empty l (n + 1) e.block 0 a h (ground arith) in
          let not_counted : in_span 0 a e ≡ false = ground arith in
          elim (Bool-cases (ltb e.block c)) [
            | inl within ↦
                let taken : in_span a c e ≡ true = ground arith in
                rw (taken, not_counted, none_before)
                  (omega arith, renumber _ _ _ (omega arith) (rw none_before at ih))
            | inr past ↦
                let skipped : in_span a c e ≡ false = ground arith in
                rw (skipped, span-empty l (n + 1) e.block a c h (ground arith)) tt
          ]
    ]

-- What is kept of a list of blocks that goes on past `head`, and of what stands beside it.
pub take-keep_until :
    {A : Type 0} (f : Event → A) (l : List Event) (n low head c : ℕ)
    → Emitted n low l
    → head + 1 ≤ c
    → take (keep_until head (map (λ e. e.block) (span 0 c l))) (map f (span 0 c l))
      ≡ map f (span 0 (head + 1) l)
take-keep_until f [] n low head c h below = refl
take-keep_until f (e ∷ l) n low head c (i, o, h) below = elim (Bool-cases (leb e.block head)) [
  | inl kept ↦
      let in_both : in_span 0 c e ≡ true = ground arith in
      let in_short : in_span 0 (head + 1) e ≡ true = ground arith in
      rw (in_both, in_short, kept)
        (ap (λ x. f e ∷ x) (take-keep_until f l (n + 1) e.block head c h below))
  | inr cut ↦
      let out : in_span 0 (head + 1) e ≡ false = ground arith in
      let rest = span-empty l (n + 1) e.block 0 (head + 1) h (ground arith) in
      elim (Bool-cases (ltb e.block c)) [
        | inl within ↦
            let in_long : in_span 0 c e ≡ true = ground arith in rw (in_long, out, cut, rest) refl
        | inr past ↦
            let out_long : in_span 0 c e ≡ false = ground arith in
            rw (out_long, out, span-empty l (n + 1) e.block 0 c h (ground arith), rest) refl
      ]
]

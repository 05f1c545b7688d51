-- ===== src/Leaves/Ranges.antt =====
-- The ranges of blocks that are asked for.
use tornado_4337_relayer.Base.{
  ℕ, zero, suc, ◌+◌, ◌-◌, ◌≤◌, ◌<◌, ◌≡◌, refl, arith, List, [], ◌∷◌, ltb, leb, inl, inr, Bool-cases,
  if◌then◌else◌,
}
use tornado_4337_relayer.Leaves.{ranges}

-- The ranges follow one another without a gap or an overlap from `from` to `head`; none is empty,
-- and none has more than `chunk` blocks.
abbrev pub Tiles : (chunk from head : ℕ) → List (ℕ × ℕ) → Type 0
Tiles chunk from head [] = head < from
Tiles chunk from head ((a, b) ∷ rest) =
    (a ≡ from) × (a ≤ b) × (b ≤ head) × (b < a + chunk) × Tiles chunk (b + 1) head rest

ranges-past : (fuel from head chunk : ℕ) → head < from → ranges fuel from head chunk ≡ []
unfolding ranges
ranges-past zero from head chunk past = refl
ranges-past (suc fuel) from head chunk past = ground arith

one_more :
    (fuel from head chunk : ℕ)
    → 0 < chunk
    → from ≤ head
    → Tiles chunk (from + chunk) head (ranges fuel (from + chunk) head chunk)
    → Tiles chunk from head (
        (from, if ltb head (from + chunk - 1) then head else from + chunk - 1)
        ∷ ranges fuel (from + chunk) head chunk)
one_more fuel from head chunk moves below rest = elim (Bool-cases (ltb head (from + chunk - 1))) [
  | inl past ↦
      rw (past, ranges-past fuel (from + chunk) head chunk (ground arith))
        (refl, omega arith, omega arith, ground arith, omega arith)
  | inr within ↦
      let next : from + chunk - 1 + 1 ≡ from + chunk = omega arith in
      rw (within, next) (refl, omega arith, ground arith, omega arith, rest)
]

-- With a positive chunk and as many rounds as there are blocks, the loop ends by its own test: the
-- ranges tile the blocks from the first to the head, each of them at most `chunk` long.
pub ranges-Tiles :
    (fuel from head chunk : ℕ)
    → 0 < chunk
    → head < from + fuel
    → Tiles chunk from head (ranges fuel from head chunk)
unfolding ranges
ranges-Tiles zero from head chunk moves enough = omega arith
ranges-Tiles (suc fuel) from head chunk moves enough = elim (Bool-cases (leb from head)) [
  | inr past ↦ rw past (ground arith)
  | inl below ↦ rw below (
      one_more fuel from head chunk moves (ground arith)
        (ranges-Tiles fuel (from + chunk) head chunk moves (omega arith)))
]

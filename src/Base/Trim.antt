-- ===== src/Base/Trim.antt =====
-- `s.split(c)` and `s.trim()` on JavaScript strings.
use Prim.Native.Nat.{ℕ}
use mathlib.Core.Path.{◌≡◌, refl}
use mathlib.Core.Bool.{Bool, false, ◌||◌, ◌&&◌}
use mathlib.Core.List.{List, [], ◌∷◌}
use tornado_4337_relayer.Base.Tests.{leb, ◌==◌, if◌then◌else◌}
use tornado_4337_relayer.Base.Lists.{All}
use tornado_4337_relayer.Base.Text.{Text}

-- the white space and the line ends that `trim` removes
unfoldable pub is_space : ℕ → Bool
is_space c =
    leb 9 c && leb c 13
    || c == 0x20
    || c == 0xa0
    || c == 0x1680
    || leb 0x2000 c && leb c 0x200a
    || c == 0x2028
    || c == 0x2029
    || c == 0x202f
    || c == 0x205f
    || c == 0x3000
    || c == 0xfeff

unfoldable pub trim_start : Text → Text
trim_start [] = []
trim_start (c ∷ s) = if is_space c then trim_start s else c ∷ s

-- what follows stays if anything but white space does
unfoldable pub trim_end : Text → Text
trim_end [] = []
trim_end (c ∷ s) = elim (trim_end s) [
  | [] ↦ if is_space c then [] else c ∷ []
  | d ∷ kept ↦ c ∷ d ∷ kept
]

unfoldable pub trim : Text → Text
unfolding trim_start trim_end is_space
trim s = trim_end (trim_start s)

-- a character before the first of the pieces
unfoldable pub onto_first : ℕ → List Text → List Text
onto_first c [] = (c ∷ []) ∷ []
onto_first c (piece ∷ pieces) = (c ∷ piece) ∷ pieces

unfoldable pub split_text : ℕ → Text → List Text
unfolding onto_first
split_text separator [] = [] ∷ []
split_text separator (c ∷ s) =
    let pieces = split_text separator s in
    if c == separator then [] ∷ pieces else onto_first c pieces

-- A text without white space is not changed.
abbrev pub NoSpace : Text → Type 0
NoSpace = All (λ c. is_space c ≡ false)

trim_end-NoSpace : (w : Text) → NoSpace w → trim_end w ≡ w
unfolding trim_end
trim_end-NoSpace [] h = refl
trim_end-NoSpace (c ∷ []) (p, h) = rw p refl
trim_end-NoSpace (c ∷ d ∷ w) (p, h) = rw (trim_end-NoSpace (d ∷ w) h) refl

pub trim-NoSpace : (w : Text) → NoSpace w → trim w ≡ w
unfolding trim
trim-NoSpace [] h = refl
trim-NoSpace (c ∷ w) (p, h) = rw p (trim_end-NoSpace (c ∷ w) (p, h))

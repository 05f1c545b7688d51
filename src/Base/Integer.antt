-- ===== src/Base/Integer.antt =====
-- `bigint`, where a difference may be negative.
use Prim.Native.Nat.{ℕ, ◌-◌, ◌+◌}
use tornado_4337_relayer.Base.Tests.{ltb, if◌then◌else◌}

pub data ℤ : Type 0 where
  pos negsuc : ℕ → ℤ

-- `a - b` of two numbers that are not negative
abbrev pub difference : ℕ → ℕ → ℤ
difference a b = if ltb a b then negsuc (b - (a + 1)) else pos (a - b)

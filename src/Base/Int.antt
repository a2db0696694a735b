-- ===== src/Base/Int.antt =====
-- Go's signed int, unbounded, for the numbers that a file or a form may give a negative value.
use Prim.Native.Nat.{ℕ, suc, ◌+◌, ◌-◌}
use mathlib.Core.Bool.{Bool, true, false}
use xal_tor_ka.Base.Tests.{if◌then◌else◌, leb, ltb}

-- `negsuc n` is -(n + 1).
pub data ℤ : Type 0 where
  pos : ℕ → ℤ
  negsuc : ℕ → ℤ

-- a - b
abbrev pub sub_ℕ : ℕ → ℕ → ℤ
sub_ℕ a b = if leb b a then pos (a - b) else negsuc (b - a - 1)

-- a < b
abbrev pub ltb_ℤ : ℤ → ℤ → Bool
ltb_ℤ (pos a) (pos b) = ltb a b
ltb_ℤ (pos a) (negsuc b) = false
ltb_ℤ (negsuc a) (pos b) = true
ltb_ℤ (negsuc a) (negsuc b) = ltb b a

-- a > 0
abbrev pub is_pos : ℤ → Bool
is_pos a = ltb_ℤ (pos 0) a

-- a + b for a natural a, where the result is at least 0; 0 below that
abbrev pub add_clamped : ℕ → ℤ → ℕ
add_clamped a (pos b) = a + b
add_clamped a (negsuc b) = a - suc b

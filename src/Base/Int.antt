-- ===== src/Base/Int.antt =====
-- The `int` of C as integers on the native numbers, with its division, which cuts towards 0.
use Prim.Native.Nat.{ℕ, ◌+◌, ◌-◌, ◌/◌, ◌%◌, ◌<◌}
use mathlib.Core.Path.{◌≡◌}
use native.Mathlib.Omega.{arith}
use native.Mathlib.Nat.{mod-lt}
use hao_sys.Base.Tests.{leb, ltb, if◌then◌else◌}

pub data ℤ : Type 0 where
  pos : ℕ → ℤ
  negsuc : ℕ → ℤ

-- The difference of two naturals.
abbrev pub diff : ℕ → ℕ → ℤ
diff a b = if leb b a then pos (a - b) else negsuc (b - a - 1)

-- An integer is its positive part less its negative one.
abbrev pub plus_part : ℤ → ℕ
plus_part (pos n) = n
plus_part (negsuc n) = 0

abbrev pub minus_part : ℤ → ℕ
minus_part (pos n) = 0
minus_part (negsuc n) = n + 1

abbrev pub add : ℤ → ℤ → ℤ
add z w = diff (plus_part z + plus_part w) (minus_part z + minus_part w)

abbrev pub sub : ℤ → ℤ → ℤ
sub z w = diff (plus_part z + minus_part w) (minus_part z + plus_part w)

-- `z / d` and `z % d` for a divisor that is not negative.
abbrev pub tdiv : ℤ → ℕ → ℤ
tdiv z d = diff (plus_part z / d) (minus_part z / d)

abbrev pub tmod : ℤ → ℕ → ℤ
tmod z d = diff (plus_part z % d) (minus_part z % d)

-- `if (z < 0) z = 0; if (z >= bound) z = bound - 1;`
abbrev pub clamp : ℤ → ℕ → ℕ
clamp z bound = if ltb (plus_part z) bound then plus_part z else bound - 1

pub clamp_lt : (z : ℤ) (bound : ℕ) → 0 < bound → clamp z bound < bound
clamp_lt z bound h = ground arith

pub diff_parts : (a b : ℕ) → (plus_part (diff a b) ≡ a - b) × (minus_part (diff a b) ≡ b - a)
diff_parts a b = (ground arith, ground arith)

-- A remainder is small on both sides of 0.
pub tmod_lt : (z : ℤ) (d : ℕ) → 0 < d → (plus_part (tmod z d) < d) × (minus_part (tmod z d) < d)
tmod_lt z d h =
    let (p, q) = diff_parts (plus_part z % d) (minus_part z % d) in
    rw (p, q) (omega (arith, mod-lt (plus_part z) h), omega (arith, mod-lt (minus_part z) h))

-- ===== src/Base/Words.antt =====
-- Machine words as native numbers, and memory as a function from addresses.
use Prim.Native.Nat.{ℕ, ◌+◌, ◌-◌, ◌*◌, ◌%◌, ◌^◌}
use mathlib.Core.Path.{◌≡◌}
use mathlib.Core.Logic.{◌≢◌}
use native.Mathlib.Omega.{arith}
use hao_sys.Base.Tests.{◌==◌, if◌then◌else◌}

-- `uint32_t` sums and differences. `-` on ℕ stops at 0, so the modulus is added first.
abbrev pub add32 : ℕ → ℕ → ℕ
add32 a b = (a + b) % 2 ^ 32

abbrev pub sub32 : ℕ → ℕ → ℕ
sub32 a b = (a + 2 ^ 32 - b) % 2 ^ 32

abbrev pub mul32 : ℕ → ℕ → ℕ
mul32 a b = (a * b) % 2 ^ 32

-- A memory is a function from addresses; a store changes one cell.
abbrev pub Memory : Type 0
Memory = ℕ → ℕ

unfoldable pub store : Memory → ℕ → ℕ → Memory
store m p v a = if a == p then v else m a

pub store_self : (m : Memory) (p v : ℕ) → store m p v p ≡ v
unfolding store
store_self m p v = ground arith

pub store_ne : (m : Memory) (p v a : ℕ) → a ≢ p → store m p v a ≡ m a
unfolding store
store_ne m p v a h = ground arith

-- ===== src/Str.antt =====
-- lib/string.c. Memory is a function from 32-bit addresses to bytes, and an address that is stepped
-- past the end wraps around. A loop that ends at a byte of memory takes fuel, one unit for a byte.
pub mod Text
pub mod Fill
pub mod Copy
mod Tests
use hao_sys.Base.{
  ℕ, zero, suc, ◌+◌, ◌-◌, ◌*◌, ◌%◌, ◌^◌, Bool, true, false, not, ◌&&◌, Option, none, some, Memory,
  store, add32, sub32, ◌==◌, ltb, if◌then◌else◌,
}

unfoldable pub memset : Memory → ℕ → ℕ → ℕ → Memory
memset m p c zero = m
memset m p c (suc n) = memset (store m p (c % 2 ^ 8)) (add32 p 1) c n

unfoldable pub memcpy : Memory → ℕ → ℕ → ℕ → Memory
memcpy m d s zero = m
memcpy m d s (suc n) = memcpy (store m d (m s)) (add32 d 1) (add32 s 1) n

-- An `int`, as its 32 bits.
unfoldable pub memcmp : Memory → ℕ → ℕ → ℕ → ℕ
memcmp m p q zero = 0
memcmp m p q (suc n) =
    let rest = memcmp m (add32 p 1) (add32 q 1) n in if m p == m q then rest else sub32 (m p) (m q)

unfoldable pub strlen : ℕ → Memory → ℕ → Option ℕ
strlen zero m s = none
strlen (suc fuel) m s =
    let rest = strlen fuel m (add32 s 1) in
    if m s == 0 then some 0 else elim rest [ none ↦ none | some n ↦ some (add32 n 1) ]

-- A `char` is signed; as an `int` it keeps its sign.
abbrev pub extend : ℕ → ℕ
extend c = if ltb c (2 ^ 7) then c else c + (2 ^ 32 - 2 ^ 8)

abbrev pub char_diff : ℕ → ℕ → ℕ
char_diff c d = sub32 (extend c) (extend d)

unfoldable pub strcmp : ℕ → Memory → ℕ → ℕ → Option ℕ
strcmp zero m p q = none
strcmp (suc fuel) m p q =
    let rest = strcmp fuel m (add32 p 1) (add32 q 1) in
    if not (m p == 0) && (not (m q == 0) && (m p == m q))
    then rest
    else some (char_diff (m p) (m q))

-- Where `n--` has counted past 0, the loop is over and the result is 0.
unfoldable pub strncmp : Memory → ℕ → ℕ → ℕ → ℕ
strncmp m p q zero = 0
strncmp m p q (suc n) =
    let rest = strncmp m (add32 p 1) (add32 q 1) n in
    if not (m p == 0) && (not (m q == 0) && (m p == m q)) then rest else char_diff (m p) (m q)

unfoldable pub strcpy : ℕ → Memory → ℕ → ℕ → Option Memory
strcpy zero m d s = none
strcpy (suc fuel) m d s =
    let rest = strcpy fuel (store m d (m s)) (add32 d 1) (add32 s 1) in
    if m s == 0 then some (store m d (m s)) else rest

-- The first loop, `while (n-- && *src)`: the memory, the place reached, and `n` as the test left it.
unfoldable pub copy_chars : Memory → ℕ → ℕ → ℕ → Memory × ℕ × ℕ
copy_chars m d s zero = (m, d, 2 ^ 32 - 1)
copy_chars m d s (suc n) =
    let rest = copy_chars (store m d (m s)) (add32 d 1) (add32 s 1) n in
    if m s == 0 then (m, d, n) else rest

unfoldable pub strncpy : Memory → ℕ → ℕ → ℕ → Memory
strncpy m d s n = let (copied, end, left) = copy_chars m d s n in memset copied end 0 left

-- ===== src/Pmm/Bitmap.antt =====
-- mm/pmm.c: the page bitmap, one bit for each page, eight to a byte.
use hao_sys.Base.{
  ℕ, suc, ◌+◌, ◌-◌, ◌*◌, ◌/◌, ◌%◌, ◌^◌, ◌≤◌, ◌<◌, ◌≡◌, ◌≢◌, refl, Bool, true, false, not, ◌&&◌,
  arith, bit_and, bit_or, ltb, leb, ◌==◌, if◌then◌else◌, Memory, store, all_below, all_below_sound,
  Bool-cases, inl, inr, sub32, add32, for_pages, for_pages_rule, min,
}

-- `(bitmap[idx / 8] >> (idx % 8)) & 1`
unfoldable pub get_page_bit : Memory → ℕ → Bool
get_page_bit bitmap idx = bit_and (bitmap (idx / 8) / 2 ^ (idx % 8)) 1 == 1

-- `|= 1 << k` and `&= ~(1 << k)` on a byte.
with_bit : ℕ → ℕ → Bool → ℕ
with_bit b k true = bit_or b (2 ^ k)
with_bit b k false = bit_and b (255 - 2 ^ k)

unfoldable pub set_page_bit : Memory → ℕ → Bool → Memory
unfolding with_bit
set_page_bit bitmap idx available =
    store bitmap (idx / 8) (with_bit (bitmap (idx / 8)) (idx % 8) available)

abbrev pub addr_to_index : ℕ → ℕ
addr_to_index addr = addr / 4096

abbrev pub index_to_addr : ℕ → ℕ
index_to_addr idx = idx * 4096

-- Marks every page of [start, start + length).
unfoldable pub mark_region : ℕ → Memory → ℕ → ℕ → Bool → Memory
unfolding for_pages
mark_region total_pages bitmap start len available =
    if len == 0
    then bitmap
    else for_pages (addr_to_index start) (addr_to_index (sub32 (add32 start len) 1)) total_pages
        (λ i bm. set_page_bit bm i available) bitmap

abbrev pub IsBytes : Memory → Type 0
IsBytes m = (a : ℕ) → m a < 256

same_bool : Bool → Bool → Bool
same_bool true b = b
same_bool false b = not b

same_bool-eq : (a b : Bool) → same_bool a b ≡ true → a ≡ b
unfolding same_bool
same_bool-eq a b h = ground arith

bit_of : ℕ → ℕ → Bool
bit_of b k = bit_and (b / 2 ^ k) 1 == 1

-- One byte: the bit that is set reads back, the others stay, and the result is a byte.
byte_lem : ℕ → ℕ → ℕ → Bool
unfolding same_bool bit_of with_bit
byte_lem b k j =
    same_bool (bit_of (with_bit b k true) j) (if j == k then true else bit_of b j)
    && (same_bool (bit_of (with_bit b k false) j) (if j == k then false else bit_of b j)
        && (ltb (with_bit b k true) 256 && ltb (with_bit b k false) 256))

byte_table : all_below 256 (λ b. all_below 8 (λ k. all_below 8 (λ j. byte_lem b k j))) ≡ true
unfolding all_below byte_lem
byte_table = refl

byte_at : (b k j : ℕ) → b < 256 → k < 8 → j < 8 → byte_lem b k j ≡ true
byte_at b k j hb hk hj =
    all_below_sound 8 _ j (all_below_sound 8 _ k (all_below_sound 256 _ b byte_table hb) hk) hj

bit_of-with_bit :
    (b k j : ℕ) (v : Bool)
    → b < 256
    → k < 8
    → j < 8
    → (bit_of (with_bit b k v) j ≡ (if j == k then v else bit_of b j)) × (with_bit b k v < 256)
unfolding byte_lem
bit_of-with_bit b k j true hb hk hj = ground (arith, byte_at b k j hb hk hj)
bit_of-with_bit b k j false hb hk hj = ground (arith, byte_at b k j hb hk hj)

pub set_page_bit-IsBytes :
    (bm : Memory) (i : ℕ) (v : Bool) → IsBytes bm → IsBytes (set_page_bit bm i v)
unfolding set_page_bit store
set_page_bit-IsBytes bm i v h a =
    ground
      (arith, h a, bit_of-with_bit (bm (i / 8)) (i % 8) 0 v (h (i / 8)) (omega arith) (omega arith))

-- Setting one bit of the map changes that bit and no other.
pub get_page_bit-set_page_bit :
    (bm : Memory) (i j : ℕ) (v : Bool)
    → IsBytes bm
    → get_page_bit (set_page_bit bm i v) j ≡ (if j == i then v else get_page_bit bm j)
unfolding get_page_bit set_page_bit store bit_of
get_page_bit-set_page_bit bm i j v h = ground (
  arith,
  bit_of-with_bit (bm (i / 8)) (i % 8) (j % 8) v (h (i / 8)) (omega arith) (omega arith),
  index_eq,
)
  where
    index_eq : (j / 8 ≡ i / 8) → (j % 8 ≡ i % 8) → j ≡ i
    index_eq p q = omega arith

-- What the map holds once the pages [lo, hi) are marked `v`.
pub record Marked (lo hi : ℕ) (v : Bool) (before after : Memory) : Type 0 where
  pub bytes : IsBytes after
  pub bits :
      (j : ℕ) → get_page_bit after j ≡ (if leb lo j && ltb j hi then v else get_page_bit before j)

Marked-step :
    (lo k : ℕ) (v : Bool) (bm t : Memory)
    → lo ≤ k
    → Marked lo k v bm t
    → Marked lo (suc k) v bm (set_page_bit t k v)
Marked-step lo k v bm t l m = record {
  bytes = set_page_bit-IsBytes t k v m.bytes;
  bits = λ j. ground (arith, get_page_bit-set_page_bit t k j v m.bytes, m.bits j);
}

pub Marked-none : (lo : ℕ) (v : Bool) (bm : Memory) → IsBytes bm → Marked lo lo v bm bm
Marked-none lo v bm h = record { bytes = h; bits = λ j. ground arith }

-- `mark_region` marks the pages from the first to the last of the region that lie in memory.
pub mark_region-Marked :
    (total : ℕ) (bm : Memory) (start len : ℕ) (v : Bool)
    → IsBytes bm
    → len ≢ 0
    → let first = addr_to_index start in
      let last = addr_to_index (sub32 (add32 start len) 1) in
      Marked first (first + (min (last + 1) total - first)) v bm (mark_region total bm start len v)
unfolding mark_region
mark_region-Marked total bm start len v h ne =
    let first = addr_to_index start in
    let last = addr_to_index (sub32 (add32 start len) 1) in
    let marked =
      for_pages_rule (λ k t. Marked first k v bm t) (λ i t. set_page_bit t i v) first last total bm
        (λ k t l _ _ m. Marked-step first k v bm t l m) (Marked-none first v bm h) in
    rw (nonzero len ne) marked
  where
    nonzero : (n : ℕ) → n ≢ 0 → (n == 0) ≡ false
    nonzero n q = ground arith

pub mark_region-IsBytes :
    (total : ℕ) (bm : Memory) (start len : ℕ) (v : Bool)
    → IsBytes bm
    → IsBytes (mark_region total bm start len v)
unfolding mark_region
mark_region-IsBytes total bm start len v h = elim (Bool-cases (len == 0)) [
  | inl e ↦ rw e h
  | inr e ↦ (mark_region-Marked total bm start len v h (ground arith)).bytes
]

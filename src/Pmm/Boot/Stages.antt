-- ===== src/Pmm/Boot/Stages.antt =====
-- The loops of `pmm_init`: what clearing, counting, reserving and linking leave.
use hao_sys.Base.{
  ℕ, zero, suc, ◌+◌, ◌-◌, ◌^◌, ◌≤◌, ◌<◌, ◌≡◌, refl, ap, true, false, ◌&&◌, List, [], ◌∷◌, arith,
  ltb, leb, ◌==◌, ==_iff, if◌then◌else◌, Bool-cases, inl, inr, Memory, store, store_self, add32,
  count_up_rule, for_pages_rule, min, has, Distinct, length,
}
use hao_sys.Pmm.Bitmap.{
  get_page_bit, set_page_bit, set_page_bit-IsBytes, get_page_bit-set_page_bit, IsBytes,
  addr_to_index,
}
use hao_sys.Pmm.{no_page}
use hao_sys.Pmm.Chain.{Chain, Chain-store}
use hao_sys.Pmm.Boot.{clear_bitmap, count_free, take_bit, reserve, push_page, build_list}

store-IsBytes : (m : Memory) (p v : ℕ) → IsBytes m → v < 256 → IsBytes (store m p v)
unfolding store
store-IsBytes m p v h lt a = ground (arith, h a)

pub clear_bitmap-IsBytes : (n : ℕ) (bm : Memory) → IsBytes bm → IsBytes (clear_bitmap n bm)
unfolding clear_bitmap
clear_bitmap-IsBytes n bm h =
    count_up_rule (λ k t. IsBytes t) (λ i t. store t i 0) 0 n n 0 bm
      (λ k t _ _ b. store-IsBytes t k 0 b (omega arith)) (omega arith) (omega arith) h

-- How many of the first `n` pages are free.
unfoldable pub free_below : ℕ → Memory → ℕ
free_below zero bm = 0
free_below (suc n) bm = free_below n bm + (if get_page_bit bm n then 1 else 0)

pub free_below-le : (n : ℕ) (bm : Memory) → free_below n bm ≤ n
unfolding free_below
free_below-le zero bm = omega arith
free_below-le (suc n) bm = ground (arith, free_below-le n bm)

pub count_free-free_below :
    (total : ℕ) (bm : Memory) → total ≤ 2 ^ 20 → count_free total bm ≡ free_below total bm
unfolding count_free free_below
count_free-free_below total bm small =
    count_up_rule (λ k n. n ≡ free_below k bm) (λ i n. if get_page_bit bm i then add32 n 1 else n) 0
      total total 0 0 (λ k n _ lt e. ground (arith, free_below-le k bm)) (omega arith) (omega arith)
      refl

same_bit : (bm : Memory) (n i : ℕ) → (n == i) ≡ true → get_page_bit bm n ≡ get_page_bit bm i
same_bit bm n i h = ap (get_page_bit bm) ((==_iff n i).0 h)

-- Clearing the bit of a free page lowers the count by one.
free_below-clear :
    (n : ℕ) (bm : Memory) (i : ℕ)
    → IsBytes bm
    → get_page_bit bm i ≡ true
    → free_below n (set_page_bit bm i false) + (if ltb i n then 1 else 0) ≡ free_below n bm
unfolding free_below
free_below-clear zero bm i b h = ground arith
free_below-clear (suc n) bm i b h =
    ground (
      arith,
      free_below-clear n bm i b h,
      get_page_bit-set_page_bit bm i n false b,
      same_bit bm n i,
    )

-- The state of a reserving loop that has passed the pages [lo, k).
pub record Reserved (total lo k : ℕ) (bm : Memory) (s : Memory × ℕ) : Type 0 where
  pub bytes : IsBytes s.0
  pub count : s.1 ≡ free_below total s.0
  pub bits :
      (j : ℕ) → get_page_bit s.0 j ≡ (if leb lo j && ltb j k then false else get_page_bit bm j)

Reserved-step :
    (total lo k : ℕ) (bm : Memory) (s : Memory × ℕ)
    → total ≤ 2 ^ 20
    → lo ≤ k
    → k < total
    → Reserved total lo k bm s
    → Reserved total lo (suc k) bm (take_bit k s)
Reserved-step total lo k bm (t, n) small l lt r = elim (Bool-cases (get_page_bit t k)) [
  | inl set ↦ rw set (record {
    bytes = set_page_bit-IsBytes t k false r.bytes;
    count = ground (arith, free_below-clear total t k r.bytes set, free_below-le total t, r.count);
    bits = λ j. ground (arith, get_page_bit-set_page_bit t k j false r.bytes, r.bits j);
  })
  | inr clear ↦ rw clear (record {
    bytes = r.bytes;
    count = r.count;
    bits = λ j. ground (arith, same_bit t j k, r.bits j);
  })
]

-- A reserving loop clears the bits of its pages and no others, and keeps the count in step.
pub reserve-Reserved :
    (total first last : ℕ) (s : Memory × ℕ)
    → total ≤ 2 ^ 20
    → IsBytes s.0
    → s.1 ≡ free_below total s.0
    → let lo = addr_to_index first in
      Reserved total lo
        (lo + (min (addr_to_index last + 1) total - lo))
        s.0
        (reserve total first last s)
unfolding reserve
reserve-Reserved total first last s small b e =
    for_pages_rule (λ k t. Reserved total (addr_to_index first) k s.0 t) take_bit
      (addr_to_index first) (addr_to_index last) total s
      (λ k t l _ lt r. Reserved-step total (addr_to_index first) k s.0 t small l lt r)
      (record { bytes = b; count = e; bits = λ j. ground arith })

-- The links built so far chain the free pages below `k`.
pub record Linked (bm : Memory) (k : ℕ) (s : Memory × ℕ) : Type 0 where
  pub pages : List ℕ
  pub chain : Chain s.0 s.1 pages
  pub distinct : Distinct pages
  pub tracks : (j : ℕ) → has j pages ≡ (ltb j k && get_page_bit bm j)
  pub count : length pages ≡ free_below k bm

Linked-step :
    (bm : Memory) (k : ℕ) (s : Memory × ℕ) → Linked bm k s → Linked bm (suc k) (push_page bm k s)
unfolding free_below
Linked-step bm k (mem, head) l = elim (Bool-cases (get_page_bit bm k)) [
  | inl free ↦
      let out : has k l.pages ≡ false = ground (arith, l.tracks k) in
      rw free (record {
        pages = k ∷ l.pages;
        chain = (refl, rw store_self (Chain-store mem head l.pages k head out l.chain));
        distinct = (out, l.distinct);
        tracks = λ j. ground (arith, l.tracks j, same_bit bm j k);
        count = ground (arith, l.count);
      })
  | inr busy ↦ rw busy (record {
    pages = l.pages;
    chain = l.chain;
    distinct = l.distinct;
    tracks = λ j. ground (arith, l.tracks j, same_bit bm j k);
    count = ground (arith, l.count);
  })
]

-- `build_list` chains exactly the free pages of memory.
pub build_list-Linked : (total : ℕ) (bm mem : Memory) → Linked bm total (build_list total bm mem)
unfolding build_list free_below
build_list-Linked total bm mem =
    count_up_rule (Linked bm) (push_page bm) 0 total total 0 (mem, no_page)
      (λ k t _ _ l. Linked-step bm k t l) (omega arith) (omega arith)
      (record { pages = []; chain = refl; distinct = tt; tracks = λ j. ground arith; count = refl })

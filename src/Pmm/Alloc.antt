-- ===== src/Pmm/Alloc.antt =====
-- `pmm_alloc_page` and `pmm_free_page` keep the free list and the bitmap in step.
use hao_sys.Base.{
  ℕ, ◌≤◌, ◌<◌, ◌≡◌, refl, ap, ◌⊎◌, true, false, List, [], ◌∷◌, arith, ltb, ◌==◌, ==_iff,
  if◌then◌else◌, store_self, has, length,
}
use hao_sys.Pmm.Bitmap.{
  get_page_bit, set_page_bit, set_page_bit-IsBytes, get_page_bit-set_page_bit, addr_to_index,
  index_to_addr,
}
use hao_sys.Pmm.{Pmm, no_page, alloc_page, free_page}
use hao_sys.Pmm.Chain.{FreeList, Chain-store, length-le-bound}

same_has : (j i : ℕ) (xs : List ℕ) → (j == i) ≡ true → has j xs ≡ has i xs
same_has j i xs h = ap (λ t. has t xs) ((==_iff j i).0 h)

-- The list is no longer than memory.
pub FreeList-length : {p : Pmm} (pages : List ℕ) → FreeList p pages → length pages ≤ p.total_pages
FreeList-length {p} pages f =
    length-le-bound p.total_pages pages f.distinct λ j h. ground (arith, f.tracks j)

-- A page on the list lies in memory, and its bit is set.
pub FreeList-at :
    {p : Pmm} (pages : List ℕ) (j : ℕ)
    → FreeList p pages
    → has j pages ≡ true
    → (j < p.total_pages) × (get_page_bit p.bitmap j ≡ true) × (j < no_page)
FreeList-at pages j f h = ground (arith, f.tracks j)

-- With no free page the result is NULL and nothing changes.
pub alloc_page-empty : {p : Pmm} → FreeList p [] → alloc_page p ≡ (0, p)
unfolding alloc_page
alloc_page-empty {p} f =
    let e : (p.free_list_head == no_page) ≡ true = ground (arith, f.chain) in rw e

-- What an allocation hands out and leaves behind.
pub record Taken (p : Pmm) (i : ℕ) (rest : List ℕ) (out : ℕ × Pmm) : Type 0 where
  pub address : out.0 ≡ index_to_addr i
  pub in_memory : i < p.total_pages
  pub was_free : get_page_bit p.bitmap i ≡ true
  pub list : FreeList out.1 rest
  pub bits :
      (j : ℕ) → get_page_bit out.1.bitmap j ≡ (if j == i then false else get_page_bit p.bitmap j)

-- Otherwise the first page of the list is handed out: it was free and lies in memory, its bit is
-- cleared and no other, and the list and the count go on without it.
pub alloc_page-Taken :
    {p : Pmm} (i : ℕ) (rest : List ℕ) → FreeList p (i ∷ rest) → Taken p i rest (alloc_page p)
unfolding alloc_page
alloc_page-Taken {p} i rest f =
    let at = FreeList-at (i ∷ rest) i f (ground arith) in
    let head : p.free_list_head ≡ i = f.chain.0 in
    let more : (p.free_list_head == no_page) ≡ false = ground arith in
    let bits : (j : ℕ)
        → get_page_bit (set_page_bit p.bitmap p.free_list_head false) j
          ≡ (if j == i then false else get_page_bit p.bitmap j) =
      λ j. rw head (get_page_bit-set_page_bit p.bitmap i j false f.bytes) in
    rw more (record {
      address = ap index_to_addr head;
      in_memory = at.0;
      was_free = at.1;
      list = record {
        chain = rw head f.chain.1;
        distinct = f.distinct.1;
        tracks = λ j. ground (arith, bits j, f.tracks j, f.distinct.0, same_has j i rest);
        bytes = set_page_bit-IsBytes p.bitmap p.free_list_head false f.bytes;
        counted = omega (arith, f.counted, FreeList-length (i ∷ rest) f, f.fits);
        fits = f.fits;
      };
      bits = bits;
    })

-- Freeing a page that was handed out puts it in front of the list, sets its bit and counts it.
pub free_page-FreeList :
    {p : Pmm} (pages : List ℕ) (i : ℕ)
    → FreeList p pages
    → i < p.total_pages
    → get_page_bit p.bitmap i ≡ false
    → FreeList (free_page p (index_to_addr i)) (i ∷ pages)
unfolding free_page
free_page-FreeList {p} pages i f lt used =
    let index : addr_to_index (index_to_addr i) ≡ i = omega arith in
    let out : has i pages ≡ false = ground (arith, f.tracks i) in
    let inside : ltb i p.total_pages ≡ true = ground arith in
    rw (index, inside, used)
      (record {
        chain = (
          refl,
          rw store_self (Chain-store p.mem p.free_list_head pages i p.free_list_head out f.chain),
        );
        distinct = (out, f.distinct);
        tracks =
            λ j. ground (arith, get_page_bit-set_page_bit p.bitmap i j true f.bytes, f.tracks j);
        bytes = set_page_bit-IsBytes p.bitmap i true f.bytes;
        counted = omega (arith, f.counted, FreeList-length pages f, f.fits);
        fits = f.fits;
      })

pub free_page-ignored :
    {p : Pmm} (addr : ℕ)
    → (p.total_pages ≤ addr_to_index addr) ⊎ (get_page_bit p.bitmap (addr_to_index addr) ≡ true)
    → free_page p addr ≡ p
unfolding free_page
free_page-ignored addr h = ground arith

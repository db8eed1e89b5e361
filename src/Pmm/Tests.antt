-- ===== src/Pmm/Tests.antt =====
-- The page allocator on a small machine: two free pages, 3 and 5, of eight.
use hao_sys.Base.{
  ℕ, ◌≡◌, ◌≢◌, refl, ◌⊎◌, inl, Bool, true, false, ◌&&◌, some, [], ◌∷◌, arith, ltb, ◌==◌,
  if◌then◌else◌, Memory, store, has, all_below, all_below_sound,
}
use hao_sys.Pmm.Bitmap.{
  get_page_bit, set_page_bit, index_to_addr, mark_region, Marked, mark_region-Marked,
  get_page_bit-set_page_bit,
}
use hao_sys.Pmm.{Pmm, no_page, alloc_page, free_page, alloc_contiguous, scan_run}
use hao_sys.Pmm.Chain.{FreeList}
use hao_sys.Pmm.Alloc.{Taken, alloc_page-Taken, free_page-FreeList, free_page-ignored}
use hao_sys.Pmm.Scan.{IsRun}
use hao_sys.Pmm.Contiguous.{RunTaken, alloc_contiguous_lem}
use hao_sys.Pmm.Boot.{init, started, looping}
use hao_sys.Pmm.Boot.Ready.{IsReady, init-IsReady}
use hao_sys.Pmm.Boot.Ends.{init-ne-looping}

abbrev pub links : Memory
links a = if a == index_to_addr 5 then 3 else if a == index_to_addr 3 then no_page else 0

-- 0b00101000
abbrev pub two_free : Pmm
two_free = record {
  bitmap = λ a. if a == 0 then 40 else 0;
  mem = links;
  total_pages = 8;
  free_pages = 2;
  total_memory = 32768;
  free_list_head = 5;
}

two_free_at : (j : ℕ) → Bool
unfolding get_page_bit
two_free_at j =
    if has j (5 ∷ 3 ∷ [])
    then get_page_bit two_free.bitmap j
    else (if get_page_bit two_free.bitmap j then false else true)

two_free_table : all_below 8 two_free_at ≡ true
unfolding all_below two_free_at
two_free_table = refl

two_free_bits : (j : ℕ) → has j (5 ∷ 3 ∷ []) ≡ (ltb j 8 && get_page_bit two_free.bitmap j)
unfolding two_free_at
two_free_bits j = ground (arith, all_below_sound 8 two_free_at j two_free_table)

pub two_free-FreeList : FreeList two_free (5 ∷ 3 ∷ [])
two_free-FreeList = record {
  chain = (refl, (refl, refl));
  distinct = (refl, (refl, tt));
  tracks = two_free_bits;
  bytes = λ a. ground arith;
  counted = refl;
  fits = omega arith;
}

alloc_page-Taken_example : Taken two_free 5 (3 ∷ []) (alloc_page two_free)
alloc_page-Taken_example = alloc_page-Taken 5 (3 ∷ []) two_free-FreeList

free_page-FreeList_example : FreeList (free_page two_free (index_to_addr 4)) (4 ∷ 5 ∷ 3 ∷ [])
unfolding get_page_bit
free_page-FreeList_example = free_page-FreeList (5 ∷ 3 ∷ []) 4 two_free-FreeList (omega arith) refl

alloc_contiguous_lem_example :
    ((alloc_contiguous two_free 1 ≡ some (0, two_free)) × ((s : ℕ) → ¬ IsRun two_free 1 s))
    ⊎ ((i : ℕ) × (q : Pmm) × (alloc_contiguous two_free 1 ≡ some (index_to_addr i, q))
        × IsRun two_free 1 i
        × RunTaken two_free 1 i q)
alloc_contiguous_lem_example = alloc_contiguous_lem (5 ∷ 3 ∷ []) 1 two_free-FreeList (omega arith)

first_run : scan_run two_free 1 8 0 ≡ some 3
unfolding scan_run get_page_bit
first_run = refl

no_pair : alloc_contiguous two_free 2 ≡ some (0, two_free)
unfolding alloc_contiguous get_page_bit
no_pair = refl

mark_region-Marked_example : Marked 1 3 true (λ a. 0) (mark_region 8 (λ a. 0) 4096 4097 true)
mark_region-Marked_example =
    mark_region-Marked 8 (λ a. 0) 4096 4097 true (λ a. omega arith) (λ e. omega arith)

-- A Multiboot 1 table at address 64: 640 KB below and 12 KB above 1 MB, no memory map.
abbrev info : Memory
info a = if a == 68 then 640 else if a == 72 then 396 else 0

init-ne-looping_example : init info (λ a. 255) 0x100001 0 64 ≢ looping
init-ne-looping_example =
    init-ne-looping info (λ a. 255) 0x100001 0 64 (λ a. ground arith) (omega arith)

-- What the boot at this table leaves.
booted : Pmm
unfolding init
booted = elim (init info (λ a. 255) 0x100001 0 64) [ started p ↦ p | _ ↦ two_free ]

booted_free : (booted.free_pages ≡ 2) × (booted.free_list_head ≡ 258)
unfolding booted get_page_bit set_page_bit mark_region store
booted_free = (refl, refl)

booted-started : init info (λ a. 255) 0x100001 0 64 ≡ started booted
unfolding booted get_page_bit set_page_bit mark_region store
booted-started = refl

init-IsReady_example : IsReady 0x100001 booted
init-IsReady_example =
    init-IsReady info (λ a. 255) 0x100001 0 64 (λ a. omega arith) (omega arith) (omega arith)
      booted-started

free_page-ignored_example : free_page two_free (index_to_addr 9) ≡ two_free
free_page-ignored_example = free_page-ignored (index_to_addr 9) (inl (omega arith))

bit_ten :
    get_page_bit (set_page_bit (λ a. 5) 9 true) 10
    ≡ (if (10 == 9) then true else get_page_bit (λ a. 5) 10)
bit_ten = get_page_bit-set_page_bit (λ a. 5) 9 10 true (λ a. omega arith)

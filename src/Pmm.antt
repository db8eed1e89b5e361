-- ===== src/Pmm.antt =====
-- mm/pmm.c: the physical page allocator. `mem` is the word at each physical address; the first word
-- of a free page holds the index of the next free page. Addresses and indices are `uint32_t`.
pub mod Bitmap
pub mod Chain
pub mod Alloc
pub mod Scan
pub mod Contiguous
pub mod Boot
pub mod Tests
use hao_sys.Base.{
  ℕ, zero, suc, ◌+◌, ◌-◌, ◌*◌, ◌/◌, ◌%◌, ◌^◌, ◌≤◌, ◌<◌, ◌≡◌, Bool, true, false, not, ◌&&◌, Option,
  none, some, ltb, leb, ◌==◌, if◌then◌else◌, Memory, store, sub32, add32,
}
use Bitmap.{get_page_bit, set_page_bit, addr_to_index, index_to_addr}

pub record Pmm : Type 0 where
  pub bitmap : Memory
  pub mem : Memory
  pub total_pages : ℕ
  pub free_pages : ℕ
  pub total_memory : ℕ
  pub free_list_head : ℕ

-- (uint32_t)-1, the end of the free list.
abbrev pub no_page : ℕ
no_page = 2 ^ 32 - 1

-- The page address, or 0 for NULL, and the new state.
unfoldable pub alloc_page : Pmm → ℕ × Pmm
alloc_page p = if p.free_list_head == no_page then (0, p) else (
  index_to_addr p.free_list_head,
  record p {
    free_list_head = p.mem (index_to_addr p.free_list_head);
    bitmap = set_page_bit p.bitmap p.free_list_head false;
    free_pages = sub32 p.free_pages 1;
  },
)

-- A page outside memory, or one that is free already, is left alone. The link is written at `addr`.
unfoldable pub free_page : Pmm → ℕ → Pmm
free_page p addr =
    if ltb (addr_to_index addr) p.total_pages
    then (if get_page_bit p.bitmap (addr_to_index addr) then p else record p {
      bitmap = set_page_bit p.bitmap (addr_to_index addr) true;
      mem = store p.mem addr p.free_list_head;
      free_list_head = addr_to_index addr;
      free_pages = add32 p.free_pages 1;
    })
    else p

-- for (j = 1; j < count && i + j < total_pages; j++) if (!get_page_bit(i + j)) break;
-- The first argument counts the rounds left, `count - j`.
unfoldable pub run_length : Pmm → ℕ → ℕ → ℕ → ℕ
run_length p zero i j = j
run_length p (suc n) i j =
    let rest = run_length p n i (suc j) in
    if ltb (i + j) p.total_pages && get_page_bit p.bitmap (i + j) then rest else j

-- The outer loop of `pmm_alloc_contiguous`: the first page of the run that it finds. `i += j` and
-- the loop's own `i++` skip the run and the page that ended it. One round of fuel for each page.
unfoldable pub scan_run : Pmm → ℕ → ℕ → ℕ → Option ℕ
unfolding run_length
scan_run p count zero i = none
scan_run p count (suc fuel) i =
    let next = scan_run p count fuel (i + 1) in
    let skip = scan_run p count fuel (i + run_length p (count - 1) i 1 + 1) in
    if ltb i p.total_pages
    then (if get_page_bit p.bitmap i
        then (if run_length p (count - 1) i 1 == count then some i else skip)
        else next)
    else none

-- while (cur != -1 && cur != target) { prev = cur; cur = link(cur); }: the last `prev` and `cur`.
-- `none` is a walk that did not end within its fuel.
unfoldable pub walk : Memory → ℕ → ℕ → ℕ → ℕ → Option (ℕ × ℕ)
walk mem target zero prev cur = none
walk mem target (suc fuel) prev cur =
    let rest = walk mem target fuel cur (mem (index_to_addr cur)) in
    if cur == no_page then some (prev, cur) else if cur == target then some (prev, cur) else rest

-- The unlinking of `cur` behind `prev`, if the walk found it.
unfoldable pub unlink : Pmm → ℕ → ℕ × ℕ → Pmm
unlink p target (prev, cur) =
    if cur == target
    then (if prev == no_page
        then record p { free_list_head = p.mem (index_to_addr cur) }
        else record p { mem = store p.mem (index_to_addr prev) (p.mem (index_to_addr cur)) })
    else p

-- One round of the loop that takes page `target` off the list.
unfoldable pub take_page : Pmm → ℕ → Option Pmm
unfolding walk unlink
take_page p target = elim (walk p.mem target (p.total_pages + 1) no_page p.free_list_head) [
  | none ↦ none
  | some found ↦ some (record (unlink p target found) {
    bitmap = set_page_bit p.bitmap target false;
    free_pages = sub32 p.free_pages 1;
  })
]

unfoldable pub take_pages : ℕ → Pmm → ℕ → Option Pmm
unfolding take_page
take_pages zero p i = some p
take_pages (suc n) p i = elim (take_page p i) [ none ↦ none | some q ↦ take_pages n q (i + 1) ]

-- `none` only if a walk of the free list does not end.
unfoldable pub alloc_contiguous : Pmm → ℕ → Option (ℕ × Pmm)
unfolding scan_run take_pages
alloc_contiguous p count =
    if count == 0 then some (0, p) else elim (scan_run p count p.total_pages 0) [
      | none ↦ some (0, p)
      | some i ↦ elim (take_pages count p i) [ none ↦ none | some q ↦ some (index_to_addr i, q) ]
    ]

pub get_memory_size : Pmm → ℕ
get_memory_size p = p.total_memory

pub get_free_pages : Pmm → ℕ
get_free_pages p = p.free_pages

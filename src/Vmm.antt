-- ===== src/Vmm.antt =====
-- mm/vmm.c: page directories and page tables. They are pages of physical memory, so the functions
-- work on the words of the page allocator's `mem`; memory is mapped to itself. The TLB, CR3 and CR0
-- are not modelled beyond `current_directory`.
pub mod Entry
pub mod Frame
pub mod Table
pub mod Mapping
pub mod Calls
mod Tests
use hao_sys.Base.{
  ℕ, zero, suc, ◌+◌, ◌-◌, ◌*◌, ◌/◌, ◌%◌, ◌^◌, ◌≡◌, Bool, true, false, not, ◌&&◌, ◌||◌, Option, none,
  some, ltb, leb, ◌==◌, if◌then◌else◌, Memory, store, count_up, min,
}
use hao_sys.Pmm.{Pmm, alloc_page, free_page}
use Entry.{with_flag, has_flag, entry_of, page_of}

pub record Vmm : Type 0 where
  pub pmm : Pmm
  pub open pmm use {mem, total_memory}
  pub current_directory : ℕ
  -- the address of `kernel_page_directory`
  pub kernel_directory : ℕ

abbrev pub is_present : ℕ → Bool
is_present entry = has_flag entry 0

abbrev pub pd_index : ℕ → ℕ
pd_index virt = virt / 2 ^ 22

abbrev pub pt_index : ℕ → ℕ
pt_index virt = virt / 2 ^ 12 % 2 ^ 10

-- Slot `i` of the table at `table`.
abbrev pub slot : ℕ → ℕ → ℕ
slot table i = table + 4 * i

abbrev pub write_word : Vmm → ℕ → ℕ → Vmm
write_word v a w = record v { pmm = record v.pmm { mem = store v.mem a w } }

-- `zero_memory` on a page, word by word.
unfoldable pub zero_page : ℕ → Memory → Memory
zero_page page mem = count_up 1024 0 (λ i m. store m (slot page i) 0) mem

-- A zeroed page for a table, or 0.
unfoldable pub allocate_pt : Vmm → ℕ × Vmm
unfolding zero_page
allocate_pt v =
    let (pt, p) = alloc_page v.pmm in
    if pt == 0
    then (0, record v { pmm = p })
    else (pt, record v { pmm = record p { mem = zero_page pt p.mem } })

unfoldable pub free_pt : Vmm → ℕ → Vmm
free_pt v pt = if pt == 0 then v else record v { pmm = free_page v.pmm pt }

-- The kernel's slots that are looked at, one for each 4 MB of memory.
abbrev pub kernel_pdes : Vmm → ℕ
kernel_pdes v = min (v.total_memory / 2 ^ 22 + 1) 1024

-- Whether the page table at `pt` hangs in one of the kernel's first `n` slots.
unfoldable pub kernel_table : Memory → ℕ → ℕ → ℕ → Bool
kernel_table mem dir zero pt = false
kernel_table mem dir (suc n) pt =
    kernel_table mem dir n pt
    || (is_present (mem (slot dir n)) && (page_of (mem (slot dir n)) == pt))

abbrev pub is_kernel_table : Vmm → ℕ → Bool
is_kernel_table v pt = kernel_table v.mem v.kernel_directory (kernel_pdes v) pt

-- A directory that shares all the kernel's tables, or 0.
unfoldable pub create_directory : Vmm → ℕ × Vmm
unfolding allocate_pt
create_directory v =
    let (dir, w) = allocate_pt v in
    if dir == 0 then (0, w) else (
      dir,
      record w {
        pmm = record w.pmm {
          mem = count_up 1024 0 (λ i m. store m (slot dir i) (m (slot w.kernel_directory i))) w.mem;
        };
      },
    )

-- One round of the loop of `vmm_destroy_directory`.
unfoldable pub destroy_slot : ℕ → ℕ → Vmm → Vmm
unfolding kernel_table free_pt
destroy_slot dir i v =
    if is_present (v.mem (slot dir i))
    then (if is_kernel_table v (page_of (v.mem (slot dir i)))
        then v
        else free_pt v (page_of (v.mem (slot dir i))))
    else v

unfoldable pub destroy_directory : Vmm → ℕ → Vmm
unfolding destroy_slot count_up
destroy_directory v dir =
    let tables_gone = count_up 1024 0 (destroy_slot dir) v in
    if dir == 0 then v else record tables_gone { pmm = free_page tables_gone.pmm dir }

-- The end of `vmm_map_page`: an entry that is there already is not replaced.
unfoldable pub set_pte : Vmm → ℕ → ℕ → ℕ → ℕ → Bool × Vmm
set_pte v pt virt phys flags =
    if is_present (v.mem (slot pt (pt_index virt)))
    then (false, v)
    else (true, write_word v (slot pt (pt_index virt)) (entry_of phys (with_flag flags 0)))

-- The table is missing: PRESENT and WRITE, and USER if the page is to have it.
unfoldable pub map_new_table : Vmm → ℕ → ℕ → ℕ → ℕ → Bool × Vmm
unfolding allocate_pt set_pte
map_new_table v dir virt phys flags =
    let (pt, w) = allocate_pt v in
    if pt == 0
    then (false, w)
    else (let pde_flags : ℕ = if has_flag flags 2 then 7 else 3 in
        set_pte (write_word w (slot dir (pd_index virt)) (entry_of pt pde_flags)) pt virt phys
          flags)

-- The table is there: a kernel table never gets USER.
unfoldable pub map_old_table : Vmm → ℕ → ℕ → ℕ → ℕ → Bool × Vmm
unfolding set_pte kernel_table
map_old_table v dir virt phys flags =
    let pde = v.mem (slot dir (pd_index virt)) in
    if has_flag flags 2
    then (if is_kernel_table v (page_of pde)
        then (false, v)
        else set_pte (write_word v (slot dir (pd_index virt)) (with_flag pde 2))
            (page_of (with_flag pde 2)) virt phys flags)
    else set_pte v (page_of pde) virt phys flags

-- The addresses are rounded down to pages first.
unfoldable pub map_page : Vmm → ℕ → ℕ → ℕ → ℕ → Bool × Vmm
unfolding map_new_table map_old_table
map_page v dir virt phys flags =
    if dir == 0
    then (false, v)
    else (if is_present (v.mem (slot dir (pd_index (page_of virt))))
        then map_old_table v dir (page_of virt) (page_of phys) flags
        else map_new_table v dir (page_of virt) (page_of phys) flags)

unfoldable pub unmap_page : Vmm → ℕ → ℕ → Bool × Vmm
unmap_page v dir virt =
    let pde = v.mem (slot dir (pd_index (page_of virt))) in
    let pte = slot (page_of pde) (pt_index (page_of virt)) in
    if dir == 0
    then (false, v)
    else (if is_present pde
        then (if is_present (v.mem pte) then (true, write_word v pte 0) else (false, v))
        else (false, v))

unfoldable pub is_user_accessible : Vmm → ℕ → Bool
is_user_accessible v virt =
    let pde = v.mem (slot v.current_directory (pd_index virt)) in
    let pte = v.mem (slot (page_of pde) (pt_index virt)) in
    not (v.current_directory == 0) && (is_present pde && (is_present pte && has_flag pte 2))

-- 0 for an address that is not mapped.
unfoldable pub get_phys_addr : Vmm → ℕ → ℕ → ℕ
get_phys_addr v dir virt =
    let pde = v.mem (slot dir (pd_index virt)) in
    let pte = v.mem (slot (page_of pde) (pt_index virt)) in
    if dir == 0
    then 0
    else (if is_present pde && is_present pte then page_of pte + virt % 4096 else 0)

unfoldable pub switch_directory : Vmm → ℕ → Vmm
switch_directory v dir = if dir == 0 then v else record v { current_directory = dir }

-- The entries of one table of `vmm_init`: page `j` of the 4 MB at `base` leads to itself. The loop
-- ends at the end of memory. The first ℕ after `pt` counts the entries left.
unfoldable pub fill_table : ℕ → ℕ → ℕ → ℕ → ℕ → Memory → Memory
fill_table size base pt zero j mem = mem
fill_table size base pt (suc n) j mem =
    let rest =
      fill_table size base pt n (j + 1) (store mem (slot pt j) (entry_of (base + j * 4096) 2)) in
    if leb size (base + j * 4096) then mem else rest

-- The tables of `vmm_init` from number `i` on, and whether there was a page for each.
unfoldable pub fill_directory : ℕ → ℕ → Vmm → Bool × Vmm
unfolding allocate_pt fill_table
fill_directory zero i v = (true, v)
fill_directory (suc n) i v =
    let (pt, w) = allocate_pt v in
    let filled = record w {
      pmm = record w.pmm { mem = fill_table w.total_memory (i * 2 ^ 22) pt 1024 0 w.mem };
    } in
    let rest =
      fill_directory n (i + 1) (write_word filled (slot w.kernel_directory i) (entry_of pt 2)) in
    if pt == 0 then (false, w) else rest

-- `vmm_init`: without memory, or without a page for a table, the directory in use stays.
unfoldable pub vmm_init : Vmm → Vmm
unfolding zero_page fill_directory
vmm_init v =
    let cleared = record v { pmm = record v.pmm { mem = zero_page v.kernel_directory v.mem } } in
    let total_pages = v.total_memory / 4096 in
    let (done, w) = fill_directory (min ((total_pages + 1023) / 1024) 1024) 0 cleared in
    if total_pages == 0
    then cleared
    else (if done then record w { current_directory = w.kernel_directory } else w)

pub get_current_directory : Vmm → ℕ
get_current_directory v = v.current_directory

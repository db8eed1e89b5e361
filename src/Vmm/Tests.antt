-- ===== src/Vmm/Tests.antt =====
-- An address space with an empty directory in page 1, beside the two free pages 5 and 3.
use hao_sys.Base.{
  ℕ, ◌+◌, ◌/◌, ◌%◌, ◌^◌, ◌<◌, ◌≡◌, refl, false, ◌&&◌, [], ◌∷◌, arith, ◌==◌, if◌then◌else◌, store,
  count_up,
}
use hao_sys.Pmm.{alloc_page}
use hao_sys.Pmm.Tests.{two_free, two_free-FreeList}
use hao_sys.Vmm.Entry.{page_of, entry_of}
use hao_sys.Vmm.Frame.{IsSpace}
use hao_sys.Vmm.Calls.{map_page_lem, unmap_page_lem, map_page-kernel}
use hao_sys.Vmm.{
  Vmm, is_present, slot, pd_index, pt_index, map_page, unmap_page, get_phys_addr, write_word,
  kernel_table,
}

abbrev small : Vmm
small = record { pmm = two_free; current_directory = 4096; kernel_directory = 8192 }

no_entries : (i : ℕ) → i < 1024 → is_present (small.mem (slot 4096 i)) ≡ false
no_entries i h = ground arith

small-IsSpace : IsSpace small 4096
small-IsSpace = record {
  pages = 5 ∷ 3 ∷ [];
  list = two_free-FreeList;
  dir_ne = λ e. cc;
  aligned = refl;
  dir_used = refl;
  used = λ i h p. cc (p, no_entries i h);
  not_dir = λ i h p. cc (p, no_entries i h);
  apart = λ i j h k p q e. cc (p, no_entries i h);
}

mapped_runs : get_phys_addr (map_page small 4096 0x10001234 0x7000 6).1 4096 0x10001567 ≡ 0x7567
unfolding get_phys_addr map_page alloc_page store entry_of count_up
mapped_runs = refl

map_page_lem_example :
    let (done, w) = map_page small 4096 0x10001234 0x7000 6 in
    IsSpace w 4096
    × ((x : ℕ)
        → x < 2 ^ 32
        → get_phys_addr w 4096 x ≡ (
            if done && (x / 4096 == 0x10001)
            then page_of 0x7000 + x % 4096
            else get_phys_addr small 4096 x))
map_page_lem_example = map_page_lem 0x10001234 0x7000 6 small-IsSpace (omega arith)

unmap_page_lem_example :
    let (done, w) = unmap_page small 4096 0x10001234 in
    let pde = small.mem (slot 4096 (pd_index 0x10001234)) in
    IsSpace w 4096
    × ((x : ℕ)
        → x < 2 ^ 32
        → get_phys_addr w 4096 x ≡ (if x / 4096 == 0x10001 then 0 else get_phys_addr small 4096 x))
    × (done ≡ (is_present pde && is_present (small.mem (slot (page_of pde) (pt_index 0x10001234)))))
    × (done ≡ false → w ≡ small)
unmap_page_lem_example = unmap_page_lem 0x10001234 small-IsSpace (omega arith)

-- The kernel's table for the first 4 MB, hung into the directory too.
abbrev shared : Vmm
shared = write_word (write_word small (slot 8192 0) 0x6003) (slot 4096 0) 0x6003

map_page-kernel_example : map_page shared 4096 0x2000 0x7000 4 ≡ (false, shared)
unfolding store kernel_table
map_page-kernel_example = map_page-kernel shared 4096 0x2000 0x7000 4 refl refl refl (omega arith)

-- ===== src/Pmm/Boot.antt =====
-- `pmm_init` of mm/pmm.c, and the Multiboot structures of include/mm/multiboot.h that it reads.
-- `kernel_end` is the linker's `_end`, where the bitmap lies; the boot loader's data is in `mem`.
pub mod Stages
pub mod Ready
pub mod Ends
use hao_sys.Base.{
  ℕ, zero, suc, ◌+◌, ◌-◌, ◌*◌, ◌/◌, ◌%◌, ◌^◌, ◌≡◌, Bool, true, false, ◌&&◌, ◌||◌, Option, none,
  some, ltb, leb, ◌==◌, if◌then◌else◌, Memory, store, sub32, add32, mul32, bit_and, count_up,
  for_pages,
}
use hao_sys.Pmm.Bitmap.{get_page_bit, set_page_bit, addr_to_index, index_to_addr, mark_region}
use hao_sys.Pmm.{Pmm, no_page}

-- An init either hands over an allocator, halts the machine, or loops for ever in a broken table.
pub data Boot : Type 0 where
  started : Pmm → Boot
  halted : Boot
  looping : Boot

-- The tag loop of Multiboot 2: `mem_lower` and `mem_upper` of the last type 4 tag.
-- `(size + 7) & ~7u` rounds up to a multiple of 8.
unfoldable pub mb2_tags : Memory → ℕ → ℕ → ℕ → ℕ → ℕ → Option (ℕ × ℕ)
mb2_tags mem tags_end zero p lower upper = none
mb2_tags mem tags_end (suc fuel) p lower upper =
    let kind = mem p in
    let size = mem (add32 p 4) in
    let known = (kind == 4) && leb 16 size in
    let rest =
      mb2_tags mem tags_end fuel (add32 p (add32 size 7 / 8 * 8))
        (if known then mem (add32 p 8) else lower) (if known then mem (add32 p 12) else upper) in
    if leb (add32 p 8) tags_end
    then (if (kind == 0) || ltb size 8 then some (lower, upper) else rest)
    else some (lower, upper)

abbrev pub mb2_magic : ℕ
mb2_magic = 0x36D76289

-- `mem_lower` and `mem_upper`, from the tags of Multiboot 2 or the fields of Multiboot 1.
unfoldable pub memory_info : Memory → ℕ → ℕ → Option (ℕ × ℕ)
unfolding mb2_tags
memory_info mem magic info_addr =
    if magic == mb2_magic
    then mb2_tags mem (add32 info_addr (mem info_addr)) (mem info_addr + 1) (add32 info_addr 8) 0 0
    else some (mem (add32 info_addr 4), mem (add32 info_addr 8))

-- A `uint64_t` field.
abbrev load64 : Memory → ℕ → ℕ
load64 mem a = mem a + 2 ^ 32 * mem (add32 a 4)

-- `multiboot_mmap_entry_t` as declared: four 64-bit fields behind `size`, and `type` at offset 36.
unfoldable pub mark_entry : Memory → ℕ → ℕ → Memory → Memory
mark_entry mem total ptr bitmap =
    let base = load64 mem (add32 ptr 4) in
    let len = load64 mem (add32 ptr 20) in
    if mem (add32 ptr 36) == 1
    then (if ltb base 0xFFFFFFFF && ltb 0 len
        then mark_region total bitmap (base % 2 ^ 32) (len % 2 ^ 32) true
        else bitmap)
    else (if ltb base 0xFFFFFFFF && ltb 0 len
        then mark_region total bitmap (base % 2 ^ 32) (len % 2 ^ 32) false
        else bitmap)

unfoldable pub mmap_loop : Memory → ℕ → ℕ → ℕ → ℕ → Memory → Option Memory
unfolding mark_entry
mmap_loop mem total mmap_end zero ptr bitmap = none
mmap_loop mem total mmap_end (suc fuel) ptr bitmap =
    let rest =
      mmap_loop mem total mmap_end fuel (add32 ptr (add32 (mem ptr) 4))
        (mark_entry mem total ptr bitmap) in
    if ltb ptr mmap_end then rest else some bitmap

-- The map is read on the Multiboot 1 path only, and only if flag bit 6 says that it is there.
unfoldable pub mark_mmap : Memory → ℕ → ℕ → ℕ → Memory → Option Memory
unfolding mmap_loop
mark_mmap mem total magic info_addr bitmap =
    let mmap_length = mem (add32 info_addr 44) in
    let mmap_addr = mem (add32 info_addr 48) in
    let marked =
      mmap_loop mem total (add32 mmap_addr mmap_length) (mmap_length + 1) mmap_addr bitmap in
    if magic == mb2_magic
    then some bitmap
    else (if bit_and (mem info_addr) 0x40 == 0 then some bitmap else marked)

unfoldable pub clear_bitmap : ℕ → Memory → Memory
clear_bitmap size bitmap = count_up size 0 (λ i bm. store bm i 0) bitmap

unfoldable pub count_free : ℕ → Memory → ℕ
count_free total bitmap = count_up total 0 (λ i n. if get_page_bit bitmap i then add32 n 1 else n) 0

abbrev take_bit : ℕ → Memory × ℕ → Memory × ℕ
take_bit i (bitmap, free) =
    if get_page_bit bitmap i then (set_page_bit bitmap i false, sub32 free 1) else (bitmap, free)

-- Takes the pages from the one of address `first` to the one of address `last` out.
unfoldable pub reserve : ℕ → ℕ → ℕ → Memory × ℕ → Memory × ℕ
reserve total first last s = for_pages (addr_to_index first) (addr_to_index last) total take_bit s

abbrev push_page : Memory → ℕ → Memory × ℕ → Memory × ℕ
push_page bitmap i (mem, head) =
    if get_page_bit bitmap i then (store mem (index_to_addr i) head, i) else (mem, head)

unfoldable pub build_list : ℕ → Memory → Memory → Memory × ℕ
build_list total bitmap mem = count_up total 0 (push_page bitmap) (mem, no_page)

-- The total in kilobytes, or 16 MB if the boot loader gives none.
unfoldable pub total_kb : ℕ × ℕ → ℕ
total_kb (lower, upper) = if add32 lower upper == 0 then 16 * 1024 else add32 lower upper

abbrev pub bitmap_bytes : ℕ → ℕ
bitmap_bytes total = (total + 7) / 8

-- The end of `pmm_init`: count, take the kernel and the bitmap out, halt if nothing is left, link
-- the free pages.
unfoldable pub finish : Memory → ℕ → ℕ → ℕ → Memory → Boot
unfolding count_free reserve build_list
finish mem kernel_end memory total marked =
    let kernel = reserve total 0x100000 (sub32 kernel_end 1) (marked, count_free total marked) in
    let map_end = sub32 (add32 kernel_end (bitmap_bytes total)) 1 in
    let (bitmap, free) = reserve total kernel_end map_end kernel in
    let (links, head) = build_list total bitmap mem in
    if free == 0
    then halted
    else started (record {
      bitmap = bitmap;
      mem = links;
      total_pages = total;
      free_pages = free;
      total_memory = memory;
      free_list_head = head;
    })

-- `bitmap` is what lies at `_end` before; `mem` is physical memory.
unfoldable pub init : Memory → Memory → ℕ → ℕ → ℕ → Boot
unfolding memory_info total_kb clear_bitmap mark_mmap finish
init mem bitmap kernel_end magic info_addr = elim (memory_info mem magic info_addr) [
  | none ↦ looping
  | some info ↦
      let memory = mul32 (total_kb info) 1024 in
      let total = memory / 4096 in
      let cleared = clear_bitmap (bitmap_bytes total) bitmap in
      let upper = mark_region total cleared 0x100000 (sub32 memory 0x100000) true in
      elim (mark_mmap mem total magic info_addr upper) [
        | none ↦ looping
        | some marked ↦ finish mem kernel_end memory total marked
      ]
]

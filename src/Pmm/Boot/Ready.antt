-- ===== src/Pmm/Boot/Ready.antt =====
-- What `pmm_init` hands over: a free list in step with the bitmap, without the kernel's pages.
use hao_sys.Base.{
  ℕ, zero, suc, ◌+◌, ◌-◌, ◌/◌, ◌^◌, ◌≤◌, ◌<◌, ◌≡◌, ◌≢◌, subst, some-eq, if_both, bit_and, true,
  false, some, List, arith, ltb, ◌==◌, Bool-cases, Option-cases, inl, inr, Memory, add32, sub32,
  mul32, has,
}
use hao_sys.Pmm.Bitmap.{IsBytes, addr_to_index, mark_region, mark_region-IsBytes}
use hao_sys.Pmm.{Pmm}
use hao_sys.Pmm.Chain.{FreeList}
use hao_sys.Pmm.Boot.{
  started, bitmap_bytes, count_free, reserve, build_list, mark_entry, mmap_loop, mark_mmap,
  clear_bitmap, memory_info, total_kb, finish, init, mb2_magic,
}
use hao_sys.Pmm.Boot.Stages.{
  clear_bitmap-IsBytes, count_free-free_below, reserve-Reserved, build_list-Linked,
}

-- The allocator that the boot hands over: every free page is on the list, and none of the pages of
-- the kernel image [1 MB, `_end`) or of the bitmap behind it is.
pub record IsReady (kernel_end : ℕ) (p : Pmm) : Type 0 where
  pub pages : List ℕ
  pub list : FreeList p pages
  pub some_left : p.free_pages ≢ 0
  pub kernel_out :
      (j : ℕ) → has j pages ≡ true → addr_to_index 0x100000 ≤ j → addr_to_index (kernel_end - 1) < j
  pub bitmap_out :
      (j : ℕ)
      → has j pages ≡ true
      → addr_to_index kernel_end ≤ j
      → addr_to_index (kernel_end + bitmap_bytes p.total_pages - 1) < j

-- The part behind the marking. `_end` lies above 1 MB and leaves room for the bitmap.
finish-IsReady :
    (mem : Memory) (kernel_end memory total : ℕ) (marked : Memory) {p : Pmm}
    → IsBytes marked
    → total ≤ 2 ^ 20
    → 0x100000 < kernel_end
    → kernel_end < 2 ^ 31
    → finish mem kernel_end memory total marked ≡ started p
    → IsReady kernel_end p
unfolding finish
finish-IsReady mem kernel_end memory total marked {p} bytes small above room h =
    let counted : Memory × ℕ = (marked, count_free total marked) in
    let r =
      reserve-Reserved total 0x100000 (sub32 kernel_end 1) counted small bytes
        (count_free-free_below total marked small) in
    let kernel = reserve total 0x100000 (sub32 kernel_end 1) counted in
    let map_end = sub32 (add32 kernel_end (bitmap_bytes total)) 1 in
    let s = reserve-Reserved total kernel_end map_end kernel small r.bytes r.count in
    let out = reserve total kernel_end map_end kernel in
    let l = build_list-Linked total out.0 mem in
    let links = build_list total out.0 mem in
    let q : Pmm = record {
      bitmap = out.0;
      mem = links.0;
      total_pages = total;
      free_pages = out.1;
      total_memory = memory;
      free_list_head = links.1;
    } in
    elim (Bool-cases (out.1 == 0)) [
      | inl none_left ↦ absurd (let h' = rw none_left at h in cc)
      | inr left ↦
          let h' = rw left at h in
          let e : q ≡ p = cc in
          subst (IsReady kernel_end) e (record {
            pages = l.pages;
            list = record {
              chain = l.chain;
              distinct = l.distinct;
              tracks = l.tracks;
              bytes = s.bytes;
              counted = omega (arith, s.count, l.count);
              fits = small;
            };
            some_left = ground arith;
            kernel_out = λ j m lo. ground (arith, l.tracks j, s.bits j, r.bits j);
            bitmap_out = λ j m lo. ground (arith, l.tracks j, s.bits j, r.bits j);
          })
    ]

-- Marking the memory map keeps the bitmap a map of bytes.
mark_entry-IsBytes :
    (mem : Memory) (total ptr : ℕ) (bm : Memory)
    → IsBytes bm
    → IsBytes (mark_entry mem total ptr bm)
unfolding mark_entry
mark_entry-IsBytes mem total ptr bm h =
    if_both IsBytes _ _ _ (if_both IsBytes _ _ _ (mark_region-IsBytes total bm _ _ true h) h)
      (if_both IsBytes _ _ _ (mark_region-IsBytes total bm _ _ false h) h)

mmap_loop-IsBytes :
    (mem : Memory) (total mmap_end fuel ptr : ℕ) (bm : Memory) {out : Memory}
    → IsBytes bm
    → mmap_loop mem total mmap_end fuel ptr bm ≡ some out
    → IsBytes out
unfolding mmap_loop
mmap_loop-IsBytes mem total mmap_end zero ptr bm h e = absurd (cc)
mmap_loop-IsBytes mem total mmap_end (suc fuel) ptr bm {out} h e =
    elim (Bool-cases (ltb ptr mmap_end)) [
      | inl more ↦
          mmap_loop-IsBytes mem total mmap_end fuel (add32 ptr (add32 (mem ptr) 4))
            (mark_entry mem total ptr bm) (mark_entry-IsBytes mem total ptr bm h) (rw more at e)
      | inr done ↦ let e' = rw done at e in subst IsBytes (some-eq e') h
    ]

mark_mmap-IsBytes :
    (mem : Memory) (total magic info_addr : ℕ) (bm : Memory) {out : Memory}
    → IsBytes bm
    → mark_mmap mem total magic info_addr bm ≡ some out
    → IsBytes out
unfolding mark_mmap
mark_mmap-IsBytes mem total magic info_addr bm {out} h e =
    let len = mem (add32 info_addr 44) in
    let addr = mem (add32 info_addr 48) in
    elim (Bool-cases (magic == mb2_magic)) [
      | inl mb2 ↦ subst IsBytes (some-eq (rw mb2 at e)) h
      | inr mb1 ↦
          let e' = rw mb1 at e in
          elim (Bool-cases (bit_and (mem info_addr) 0x40 == 0)) [
            | inl absent ↦ subst IsBytes (some-eq (rw absent at e')) h
            | inr given ↦
                mmap_loop-IsBytes mem total (add32 addr len) (len + 1) addr bm h (rw given at e')
          ]
    ]

-- Whatever the boot loader says, an allocator that `pmm_init` hands over is ready: its free list,
-- bitmap and count agree, at least one page is free, and no page of the kernel image or of the
-- bitmap is.
pub init-IsReady :
    (mem bitmap : Memory) (kernel_end magic info_addr : ℕ) {p : Pmm}
    → IsBytes bitmap
    → 0x100000 < kernel_end
    → kernel_end < 2 ^ 31
    → init mem bitmap kernel_end magic info_addr ≡ started p
    → IsReady kernel_end p
unfolding init
init-IsReady mem bitmap kernel_end magic info_addr {p} bytes above room h =
    elim (Option-cases (memory_info mem magic info_addr)) [
      | inl e ↦ absurd (let h' = rw (e, init) at h in cc)
      | inr (info, e) ↦
          let h' = rw (e, init) at h in
          let memory = mul32 (total_kb info) 1024 in
          let total = memory / 4096 in
          let upper =
            mark_region total (clear_bitmap (bitmap_bytes total) bitmap) 0x100000
              (sub32 memory 0x100000) true in
          let b =
            mark_region-IsBytes total (clear_bitmap (bitmap_bytes total) bitmap) 0x100000
              (sub32 memory 0x100000) true
              (clear_bitmap-IsBytes (bitmap_bytes total) bitmap bytes) in
          elim (Option-cases (mark_mmap mem total magic info_addr upper)) [
            | inl m ↦ absurd (let h'' = rw m at h' in cc)
            | inr (marked, m) ↦
                finish-IsReady mem kernel_end memory total marked
                  (mark_mmap-IsBytes mem total magic info_addr upper b m) (omega arith) above room
                  (rw m at h')
          ]
    ]

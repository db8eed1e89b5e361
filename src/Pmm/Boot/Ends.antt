-- ===== src/Pmm/Boot/Ends.antt =====
-- `pmm_init` does not loop: the tables of the boot loader are read in a bounded number of rounds.
use hao_sys.Base.{
  ℕ, zero, suc, ◌+◌, ◌-◌, ◌*◌, ◌/◌, ◌^◌, ◌≤◌, ◌<◌, ◌≡◌, ◌≢◌, true, ◌&&◌, ◌||◌, some, arith, ltb,
  leb, ◌==◌, if◌then◌else◌, Bool-cases, inl, inr, Memory, add32, sub32, mul32, bit_and,
}
use hao_sys.Pmm.Bitmap.{mark_region}
use hao_sys.Pmm.Boot.{
  looping, bitmap_bytes, mark_entry, mmap_loop, mb2_tags, mark_mmap, clear_bitmap, memory_info,
  total_kb, finish, init, mb2_magic,
}

-- The words of low memory, where the tables lie, are small enough for no address to wrap.
abbrev pub AreSmall : Memory → Type 0
AreSmall mem = (a : ℕ) → mem a < 2 ^ 30

mmap_loop-some :
    (mem : Memory) (total mmap_end fuel ptr : ℕ) (bm : Memory)
    → AreSmall mem
    → mmap_end < 2 ^ 31
    → mmap_end - ptr < fuel
    → (out : Memory) × (mmap_loop mem total mmap_end fuel ptr bm ≡ some out)
unfolding mmap_loop
mmap_loop-some mem total mmap_end zero ptr bm small low enough = absurd (omega arith)
mmap_loop-some mem total mmap_end (suc fuel) ptr bm small low enough =
    elim (Bool-cases (ltb ptr mmap_end)) [
      | inr done ↦ (bm, rw done)
      | inl more ↦
          let s = small ptr in
          let r =
            mmap_loop-some mem total mmap_end fuel (add32 ptr (add32 (mem ptr) 4))
              (mark_entry mem total ptr bm) small low (ground arith) in
          (r.0, rw more r.1)
    ]

mb2_tags-some :
    (mem : Memory) (tags_end fuel p lower upper : ℕ)
    → AreSmall mem
    → tags_end < 2 ^ 31
    → p < 2 ^ 32 - 8
    → tags_end - p < fuel
    → (out : ℕ × ℕ) × (mb2_tags mem tags_end fuel p lower upper ≡ some out)
unfolding mb2_tags
mb2_tags-some mem tags_end zero p lower upper small low fits enough = absurd (omega arith)
mb2_tags-some mem tags_end (suc fuel) p lower upper small low fits enough =
    elim (Bool-cases (leb (add32 p 8) tags_end)) [
      | inr done ↦ ((lower, upper), rw done)
      | inl inside ↦ elim (Bool-cases ((mem p == 0) || ltb (mem (add32 p 4)) 8)) [
        | inl last ↦ ((lower, upper), rw (inside, last))
        | inr more ↦
            let size = mem (add32 p 4) in
            let s = small (add32 p 4) in
            let big : 8 ≤ size = ground arith in
            let known = (mem p == 4) && leb 16 size in
            let r =
              mb2_tags-some mem tags_end fuel (add32 p (add32 size 7 / 8 * 8))
                (if known then mem (add32 p 8) else lower)
                (if known then mem (add32 p 12) else upper) small low (ground arith)
                (ground arith) in
            (r.0, rw (inside, more) r.1)
      ]
    ]

memory_info-some :
    (mem : Memory) (magic info_addr : ℕ)
    → AreSmall mem
    → info_addr < 2 ^ 30
    → (out : ℕ × ℕ) × (memory_info mem magic info_addr ≡ some out)
unfolding memory_info
memory_info-some mem magic info_addr small low = elim (Bool-cases (magic == mb2_magic)) [
  | inl mb2 ↦
      let s = small info_addr in
      let r =
        mb2_tags-some mem (add32 info_addr (mem info_addr)) (mem info_addr + 1) (add32 info_addr 8)
          0 0 small (omega arith) (omega arith) (omega arith) in
      (r.0, rw mb2 r.1)
  | inr mb1 ↦ ((mem (add32 info_addr 4), mem (add32 info_addr 8)), rw mb1)
]

mark_mmap-some :
    (mem : Memory) (total magic info_addr : ℕ) (bm : Memory)
    → AreSmall mem
    → (out : Memory) × (mark_mmap mem total magic info_addr bm ≡ some out)
unfolding mark_mmap
mark_mmap-some mem total magic info_addr bm small =
    let len = mem (add32 info_addr 44) in
    let addr = mem (add32 info_addr 48) in
    let s = small (add32 info_addr 44) in
    let t = small (add32 info_addr 48) in
    elim (Bool-cases (magic == mb2_magic)) [
      | inl mb2 ↦ (bm, rw mb2)
      | inr mb1 ↦ elim (Bool-cases (bit_and (mem info_addr) 0x40 == 0)) [
        | inl absent ↦ (bm, rw (mb1, absent))
        | inr given ↦
            let r =
              mmap_loop-some mem total (add32 addr len) (len + 1) addr bm small (omega arith)
                (omega arith) in
            (r.0, rw (mb1, given) r.1)
      ]
    ]

finish-ne-looping :
    (mem : Memory) (kernel_end memory total : ℕ) (marked : Memory)
    → finish mem kernel_end memory total marked ≢ looping
unfolding finish
finish-ne-looping mem kernel_end memory total marked h = ground arith

pub init-ne-looping :
    (mem bitmap : Memory) (kernel_end magic info_addr : ℕ)
    → AreSmall mem
    → info_addr < 2 ^ 30
    → init mem bitmap kernel_end magic info_addr ≢ looping
unfolding init
init-ne-looping mem bitmap kernel_end magic info_addr small low h =
    let (info, e) = memory_info-some mem magic info_addr small low in
    let memory = mul32 (total_kb info) 1024 in
    let total = memory / 4096 in
    let upper =
      mark_region total (clear_bitmap (bitmap_bytes total) bitmap) 0x100000 (sub32 memory 0x100000)
        true in
    let (marked, m) = mark_mmap-some mem total magic info_addr upper small in
    finish-ne-looping mem kernel_end memory total marked (rw m at (rw (e, init) at h))

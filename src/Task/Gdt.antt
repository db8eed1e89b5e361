-- ===== src/Task/Gdt.antt =====
-- proc/task.c: segment descriptors of the GDT.
use hao_sys.Base.{ℕ, ◌+◌, ◌*◌, ◌/◌, ◌%◌, ◌^◌, ◌<◌, ◌≡◌, arith, List, [], ◌∷◌}

-- `gdt_entry_t`
pub record GdtEntry : Type 0 where
  pub limit_low : ℕ
  pub base_low : ℕ
  pub base_mid : ℕ
  pub access : ℕ
  pub granularity : ℕ
  pub base_high : ℕ

-- `((limit >> 16) & 0x0F) | (gran & 0xF0)`
unfoldable pub gdt_set_gate : ℕ → ℕ → ℕ → ℕ → GdtEntry
gdt_set_gate base limit access gran = record {
  base_low = base % 2 ^ 16;
  base_mid = base / 2 ^ 16 % 2 ^ 8;
  base_high = base / 2 ^ 24 % 2 ^ 8;
  limit_low = limit % 2 ^ 16;
  granularity = limit / 2 ^ 16 % 2 ^ 4 + gran % 2 ^ 8 / 2 ^ 4 * 2 ^ 4;
  access = access;
}

-- `init_gdt_tss`: null, kernel code and data, user code and data, and the TSS of 104 bytes.
unfoldable pub gdt_table : ℕ → List GdtEntry
gdt_table tss =
    gdt_set_gate 0 0 0 0
    ∷ gdt_set_gate 0 0xFFFFFFFF 0x9A 0xCF
    ∷ gdt_set_gate 0 0xFFFFFFFF 0x92 0xCF
    ∷ gdt_set_gate 0 0xFFFFFFFF 0xFA 0xCF
    ∷ gdt_set_gate 0 0xFFFFFFFF 0xF2 0xCF
    ∷ gdt_set_gate tss 103 0x89 0x40
    ∷ []

-- What the processor makes of a descriptor.
abbrev pub base_of : GdtEntry → ℕ
base_of e = e.base_low + 2 ^ 16 * e.base_mid + 2 ^ 24 * e.base_high

abbrev pub limit_of : GdtEntry → ℕ
limit_of e = e.limit_low + 2 ^ 16 * (e.granularity % 2 ^ 4)

-- A descriptor holds the base and the low 20 bits of the limit, and the high half of the
-- granularity byte holds its flags.
pub gdt_set_gate_lem :
    (base limit access gran : ℕ)
    → base < 2 ^ 32
    → let e = gdt_set_gate base limit access gran in
      (base_of e ≡ base)
      × (limit_of e ≡ limit % 2 ^ 20)
      × (e.granularity / 2 ^ 4 ≡ gran % 2 ^ 8 / 2 ^ 4)
unfolding gdt_set_gate
gdt_set_gate_lem base limit access gran h = (omega arith, omega arith, omega arith)

-- ===== src/Vmm/Entry.antt =====
-- mm/vmm.c: directory and table entries, a page address and twelve flag bits.
use hao_sys.Base.{ℕ, ◌+◌, ◌*◌, ◌/◌, ◌%◌, ◌^◌, ◌≡◌, Bool, true, arith, ◌==◌, if◌then◌else◌}

-- `entry & (1 << k)`, as a test.
abbrev pub has_flag : ℕ → ℕ → Bool
has_flag entry k = entry / 2 ^ k % 2 == 1

-- `entry | (1 << k)`
abbrev pub with_flag : ℕ → ℕ → ℕ
with_flag entry k = if has_flag entry k then entry else entry + 2 ^ k

-- `entry & 0xFFFFF000`
abbrev pub page_of : ℕ → ℕ
page_of entry = entry / 4096 * 4096

-- `set_entry`: (phys & 0xFFFFF000) | (flags & 0xFFF) | PAGE_PRESENT
unfoldable pub entry_of : ℕ → ℕ → ℕ
entry_of phys flags = with_flag (page_of phys + flags % 4096) 0

-- An entry is present, keeps its page, and keeps the USER bit of its flags.
pub entry_of_lem :
    (phys flags : ℕ)
    → (has_flag (entry_of phys flags) 0 ≡ true)
      × (page_of (entry_of phys flags) ≡ page_of phys)
      × (has_flag (entry_of phys flags) 2 ≡ has_flag flags 2)
unfolding entry_of
entry_of_lem phys flags = (ground arith, ground arith, ground arith)

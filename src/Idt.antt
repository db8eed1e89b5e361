-- ===== src/Idt.antt =====
-- syscall/idt.c: the gates of the 256 interrupt vectors. The entries are assembly, so their addresses are
-- the argument `Handlers`.
pub mod Gates
mod Tests
use hao_sys.Base.{ℕ, zero, suc, ◌+◌, ◌/◌, ◌%◌, ◌^◌, ◌==◌, if◌then◌else◌}

pub record IdtEntry : Type 0 where
  pub base_low : ℕ
  pub selector : ℕ
  pub zero_byte : ℕ
  pub flags : ℕ
  pub base_high : ℕ

abbrev pub Idt : Type 0
Idt = ℕ → IdtEntry

pub record Handlers : Type 0 where
  pub exc_handler : ℕ → ℕ
  pub isr_stub : ℕ
  pub irq_handler : ℕ → ℕ
  pub isr80_handler : ℕ

unfoldable pub idt_set_gate : ℕ → ℕ → ℕ → ℕ → Idt → Idt
idt_set_gate num handler selector flags t i =
    if i == num
    then record {
      base_low = handler % 2 ^ 16;
      selector = selector;
      zero_byte = 0;
      flags = flags;
      base_high = handler / 2 ^ 16 % 2 ^ 16;
    }
    else t i

-- The kernel's gates of `n` vectors from `first`.
unfoldable pub kernel_gates : ℕ → ℕ → (ℕ → ℕ) → Idt → Idt
kernel_gates zero first handlers t = t
kernel_gates (suc n) first handlers t =
    idt_set_gate (first + n) (handlers n) 0x08 0x8E (kernel_gates n first handlers t)

-- Static storage.
abbrev pub empty_idt : Idt
empty_idt i = record { base_low = 0; selector = 0; zero_byte = 0; flags = 0; base_high = 0 }

unfoldable pub idt_init : Handlers → Idt
idt_init h = idt_set_gate 0x80 h.isr80_handler 0x08 0xEE (
    kernel_gates 16 0x20 h.irq_handler
      (kernel_gates 12 20 (λ i. h.isr_stub) (kernel_gates 20 0 h.exc_handler empty_idt)))

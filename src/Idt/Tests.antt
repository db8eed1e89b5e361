-- ===== src/Idt/Tests.antt =====
-- Handlers that lie 16 bytes apart from 0x10000 on.
use hao_sys.Base.{◌+◌, ◌*◌, ◌%◌, ◌^◌, ◌≡◌, refl, arith}
use hao_sys.Idt.{Handlers, idt_init, idt_set_gate, kernel_gates}
use hao_sys.Idt.Gates.{AreAddresses, IsGate, idt_init_lem}

abbrev entries : Handlers
entries = record {
  exc_handler = λ i. (0x10000 + 16 * i) % 2 ^ 32;
  isr_stub = 0x20000;
  irq_handler = λ i. (0x30000 + 16 * i) % 2 ^ 32;
  isr80_handler = 0x40000;
}

entries-AreAddresses : AreAddresses entries
entries-AreAddresses = record {
  exc = λ i. omega arith;
  stub = omega arith;
  irq = λ i. omega arith;
  call = omega arith;
}

-- The timer's gate.
timer_runs :
    ((idt_init entries 32).base_high ≡ 3)
    × ((idt_init entries 33).base_low ≡ 16)
    × ((idt_init entries 33).flags ≡ 0x8E)
unfolding idt_init idt_set_gate kernel_gates
timer_runs = (refl, refl, refl)

idt_init_lem_example : IsGate entries 0x80 (idt_init entries 0x80)
idt_init_lem_example = idt_init_lem entries 0x80 entries-AreAddresses

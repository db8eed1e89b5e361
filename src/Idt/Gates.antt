-- ===== src/Idt/Gates.antt =====
-- What syscall/idt.c leaves in the gates.
use hao_sys.Base.{
  ℕ, zero, suc, ◌+◌, ◌-◌, ◌*◌, ◌/◌, ◌%◌, ◌^◌, ◌<◌, ◌≡◌, refl, Bool, true, false, ◌||◌, ◌&&◌, ◌==◌,
  ltb, leb, if◌then◌else◌, arith, Bool-cases, inl, inr, ==_iff,
}
use hao_sys.Idt.{IdtEntry, Idt, Handlers, idt_set_gate, kernel_gates, empty_idt, idt_init}

-- What the processor reads from a gate: where it leads, whether it is there, and the privilege that a
-- program needs to call it (0 the kernel, 3 a user).
abbrev pub target : IdtEntry → ℕ
target e = e.base_low + 2 ^ 16 * e.base_high

abbrev pub is_present : IdtEntry → Bool
is_present e = e.flags / 2 ^ 7 % 2 == 1

abbrev pub privilege : IdtEntry → ℕ
privilege e = e.flags / 2 ^ 5 % 2 ^ 2

abbrev pub handler_of : Handlers → ℕ → ℕ
handler_of h i =
    if i == 0x80
    then h.isr80_handler
    else (if ltb i 20
        then h.exc_handler i
        else if ltb i 32
        then h.isr_stub
        else h.irq_handler (i - 32))

-- Addresses of 32 bits.
pub record AreAddresses (h : Handlers) : Type 0 where
  pub exc : (i : ℕ) → h.exc_handler i < 2 ^ 32
  pub stub : h.isr_stub < 2 ^ 32
  pub irq : (i : ℕ) → h.irq_handler i < 2 ^ 32
  pub call : h.isr80_handler < 2 ^ 32

abbrev pub gate : ℕ → ℕ → IdtEntry
gate handler flags = record {
  base_low = handler % 2 ^ 16;
  selector = 0x08;
  zero_byte = 0;
  flags = flags;
  base_high = handler / 2 ^ 16 % 2 ^ 16;
}

-- The vectors that have a handler.
abbrev pub is_set : ℕ → Bool
is_set i = (i == 0x80) || ltb i 48

-- A vector's gate, as it should be.
abbrev pub IsGate : Handlers → ℕ → IdtEntry → Type 0
IsGate h i e =
    (is_present e ≡ is_set i)
    × (target e ≡ (if is_set i then handler_of h i else 0))
    × (e.selector ≡ (if is_set i then 0x08 else 0))
    × ((privilege e == 3) ≡ (i == 0x80))

kernel_gates_lem :
    (n first : ℕ) (handlers : ℕ → ℕ) (t : Idt) (i : ℕ)
    → kernel_gates n first handlers t i
      ≡ (if leb first i && ltb i (first + n) then gate (handlers (i - first)) 0x8E else t i)
unfolding kernel_gates idt_set_gate
kernel_gates_lem zero first handlers t i = ground arith
kernel_gates_lem (suc n) first handlers t i =
    let rest = kernel_gates_lem n first handlers t i in
    elim (Bool-cases (i == first + n)) [
      | inl e ↦
          let q = (==_iff i (first + n)).0 e in
          let low : leb first i ≡ true = ground arith in
          let high : ltb i (first + suc n) ≡ true = ground arith in
          let place : i - first ≡ n = omega arith in rw (idt_set_gate, e, low, high, place) refl
      | inr e ↦
          let same : ltb i (first + suc n) ≡ ltb i (first + n) = ground arith in
          rw (idt_set_gate, e, same) rest
    ]

address : (a : ℕ) → a < 2 ^ 32 → a % 2 ^ 16 + 2 ^ 16 * (a / 2 ^ 16 % 2 ^ 16) ≡ a
address a l = omega arith

idt_init_entries :
    (h : Handlers) (i : ℕ)
    → idt_init h i ≡ (
        if i == 0x80
        then gate h.isr80_handler 0xEE
        else (if ltb i 48 then gate (handler_of h i) 0x8E else empty_idt i))
unfolding idt_init idt_set_gate
idt_init_entries h i =
    let a = kernel_gates_lem 20 0 h.exc_handler empty_idt in
    let b = kernel_gates_lem 12 20 (λ k. h.isr_stub) (kernel_gates 20 0 h.exc_handler empty_idt) in
    let c =
      kernel_gates_lem 16 0x20 h.irq_handler
        (kernel_gates 12 20 (λ k. h.isr_stub) (kernel_gates 20 0 h.exc_handler empty_idt)) in
    rw (c i, b i, a i) (ground arith)

other_handler :
    (h : Handlers) (i : ℕ)
    → AreAddresses h
    → (i == 0x80) ≡ false
    → (if ltb i 20
        then h.exc_handler i
        else if ltb i 32
        then h.isr_stub
        else h.irq_handler (i - 32))
      < 2 ^ 32
other_handler h i a e = ground (arith, a.exc i, a.stub, a.irq (i - 32))

-- The gates that idt_init sets: one for each vector below 48 and one for 0x80, and no other. They lead to
-- the handler of the vector, in the kernel's code segment, and a user program may call 0x80 alone.
pub idt_init_lem : (h : Handlers) (i : ℕ) → AreAddresses h → IsGate h i (idt_init h i)
idt_init_lem h i a = elim (Bool-cases (i == 0x80)) [
  | inl e ↦ rw (idt_init_entries h i, e) (refl, address h.isr80_handler a.call, refl, refl)
  | inr e ↦ elim (Bool-cases (ltb i 48)) [
    | inl l ↦ rw (idt_init_entries h i, e, l) (refl, address _ (other_handler h i a e), refl, refl)
    | inr l ↦ rw (idt_init_entries h i, e, l) (refl, refl, refl, refl)
  ]
]

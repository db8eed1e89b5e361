-- ===== src/Keyboard/Tests.antt =====
-- A keyboard with one scan code in its buffer, at the end of the ring.
use hao_sys.Base.{
  ℕ, ◌≡◌, refl, ◌⊎◌, true, false, some, none, [], ◌∷◌, ◌++◌, if◌then◌else◌, ltb, length, arith,
}
use hao_sys.Keyboard.{
  Keyboard, push_scancode, pop_scancode, scancode_to_ascii, apply_caps_lock, is_upper,
}
use hao_sys.Keyboard.Ring.{IsRing, queue, push_scancode-queue, pop_scancode-queue}
use hao_sys.Keyboard.Case.{letter, apply_caps_lock_lem}

abbrev one_code : Keyboard
one_code = record {
  buffer = λ i. 0x1E;
  head = 63;
  tail = 0;
  shift_pressed = true;
  caps_lock = false;
}

one_code-IsRing : IsRing one_code
one_code-IsRing = record { head_in = omega arith; tail_in = omega arith }

push_scancode-queue_example :
    IsRing (push_scancode one_code 0x30)
    × (queue (push_scancode one_code 0x30) ≡ (
        if ltb (length (queue one_code)) 63 then queue one_code ++ (0x30 ∷ []) else queue one_code))
push_scancode-queue_example = push_scancode-queue one_code 0x30 one_code-IsRing

pop_scancode-queue_example :
    ((queue one_code ≡ []) × (pop_scancode one_code ≡ (none, one_code)))
    ⊎ ((sc : ℕ) × (k' : Keyboard) × (pop_scancode one_code ≡ (some sc, k'))
        × IsRing k'
        × (queue one_code ≡ sc ∷ queue k'))
pop_scancode-queue_example = pop_scancode-queue one_code one_code-IsRing

capital_a : (scancode_to_ascii one_code 0x1E).0 ≡ 65
unfolding scancode_to_ascii apply_caps_lock
capital_a = refl

apply_caps_lock_lem_example :
    (is_upper (apply_caps_lock one_code 98) ≡ true)
    × (letter (apply_caps_lock one_code 98) ≡ letter 98)
apply_caps_lock_lem_example = apply_caps_lock_lem one_code 98 refl

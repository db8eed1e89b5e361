-- ===== src/Keyboard/Case.antt =====
-- Shift and Caps Lock of driver/keyboard.c.
use hao_sys.Base.{ℕ, ◌-◌, ◌≡◌, true, ◌||◌, if◌then◌else◌, arith, Bool-cases, inl, inr}
use hao_sys.Keyboard.{Keyboard, is_lower, is_upper, xor, apply_caps_lock}

-- The letter's place in the alphabet.
abbrev pub letter : ℕ → ℕ
letter c = if is_upper c then c - 65 else c - 97

-- A letter comes out in upper case exactly if one of Shift and Caps Lock is on and not both, and it
-- is the same letter.
pub apply_caps_lock_lem :
    (k : Keyboard) (c : ℕ)
    → (is_lower c || is_upper c) ≡ true
    → (is_upper (apply_caps_lock k c) ≡ xor k.shift_pressed k.caps_lock)
      × (letter (apply_caps_lock k c) ≡ letter c)
unfolding apply_caps_lock
apply_caps_lock_lem k c h = elim (Bool-cases (xor k.shift_pressed k.caps_lock)) [
  | inl e ↦ rw e (ground arith, ground arith)
  | inr e ↦ rw e (ground arith, ground arith)
]

-- ===== src/Mouse/Screen.antt =====
-- The pointer of driver/mouse.c and the text under it.
use hao_sys.Base.{
  ℕ, ◌+◌, ◌*◌, ◌≡◌, refl, ◌∙◌, ap, ◌&&◌, Memory, store, store_self, store_ne, if◌then◌else◌, ◌==◌,
  Bool-cases, inl, inr, ℕ_discrete,
}
use hao_sys.Mouse.{Mouse, pointer_index, mouse_pointer_erase, pointer_put, pointer_draw}

-- The screen as it is without the pointer.
abbrev pub text : Mouse → Memory
text m = if m.pointer_active then store m.cells (pointer_index m) m.pointer_under else m.cells

erase-text : (m : Mouse) → (mouse_pointer_erase m).cells ≡ text m
unfolding mouse_pointer_erase
erase-text m = elim (Bool-cases m.pointer_active) [ inl e ↦ rw e refl | inr e ↦ rw e refl ]

pub erase-text_same : (m : Mouse) → text (mouse_pointer_erase m) ≡ text m
unfolding mouse_pointer_erase
erase-text_same m = elim (Bool-cases m.pointer_active) [ inl e ↦ rw e refl | inr e ↦ rw e refl ]

put-text : (m : Mouse) (row col i : ℕ) → text (pointer_put m row col) i ≡ m.cells i
put-text m row col i = elim (ℕ_discrete i (row * 80 + col)) [
  | yes e ↦ rw (e) (store_self _ (row * 80 + col) _)
  | no e ↦ store_ne _ (row * 80 + col) _ i e ∙ store_ne m.cells (row * 80 + col) _ i e
]

pub draw-text : (m : Mouse) (row col i : ℕ) → text (pointer_draw m row col) i ≡ text m i
unfolding pointer_draw
draw-text m row col i =
    elim (Bool-cases (m.pointer_active && ((m.pointer_row == row) && (m.pointer_col == col)))) [
      | inl e ↦ rw (pointer_draw, e) refl
      | inr e ↦
          rw (pointer_draw, e)
            (put-text (mouse_pointer_erase m) row col i ∙ ap (λ c. c i) (erase-text m))
    ]

-- ===== src/Vga/Calls.antt =====
-- The calls of driver/vga.c, with their lock.
use hao_sys.Base.{
  ℕ, ◌+◌, ◌-◌, ◌≡◌, ◌<◌, refl, Bool, false, not, ◌&&◌, ◌==◌, ltb, if◌then◌else◌, Bool-cases, inl,
  inr, arith, if_both, ltb→lt,
}
use hao_sys.Base.Int.{clamp_lt}
use hao_sys.Vga.{
  Screen, locked, is_position_protected, move_cursor, vga_move_left, vga_move_right, vga_move_up,
  vga_move_down, set_protected, Call, clear, put_char, write_text, write_color, write_hex,
  set_color, set_protection, no_protection, protect_before_cursor, move_left, move_right, move_up,
  move_down, set_cursor, call, vga_clear,
}
use hao_sys.Vga.Keeps.{IsScreen, putchar-IsScreen, text-IsScreen, clear-IsScreen}

-- The calls that return without the unlock: to the left of the first cell and to the right of the last.
abbrev pub forgets_unlock : Call → Screen → Bool
forgets_unlock c s = elim c [
  | move_left ↦ not (ltb 0 s.cursor_col) && not (ltb 0 s.cursor_row)
  | move_right ↦ not (ltb s.cursor_col 79) && not (ltb s.cursor_row 24)
  | _ ↦ false
]

locked-IsScreen :
    (f : Screen → Screen) (s : Screen)
    → ((t : Screen) → IsScreen t → IsScreen (f t))
    → IsScreen s
    → IsScreen (locked f s)
locked-IsScreen f s keep h =
    let k =
      keep (record s { interrupts = false })
        (record { row = h.row; column = h.column; mouse = h.mouse }) in
    record { row = k.row; column = k.column; mouse = k.mouse }

cursor-IsScreen :
    (row col : ℕ) (s : Screen) → row < 25 → col < 80 → IsScreen s → IsScreen (move_cursor row col s)
unfolding move_cursor
cursor-IsScreen row col s hr hc h =
    if_both IsScreen (is_position_protected s row col) s _ h
      (record { row = hr; column = hc; mouse = h.mouse })

locked_cursor-IsScreen :
    (row col : ℕ) (s : Screen)
    → row < 25
    → col < 80
    → IsScreen s
    → IsScreen (locked (move_cursor row col) s)
locked_cursor-IsScreen row col s hr hc h =
    locked-IsScreen (move_cursor row col) s (λ t k. cursor-IsScreen row col t hr hc k) h

-- What a call leaves.
abbrev pub Left : Call → Screen → Screen → Type 0
Left c s t = IsScreen t × (t.interrupts ≡ (if forgets_unlock c s then false else s.interrupts))

vga_move_left-Left : (s : Screen) → IsScreen s → Left move_left s (vga_move_left s)
unfolding vga_move_left
vga_move_left-Left s h = elim (Bool-cases (ltb 0 s.cursor_col)) [
  | inl e ↦
      rw (vga_move_left, e) (locked_cursor-IsScreen _ _ s h.row (omega (arith, h.column)) h, refl)
  | inr e ↦ elim (Bool-cases (ltb 0 s.cursor_row)) [
    | inl f ↦
        rw (vga_move_left, e, f)
          (locked_cursor-IsScreen _ _ s (omega (arith, h.row)) (omega arith) h, refl)
    | inr f ↦
        rw (vga_move_left, e, f) (record { row = h.row; column = h.column; mouse = h.mouse }, refl)
  ]
]

vga_move_right-Left : (s : Screen) → IsScreen s → Left move_right s (vga_move_right s)
unfolding vga_move_right
vga_move_right-Left s h = elim (Bool-cases (ltb s.cursor_col 79)) [
  | inl e ↦
      let l = ltb→lt s.cursor_col 79 e in
      rw (vga_move_right, e) (locked_cursor-IsScreen _ _ s h.row (omega arith) h, refl)
  | inr e ↦ elim (Bool-cases (ltb s.cursor_row 24)) [
    | inl f ↦
        let l = ltb→lt s.cursor_row 24 f in
        rw (vga_move_right, e, f) (locked_cursor-IsScreen _ _ s (omega arith) (omega arith) h, refl)
    | inr f ↦
        rw (vga_move_right, e, f) (record { row = h.row; column = h.column; mouse = h.mouse }, refl)
  ]
]

vga_move_up-Left : (s : Screen) → IsScreen s → Left move_up s (vga_move_up s)
unfolding vga_move_up
vga_move_up-Left s h =
    if_both (Left move_up s) (s.cursor_row == 0) s _ (h, refl)
      (
        locked_cursor-IsScreen (s.cursor_row - 1) s.cursor_col s (omega (arith, h.row)) h.column h,
        refl,
      )

vga_move_down-Left : (s : Screen) → IsScreen s → Left move_down s (vga_move_down s)
unfolding vga_move_down
vga_move_down-Left s h = elim (Bool-cases (s.cursor_row == 24)) [
  | inl e ↦ rw (vga_move_down, e) (h, refl)
  | inr e ↦
      let l : s.cursor_row + 1 < 25 = ground (arith, h.row) in
      rw (vga_move_down, e)
        (locked_cursor-IsScreen (s.cursor_row + 1) s.cursor_col s l h.column h, refl)
]

-- Every call keeps the cursor, the mouse and the pointer on the screen, and puts the interrupt flag back,
-- but for a move to the left of the first cell and one to the right of the last: these leave
-- interrupts off.
pub call-Left : (c : Call) (s : Screen) → IsScreen s → Left c s (call c s)
unfolding call set_protected
call-Left clear s h = (locked-IsScreen vga_clear s clear-IsScreen h, refl)
call-Left (put_char c) s h = (locked-IsScreen _ s (putchar-IsScreen c s.default_color) h, refl)
call-Left (write_text cs) s h = (locked-IsScreen _ s (text-IsScreen cs s.default_color) h, refl)
call-Left (write_color cs color) s h = (locked-IsScreen _ s (text-IsScreen cs color) h, refl)
call-Left (write_hex val) s h = (locked-IsScreen _ s (text-IsScreen _ s.default_color) h, refl)
call-Left (set_color color) s h = (record { row = h.row; column = h.column; mouse = h.mouse }, refl)
call-Left (set_protection row col) s h =
    (record { row = h.row; column = h.column; mouse = h.mouse }, refl)
call-Left no_protection s h = (record { row = h.row; column = h.column; mouse = h.mouse }, refl)
call-Left protect_before_cursor s h =
    (record { row = h.row; column = h.column; mouse = h.mouse }, refl)
call-Left move_left s h = vga_move_left-Left s h
call-Left move_right s h = vga_move_right-Left s h
call-Left move_up s h = vga_move_up-Left s h
call-Left move_down s h = vga_move_down-Left s h
call-Left (set_cursor row col) s h = (
  locked_cursor-IsScreen _ _ s (clamp_lt row 25 (omega arith)) (clamp_lt col 80 (omega arith)) h,
  refl,
)

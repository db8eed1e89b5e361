-- ===== src/Vga/Keeps.antt =====
-- Output in driver/vga.c keeps the cursor on the screen.
use hao_sys.Base.{
  ℕ, zero, suc, ◌+◌, ◌-◌, ◌*◌, ◌%◌, ◌^◌, ◌<◌, ◌≤◌, List, [], ◌∷◌, Memory, ◌==◌, ltb, leb,
  Bool-cases, inl, inr, arith, if_both, ltb→lt,
}
use hao_sys.Mouse.{Mouse}
use hao_sys.Mouse.Packets.{IsMouse, pointed-IsMouse, erase-IsMouse}
use hao_sys.Vga.{
  Screen, is_position_protected, move_to, erase_pointer, vga_clear, scroll, go_on, last_non_space,
  write_cell, put_newline, put_return, rub_out, put_backspace, put_plain, put_spaces, putchar_core,
  put_text,
}

-- The cursor, the mouse and its pointer are on the screen.
pub record IsScreen (s : Screen) : Type 0 where
  pub row : s.cursor_row < 25
  pub column : s.cursor_col < 80
  pub mouse : IsMouse s.mouse

cells-IsMouse : (m : Mouse) (cells : Memory) → IsMouse m → IsMouse (record m { cells = cells })
cells-IsMouse m cells h =
    pointed-IsMouse m m.pointer_active m.pointer_row m.pointer_col m.pointer_under cells h
      h.pointer_line h.pointer_column

erase-IsScreen : (s : Screen) → IsScreen s → IsScreen (erase_pointer s)
erase-IsScreen s h = record {
  row = h.row;
  column = h.column;
  mouse = erase-IsMouse s.mouse h.mouse;
}

write-IsScreen : (s : Screen) (row col word : ℕ) → IsScreen s → IsScreen (write_cell s row col word)
write-IsScreen s row col word h = record {
  row = h.row;
  column = h.column;
  mouse = cells-IsMouse s.mouse _ h.mouse;
}

scroll-IsScreen : (s : Screen) → IsMouse s.mouse → s.cursor_col < 80 → IsScreen (scroll s)
unfolding scroll
scroll-IsScreen s h l = elim (Bool-cases (ltb s.cursor_row 25)) [
  | inl e ↦ rw (scroll, e) (record { row = ltb→lt s.cursor_row 25 e; column = l; mouse = h })
  | inr e ↦
      rw (scroll, e) (record { row = omega arith; column = l; mouse = cells-IsMouse s.mouse _ h })
]

go_on-IsScreen :
    (s : Screen) (row col : ℕ) → IsMouse s.mouse → col < 80 → IsScreen (go_on s row col)
go_on-IsScreen s row col h l =
    let k = scroll-IsScreen (move_to s row col) h l in
    record { row = k.row; column = k.column; mouse = k.mouse }

newline-IsScreen : (s : Screen) → IsScreen s → IsScreen (put_newline s)
unfolding put_newline
newline-IsScreen s h =
    if_both IsScreen (is_position_protected s (s.cursor_row + 1) 0) s _ h
      (go_on-IsScreen s (s.cursor_row + 1) 0 h.mouse (omega arith))

return-IsScreen : (s : Screen) → IsScreen s → IsScreen (put_return s)
unfolding put_return
return-IsScreen s h =
    if_both IsScreen (is_position_protected s s.cursor_row 0) s _ h
      (go_on-IsScreen s s.cursor_row 0 h.mouse (omega arith))

rub_out-IsScreen :
    (s : Screen) (row col color : ℕ)
    → IsScreen s
    → row < 25
    → col < 80
    → IsScreen (rub_out s row col color)
unfolding rub_out
rub_out-IsScreen s row col color h hr hc =
    if_both IsScreen (is_position_protected s row col) s _ h
      (record { row = hr; column = hc; mouse = cells-IsMouse s.mouse _ h.mouse })

last_non_space_lt : (cells : Memory) (row n : ℕ) → n ≤ 80 → last_non_space cells row n < 80
unfolding last_non_space
last_non_space_lt cells row zero h = omega arith
last_non_space_lt cells row (suc i) h =
    if_both (λ c. c < 80) (cells (row * 80 + i) % 2 ^ 8 == 32) (last_non_space cells row i) i
      (last_non_space_lt cells row i (omega arith)) (omega arith)

backspace-IsScreen : (s : Screen) (color : ℕ) → IsScreen s → IsScreen (put_backspace s color)
unfolding put_backspace
backspace-IsScreen s color h =
    if_both IsScreen (ltb 0 s.cursor_col) _ _
      (rub_out-IsScreen s s.cursor_row (s.cursor_col - 1) color h h.row (omega (arith, h.column)))
      (if_both IsScreen (ltb 0 s.cursor_row) _ _
        (rub_out-IsScreen s (s.cursor_row - 1) _ color h (omega (arith, h.row))
          (last_non_space_lt s.mouse.cells (s.cursor_row - 1) 80 (omega arith)))
        h)

pub plain-IsScreen : (c color : ℕ) (s : Screen) → IsScreen s → IsScreen (put_plain c color s)
unfolding put_plain
plain-IsScreen c color s h =
    let written = write_cell s s.cursor_row s.cursor_col (color * 2 ^ 8 + c) in
    let k = write-IsScreen s s.cursor_row s.cursor_col (color * 2 ^ 8 + c) h in
    if_both IsScreen (is_position_protected s s.cursor_row s.cursor_col) s _ h
      (elim (Bool-cases (leb 80 (s.cursor_col + 1))) [
        | inl e ↦ rw (e) (
            if_both IsScreen (leb 25 (s.cursor_row + 1)) _ _
              (go_on-IsScreen written 24 79 k.mouse (omega arith))
              (go_on-IsScreen written (s.cursor_row + 1) 0 k.mouse (omega arith)))
        | inr e ↦
            rw (e) (go_on-IsScreen written s.cursor_row (s.cursor_col + 1) k.mouse (ground arith))
      ])

spaces-IsScreen : (n color : ℕ) (s : Screen) → IsScreen s → IsScreen (put_spaces n color s)
unfolding put_spaces
spaces-IsScreen zero color s h = h
spaces-IsScreen (suc n) color s h =
    spaces-IsScreen n color _ (plain-IsScreen 32 color (erase_pointer s) (erase-IsScreen s h))

pub putchar-IsScreen : (c color : ℕ) (s : Screen) → IsScreen s → IsScreen (putchar_core c color s)
unfolding putchar_core
putchar-IsScreen c color s h =
    let erased = erase_pointer s in
    let k = erase-IsScreen s h in
    if_both IsScreen (c == 10) _ _ (newline-IsScreen erased k) (
      if_both IsScreen (c == 13) _ _ (return-IsScreen erased k) (
        if_both IsScreen (c == 8) _ _ (backspace-IsScreen erased color k) (
          if_both IsScreen (c == 9) _ _ (spaces-IsScreen (4 - erased.cursor_col % 4) color erased k)
            (plain-IsScreen c color erased k))))

pub text-IsScreen :
    (cs : List ℕ) (color : ℕ) (s : Screen) → IsScreen s → IsScreen (put_text cs color s)
unfolding put_text
text-IsScreen [] color s h = h
text-IsScreen (c ∷ cs) color s h =
    text-IsScreen cs color (putchar_core c color s) (putchar-IsScreen c color s h)

pub clear-IsScreen : (s : Screen) → IsScreen s → IsScreen (vga_clear s)
unfolding vga_clear
clear-IsScreen s h =
    let k = erase-IsScreen s h in
    record {
      row = omega arith;
      column = omega arith;
      mouse = cells-IsMouse (erase_pointer s).mouse _ k.mouse;
    }

-- ===== src/Vga.antt =====
-- driver/vga.c: the text screen of 25 rows and 80 columns, its cursor, and the part that is protected. The
-- words of the screen are the mouse's `cells`, since the pointer is drawn there. `interrupts` is the
-- processor's interrupt flag, which `irq_lock` clears and `irq_unlock` puts back, and `hardware_cursor`
-- what the ports of the cursor were given.
pub mod Keeps
pub mod Calls
mod Tests
use hao_sys.Base.{
  ℕ, zero, suc, ◌+◌, ◌-◌, ◌*◌, ◌/◌, ◌%◌, ◌^◌, Bool, true, false, not, ◌&&◌, ◌||◌, List, [], ◌∷◌,
  Memory, store, ◌==◌, ltb, leb, if◌then◌else◌, min,
}
use hao_sys.Base.Int.{ℤ, clamp}
use hao_sys.Mouse.{Mouse, mouse_pointer_erase}

pub record Screen : Type 0 where
  pub mouse : Mouse
  pub cursor_row : ℕ
  pub cursor_col : ℕ
  pub default_color : ℕ
  pub protection_enabled : Bool
  pub protected_row : ℕ
  pub protected_col : ℕ
  pub hardware_cursor : ℕ
  pub interrupts : Bool

abbrev pub set_cells : Screen → Memory → Screen
set_cells s c = record s { mouse = record s.mouse { cells = c } }

-- A call under the lock; the flag is put back.
abbrev pub locked : (Screen → Screen) → Screen → Screen
locked f s = record (f (record s { interrupts = false })) { interrupts = s.interrupts }

-- A return without the unlock.
abbrev pub left_locked : Screen → Screen
left_locked s = record s { interrupts = false }

abbrev pub is_position_protected : Screen → ℕ → ℕ → Bool
is_position_protected s row col =
    s.protection_enabled
    && (ltb row s.protected_row || ((row == s.protected_row) && ltb col s.protected_col))

abbrev pub vga_update_cursor : Screen → Screen
vga_update_cursor s = record s { hardware_cursor = (s.cursor_row * 80 + s.cursor_col) % 2 ^ 16 }

abbrev pub move_to : Screen → ℕ → ℕ → Screen
move_to s row col = record s { cursor_row = row; cursor_col = col }

abbrev pub erase_pointer : Screen → Screen
erase_pointer s = record s { mouse = mouse_pointer_erase s.mouse }

abbrev pub blank : ℕ → ℕ
blank color = color * 2 ^ 8 + 32

unfoldable pub vga_clear : Screen → Screen
vga_clear s =
    let erased : Screen = erase_pointer s in
    vga_update_cursor
      (record (set_cells erased
        (λ i. if ltb i 2000 then blank s.default_color else erased.mouse.cells i)) {
          cursor_row = 0;
          cursor_col = 0;
          protection_enabled = false;
        })

-- Every row goes up by one, and the last one becomes blank; row by row from the top, so that each word
-- is read before it is written.
abbrev pub scrolled : Memory → ℕ → Memory
scrolled cells color i =
    if ltb i 1920 then cells (i + 80) else if ltb i 2000 then blank color else cells i

unfoldable pub scroll : Screen → Screen
scroll s =
    if ltb s.cursor_row 25
    then s
    else vga_update_cursor (record (set_cells s (scrolled s.mouse.cells s.default_color)) {
      protected_row = s.protected_row - 1;
      cursor_row = 24;
    })

-- A cursor that goes on, with the scroll it may need.
abbrev pub go_on : Screen → ℕ → ℕ → Screen
go_on s row col = vga_update_cursor (scroll (move_to s row col))

-- The column of the last of the first `n` characters of a row that is no space, or 0.
unfoldable pub last_non_space : Memory → ℕ → ℕ → ℕ
last_non_space cells row zero = 0
last_non_space cells row (suc i) =
    let rest = last_non_space cells row i in if cells (row * 80 + i) % 2 ^ 8 == 32 then rest else i

abbrev pub write_cell : Screen → ℕ → ℕ → ℕ → Screen
write_cell s row col word = set_cells s (store s.mouse.cells (row * 80 + col) word)

unfoldable pub put_newline : Screen → Screen
put_newline s =
    if is_position_protected s (s.cursor_row + 1) 0 then s else go_on s (s.cursor_row + 1) 0

unfoldable pub put_return : Screen → Screen
put_return s = if is_position_protected s s.cursor_row 0 then s else go_on s s.cursor_row 0

-- The character before the cursor becomes a space.
unfoldable pub rub_out : Screen → ℕ → ℕ → ℕ → Screen
rub_out s row col color =
    if is_position_protected s row col
    then s
    else vga_update_cursor (move_to (write_cell s row col (blank color)) row col)

unfoldable pub put_backspace : Screen → ℕ → Screen
put_backspace s color =
    if ltb 0 s.cursor_col
    then rub_out s s.cursor_row (s.cursor_col - 1) color
    else (if ltb 0 s.cursor_row
        then rub_out s (s.cursor_row - 1) (last_non_space s.mouse.cells (s.cursor_row - 1) 80) color
        else s)

-- The cursor does not leave the last cell.
unfoldable pub put_plain : ℕ → ℕ → Screen → Screen
put_plain c color s =
    let written : Screen = write_cell s s.cursor_row s.cursor_col (color * 2 ^ 8 + c) in
    if is_position_protected s s.cursor_row s.cursor_col
    then s
    else (if leb 80 (s.cursor_col + 1)
        then (if leb 25 (s.cursor_row + 1)
            then go_on written 24 79
            else go_on written (s.cursor_row + 1) 0)
        else go_on written s.cursor_row (s.cursor_col + 1))

unfoldable pub put_spaces : ℕ → ℕ → Screen → Screen
put_spaces zero color s = s
put_spaces (suc n) color s = put_spaces n color (put_plain 32 color (erase_pointer s))

unfoldable pub putchar_core : ℕ → ℕ → Screen → Screen
putchar_core c color s =
    let erased : Screen = erase_pointer s in
    if c == 10
    then put_newline erased
    else if c == 13
    then put_return erased
    else if c == 8
    then put_backspace erased color
    else if c == 9
    then put_spaces (4 - erased.cursor_col % 4) color erased
    else put_plain c color erased

unfoldable pub put_text : List ℕ → ℕ → Screen → Screen
put_text [] color s = s
put_text (c ∷ cs) color s = put_text cs color (putchar_core c color s)

abbrev pub hex_digit : ℕ → ℕ
hex_digit n = if ltb n 10 then 48 + n else 65 + (n - 10)

abbrev pub hex_digits : ℕ → ℕ → List ℕ → List ℕ
hex_digits zero val cs = cs
hex_digits (suc n) val cs = hex_digits n (val / 2 ^ 4) (hex_digit (val % 2 ^ 4) ∷ cs)

-- `row` and `col` of a call, cut to the screen.
unfoldable pub set_protected : ℤ → ℤ → Screen → Screen
set_protected row col s = record s {
  protected_row = clamp row 25;
  protected_col = clamp col 80;
  protection_enabled = true;
}

-- A move of the cursor, unless the place is protected.
unfoldable pub move_cursor : ℕ → ℕ → Screen → Screen
move_cursor row col s =
    if is_position_protected s row col then s else vga_update_cursor (move_to s row col)

-- At the first cell and, below, at the last one the source returns without the unlock.
unfoldable pub vga_move_left : Screen → Screen
vga_move_left s =
    if ltb 0 s.cursor_col
    then locked (move_cursor s.cursor_row (s.cursor_col - 1)) s
    else (if ltb 0 s.cursor_row
        then locked (move_cursor (s.cursor_row - 1) 79) s
        else left_locked s)

unfoldable pub vga_move_right : Screen → Screen
vga_move_right s =
    if ltb s.cursor_col 79
    then locked (move_cursor s.cursor_row (s.cursor_col + 1)) s
    else (if ltb s.cursor_row 24
        then locked (move_cursor (s.cursor_row + 1) 0) s
        else left_locked s)

unfoldable pub vga_move_up : Screen → Screen
vga_move_up s =
    if s.cursor_row == 0 then s else locked (move_cursor (s.cursor_row - 1) s.cursor_col) s

unfoldable pub vga_move_down : Screen → Screen
vga_move_down s =
    if s.cursor_row == 24 then s else locked (move_cursor (s.cursor_row + 1) s.cursor_col) s

abbrev pub vga_get_cursor_pos : Screen → ℕ
vga_get_cursor_pos s = s.cursor_row * 2 ^ 16 + s.cursor_col

-- The calls of the driver.
pub data Call : Type 0 where
  clear : Call
  put_char : ℕ → Call
  write_text : List ℕ → Call
  write_color : List ℕ → ℕ → Call
  write_hex : ℕ → Call
  set_color : ℕ → Call
  set_protection : ℤ → ℤ → Call
  no_protection : Call
  protect_before_cursor : Call
  move_left : Call
  move_right : Call
  move_up : Call
  move_down : Call
  set_cursor : ℤ → ℤ → Call

unfoldable pub call : Call → Screen → Screen
call clear s = locked vga_clear s
call (put_char c) s = locked (putchar_core c s.default_color) s
call (write_text cs) s = locked (put_text cs s.default_color) s
call (write_color cs color) s = locked (put_text cs color) s
call (write_hex val) s = locked (put_text (48 ∷ 120 ∷ hex_digits 8 val []) s.default_color) s
call (set_color color) s = record s { default_color = color }
call (set_protection row col) s = locked (set_protected row col) s
call no_protection s = locked (λ t. record t { protection_enabled = false }) s
call protect_before_cursor s =
    locked
      (λ t. record t {
        protected_row = min t.cursor_row 24;
        protected_col = min t.cursor_col 79;
        protection_enabled = true;
      })
      s
call move_left s = vga_move_left s
call move_right s = vga_move_right s
call move_up s = vga_move_up s
call move_down s = vga_move_down s
call (set_cursor row col) s = locked (move_cursor (clamp row 25) (clamp col 80)) s

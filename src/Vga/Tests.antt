-- ===== src/Vga/Tests.antt =====
-- The cursor in the first cell of an empty screen, with a mouse in the middle.
use hao_sys.Base.{◌≡◌, refl, store, true, false, [], ◌∷◌, arith}
use hao_sys.Base.Int.{pos}
use hao_sys.Mouse.{Mouse, backend_ps2, mouse_pointer_erase}
use hao_sys.Mouse.Packets.{IsMouse}
use hao_sys.Vga.{
  Screen, move_left, move_right, write_text, set_cursor, call, vga_move_right, move_cursor,
  put_text, putchar_core, put_newline, put_backspace, rub_out, put_plain, put_spaces,
  last_non_space, scroll,
}
use hao_sys.Vga.Keeps.{IsScreen}
use hao_sys.Vga.Calls.{Left, call-Left}

abbrev hidden : Mouse
hidden = record {
  mouse_x = 40;
  mouse_y = 12;
  mouse_btn = 0;
  mouse_available = true;
  current_backend = backend_ps2;
  ps2_initialized = true;
  ps2_pkt_cycle = 0;
  ps2_pkt = 0 ∷ 0 ∷ 0 ∷ [];
  mouse_sensitivity = 8;
  ps2_acc_x = pos 0;
  ps2_acc_y = pos 0;
  pointer_active = false;
  pointer_row = 12;
  pointer_col = 40;
  pointer_under = 0x0F20;
  pointer_glyph = 0x1E;
  usb_mouse_present = false;
  cells = λ i. 0x0F20;
}

hidden-IsMouse : IsMouse hidden
hidden-IsMouse = record {
  column = omega arith;
  row = omega arith;
  pointer_column = omega arith;
  pointer_line = omega arith;
  cycle = omega arith;
  packet = refl;
  slow = omega arith;
  fast = omega arith;
  right = omega arith;
  left = omega arith;
  down = omega arith;
  up = omega arith;
}

abbrev empty_screen : Screen
empty_screen = record {
  mouse = hidden;
  cursor_row = 0;
  cursor_col = 0;
  default_color = 15;
  protection_enabled = false;
  protected_row = 0;
  protected_col = 0;
  hardware_cursor = 0;
  interrupts = true;
}

empty_screen-IsScreen : IsScreen empty_screen
empty_screen-IsScreen = record { row = omega arith; column = omega arith; mouse = hidden-IsMouse }

-- `A`, `B`, a backspace, a new line, a tab and `C`.
abbrev written : Screen
written = call (write_text (65 ∷ 66 ∷ 8 ∷ 10 ∷ 9 ∷ 67 ∷ [])) empty_screen

written_runs :
    (written.mouse.cells 0 ≡ 0x0F41)
    × (written.mouse.cells 1 ≡ 0x0F20)
    × (written.mouse.cells 84 ≡ 0x0F43)
    × (written.cursor_row ≡ 1)
    × (written.cursor_col ≡ 5)
    × (written.hardware_cursor ≡ 85)
    × (written.interrupts ≡ true)
unfolding call put_text putchar_core put_newline put_backspace rub_out put_plain last_non_space
    scroll mouse_pointer_erase put_spaces store
written_runs = (refl, refl, refl, refl, refl, refl, refl)

-- A place outside the screen is cut to it; to the right of the last cell the flag stays off.
abbrev last_cell : Screen
last_cell = call (set_cursor (pos 100) (pos 100)) empty_screen

last_cell_runs :
    (last_cell.cursor_row ≡ 24) × (last_cell.cursor_col ≡ 79) × (last_cell.interrupts ≡ true)
unfolding call move_cursor
last_cell_runs = (refl, refl, refl)

last_cell_right : (call move_right last_cell).interrupts ≡ false
unfolding call move_cursor vga_move_right
last_cell_right = refl

call-Left_example : Left move_left empty_screen (call move_left empty_screen)
call-Left_example = call-Left move_left empty_screen empty_screen-IsScreen

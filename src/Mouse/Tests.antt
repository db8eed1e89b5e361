-- ===== src/Mouse/Tests.antt =====
-- A mouse in the middle of the screen, with the pointer drawn there.
use hao_sys.Base.{◌≡◌, refl, true, false, [], ◌∷◌, arith}
use hao_sys.Base.Int.{pos, negsuc}
use hao_sys.Mouse.{
  Mouse, mouse_pointer_erase, backend_ps2, byte_read, sensitivity_set, handle_all, handle,
  mouse_feed_byte, ps2_packet, move_by, pointer_draw,
}
use hao_sys.Mouse.Packets.{IsMouse, Kept, handle_all-Kept}

abbrev middle : Mouse
middle = record {
  mouse_x = 40;
  mouse_y = 12;
  mouse_btn = 0;
  mouse_available = true;
  current_backend = backend_ps2;
  ps2_initialized = true;
  ps2_pkt_cycle = 0;
  ps2_pkt = 0 ∷ 0 ∷ 0 ∷ [];
  mouse_sensitivity = 8;
  ps2_acc_x = pos 0;
  ps2_acc_y = pos 0;
  pointer_active = true;
  pointer_row = 12;
  pointer_col = 40;
  pointer_under = 0x0F20;
  pointer_glyph = 0x1E;
  usb_mouse_present = false;
  cells = λ i. 0x0F20;
}

middle-IsMouse : IsMouse middle
middle-IsMouse = record {
  column = omega arith;
  row = omega arith;
  pointer_column = omega arith;
  pointer_line = omega arith;
  cycle = omega arith;
  packet = refl;
  slow = omega arith;
  fast = omega arith;
  right = omega arith;
  left = omega arith;
  down = omega arith;
  up = omega arith;
}

-- 20 to the left and 17 up: two steps each, with 4 and 1 left over.
abbrev left_up : Mouse
left_up = handle_all (byte_read 0x18 ∷ byte_read 236 ∷ byte_read 17 ∷ []) middle

left_up-runs :
    (left_up.mouse_x ≡ 38)
    × (left_up.mouse_y ≡ 10)
    × (left_up.ps2_acc_x ≡ negsuc 3)
    × (left_up.ps2_acc_y ≡ pos 1)
unfolding handle_all handle mouse_feed_byte ps2_packet move_by pointer_draw mouse_pointer_erase
left_up-runs = (refl, refl, refl, refl)

handle_all-Kept_example :
    Kept middle
      (handle_all (byte_read 0x18 ∷ byte_read 236 ∷ sensitivity_set (negsuc 4) ∷ []) middle)
handle_all-Kept_example = handle_all-Kept _ middle middle-IsMouse

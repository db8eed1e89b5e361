-- ===== src/Mouse.antt =====
-- driver/mouse.c: the packets of a PS/2 mouse and the reports of a USB mouse, the pointer on the screen,
-- and the choice between the two. `cells` are the words of the text screen. A position is never
-- negative. What the ports and the USB stack give is an argument; waiting for a port is not modelled.
pub mod Screen
pub mod Packets
mod Tests
use hao_sys.Base.{
  ℕ, zero, suc, ◌+◌, ◌-◌, ◌*◌, ◌/◌, ◌%◌, ◌^◌, Bool, true, false, not, ◌&&◌, List, [], ◌∷◌, Memory,
  store, ◌==◌, ltb, leb, if◌then◌else◌, get_or, set,
}
use hao_sys.Base.Int.{ℤ, pos, negsuc, diff, plus_part, add, sub, tdiv, tmod, clamp}

pub data Backend : Type 0 where
  backend_none : Backend
  backend_ps2 : Backend
  backend_usb : Backend

pub record Mouse : Type 0 where
  pub mouse_x : ℕ
  pub mouse_y : ℕ
  pub mouse_btn : ℕ
  pub mouse_available : Bool
  pub current_backend : Backend
  pub ps2_initialized : Bool
  pub ps2_pkt_cycle : ℕ
  pub ps2_pkt : List ℕ
  pub mouse_sensitivity : ℕ
  pub ps2_acc_x : ℤ
  pub ps2_acc_y : ℤ
  pub pointer_active : Bool
  pub pointer_row : ℕ
  pub pointer_col : ℕ
  pub pointer_under : ℕ
  pub pointer_glyph : ℕ
  pub usb_mouse_present : Bool
  pub cells : Memory

abbrev pub invert_attr : ℕ → ℕ
invert_attr attr = attr % 2 ^ 4 * 2 ^ 4 + attr / 2 ^ 4 % 2 ^ 4

abbrev pub pointer_index : Mouse → ℕ
pointer_index m = m.pointer_row * 80 + m.pointer_col

unfoldable pub mouse_pointer_erase : Mouse → Mouse
mouse_pointer_erase m =
    if m.pointer_active
    then record m {
      cells = store m.cells (pointer_index m) m.pointer_under;
      pointer_active = false;
    }
    else m

-- The pointer at a place where none is drawn.
abbrev pub pointer_put : Mouse → ℕ → ℕ → Mouse
pointer_put m row col =
    let i = row * 80 + col in
    let under = m.cells i in
    record m {
      pointer_row = row;
      pointer_col = col;
      pointer_under = under;
      cells = store m.cells i (invert_attr (under / 2 ^ 8 % 2 ^ 8) * 2 ^ 8 + m.pointer_glyph);
      pointer_active = true;
    }

unfoldable pub pointer_draw : Mouse → ℕ → ℕ → Mouse
pointer_draw m row col =
    if m.pointer_active && ((m.pointer_row == row) && (m.pointer_col == col))
    then m
    else pointer_put (mouse_pointer_erase m) row col

-- Bit `k` of a byte.
abbrev pub bit_set : ℕ → ℕ → Bool
bit_set b k = b / 2 ^ k % 2 == 1

-- A displacement with its sign bit: `dx |= 0xFFFFFF00` subtracts 256 from a byte.
abbrev pub displacement : ℕ → Bool → ℤ
displacement b negative = if negative then diff b 256 else pos b

-- A move by a number of steps; the remainders stay in the accumulators.
unfoldable pub move_by : Mouse → ℤ → ℤ → Bool → ℕ → Mouse
move_by m dx dy up btn =
    let ax = add m.ps2_acc_x dx in
    let ay = add m.ps2_acc_y dy in
    let s = m.mouse_sensitivity in
    let y : ℤ = if up then sub (pos m.mouse_y) (tdiv ay s) else add (pos m.mouse_y) (tdiv ay s) in
    record m {
      mouse_x = clamp (add (pos m.mouse_x) (tdiv ax s)) 80;
      mouse_y = clamp y 25;
      ps2_acc_x = tmod ax s;
      ps2_acc_y = tmod ay s;
      mouse_btn = btn;
    }

abbrev pub draw_at_mouse : Mouse → Mouse
draw_at_mouse m = pointer_draw m m.mouse_y m.mouse_x

-- A packet of three bytes; without bit 3 in the first it is dropped.
unfoldable pub ps2_packet : Mouse → ℕ → ℕ → ℕ → Mouse
ps2_packet m status bx by =
    if bit_set status 3
    then draw_at_mouse (
        move_by m (displacement bx (bit_set status 4)) (displacement by (bit_set status 5)) true
          (status % 2 ^ 3))
    else m

-- The counter goes back to 0 after a packet, which does not look at it.
unfoldable pub mouse_feed_byte : Mouse → ℕ → Mouse
mouse_feed_byte m byte =
    let pkt = set m.ps2_pkt m.ps2_pkt_cycle byte in
    let full : Mouse = record m { ps2_pkt = pkt; ps2_pkt_cycle = 0 } in
    if m.ps2_pkt_cycle + 1 == 3
    then ps2_packet full (get_or pkt 0 0) (get_or pkt 1 0) (get_or pkt 2 0)
    else record m { ps2_pkt = pkt; ps2_pkt_cycle = m.ps2_pkt_cycle + 1 }

-- The bytes that the port holds.
unfoldable pub mouse_poll : List ℕ → Mouse → Mouse
mouse_poll [] m = m
mouse_poll (b ∷ bs) m = mouse_poll bs (mouse_feed_byte m b)

-- IRQ 12, with the controller's status and the byte at its port.
unfoldable pub ps2_mouse_irq_handler : ℕ → ℕ → Mouse → Mouse
ps2_mouse_irq_handler status byte m = if bit_set status 5 then mouse_feed_byte m byte else m

-- `reports` is whether the mouse acknowledges that it is to report.
unfoldable pub ps2_init : Bool → Mouse → Bool × Mouse
ps2_init reports m = if reports then (true, record m { ps2_initialized = true }) else (false, m)

-- Three bytes of a report: buttons and two signed displacements; down is positive.
unfoldable pub usb_process_report : ℕ → ℕ → ℕ → ℕ → Mouse → Mouse
usb_process_report len buttons bx by m =
    if ltb len 3
    then m
    else draw_at_mouse (
        move_by m (displacement bx (leb 128 bx)) (displacement by (leb 128 by)) false
          (buttons % 2 ^ 3))

abbrev pub is_usb : Backend → Bool
is_usb b = elim b [ backend_usb ↦ true | _ ↦ false ]

-- The USB mouse is gone.
unfoldable pub usb_lost : Mouse → Mouse
usb_lost m =
    let gone : Mouse = record m { usb_mouse_present = false } in
    if is_usb m.current_backend
    then (if m.ps2_initialized
        then record gone { current_backend = backend_ps2; mouse_available = true }
        else record gone { current_backend = backend_none; mouse_available = false })
    else gone

-- `submitted` is whether the next transfer could be submitted.
unfoldable pub usb_mouse_urb_callback : ℕ → ℕ → ℕ → ℕ → Bool → Mouse → Mouse
usb_mouse_urb_callback len buttons bx by submitted m =
    let moved = usb_process_report len buttons bx by m in
    if ltb len 3
    then usb_lost m
    else (if moved.usb_mouse_present && not submitted then usb_lost moved else moved)

-- `found` is the result of the search for a USB mouse.
unfoldable pub mouse_init : Bool → Bool → Mouse → Mouse
mouse_init found reports m =
    let (ok, initialised) = ps2_init reports m in
    let usb : Mouse = record m {
      usb_mouse_present = true;
      current_backend = backend_usb;
      mouse_available = true;
    } in
    if found
    then (ps2_init reports usb).1
    else (if ok
        then record initialised { current_backend = backend_ps2; mouse_available = true }
        else record initialised { mouse_available = false })

abbrev pub mouse_get_sensitivity : Mouse → ℕ
mouse_get_sensitivity m = m.mouse_sensitivity

-- Between 1 and 16.
unfoldable pub mouse_set_sensitivity : ℤ → Mouse → Mouse
mouse_set_sensitivity sens m =
    let low : ℕ = if ltb (plus_part sens) 1 then 1 else plus_part sens in
    record m { mouse_sensitivity = if ltb 16 low then 16 else low }

abbrev pub mouse_set_pointer_glyph : ℕ → Mouse → Mouse
mouse_set_pointer_glyph g m = record m { pointer_glyph = g }

abbrev pub position : Mouse → ℕ × ℕ × ℕ
position m = (m.mouse_x, m.mouse_y, m.mouse_btn)

-- `bytes` are what the port holds when it is polled.
unfoldable pub mouse_get_packet : List ℕ → Mouse → (ℕ × ℕ × ℕ) × Mouse
mouse_get_packet bytes m =
    let polled = mouse_poll bytes m in
    if m.mouse_available
    then elim m.current_backend [
      | backend_ps2 ↦ (position polled, polled)
      | backend_usb ↦ if m.usb_mouse_present then (position m, m) else ((0, 0, 0), m)
      | backend_none ↦ ((0, 0, 0), m)
    ]
    else ((0, 0, 0), m)

-- What happens to the mouse.
pub data Event : Type 0 where
  byte_read : ℕ → Event
  usb_report : ℕ → ℕ → ℕ → ℕ → Bool → Event
  sensitivity_set : ℤ → Event
  glyph_set : ℕ → Event
  pointer_erased : Event

unfoldable pub handle : Event → Mouse → Mouse
handle (byte_read b) m = mouse_feed_byte m b
handle (usb_report len buttons bx by submitted) m =
    usb_mouse_urb_callback len buttons bx by submitted m
handle (sensitivity_set z) m = mouse_set_sensitivity z m
handle (glyph_set g) m = mouse_set_pointer_glyph g m
handle pointer_erased m = mouse_pointer_erase m

unfoldable pub handle_all : List Event → Mouse → Mouse
handle_all [] m = m
handle_all (e ∷ es) m = handle_all es (handle e m)

-- ===== src/Mouse/Packets.antt =====
-- What driver/mouse.c keeps, whatever bytes and reports come.
use hao_sys.Base.{
  ℕ, ◌+◌, ◌≡◌, ◌<◌, ◌≤◌, refl, ◌∙◌, ap, Bool, true, false, not, ◌&&◌, List, [], ◌∷◌, Memory,
  if◌then◌else◌, ◌==◌, ltb, Bool-cases, inl, inr, arith, length, set, length-set, if_both,
}
use hao_sys.Base.Int.{ℤ, pos, plus_part, minus_part, tmod_lt, clamp_lt, add, sub, tdiv}
use hao_sys.Mouse.{
  Mouse, Backend, backend_none, backend_ps2, mouse_pointer_erase, pointer_draw, move_by, ps2_packet,
  mouse_feed_byte, usb_process_report, usb_lost, usb_mouse_urb_callback, mouse_set_sensitivity,
  mouse_set_pointer_glyph, is_usb, Event, byte_read, usb_report, sensitivity_set, glyph_set,
  pointer_erased, handle, handle_all, draw_at_mouse, bit_set,
}
use hao_sys.Mouse.Screen.{text, draw-text, erase-text_same}

-- The mouse and the pointer are on the screen of 25 rows and 80 columns, a packet has less than three
-- bytes so far, and the accumulators hold less than a step of the slowest setting.
pub record IsMouse (m : Mouse) : Type 0 where
  pub column : m.mouse_x < 80
  pub row : m.mouse_y < 25
  pub pointer_column : m.pointer_col < 80
  pub pointer_line : m.pointer_row < 25
  pub cycle : m.ps2_pkt_cycle < 3
  pub packet : length m.ps2_pkt ≡ 3
  pub slow : 0 < m.mouse_sensitivity
  pub fast : m.mouse_sensitivity ≤ 16
  pub right : plus_part m.ps2_acc_x < 16
  pub left : minus_part m.ps2_acc_x < 16
  pub down : plus_part m.ps2_acc_y < 16
  pub up : minus_part m.ps2_acc_y < 16

-- A change that keeps the mouse in order, and the text.
abbrev pub Kept : Mouse → Mouse → Type 0
Kept m n = IsMouse n × ((i : ℕ) → text n i ≡ text m i)

and_then : (l m n : Mouse) → Kept l m → (IsMouse m → Kept m n) → Kept l n
and_then l m n (h, e) f = let (k, g) = f h in (k, λ i. g i ∙ e i)

move_by-Kept :
    (m : Mouse) (dx dy : ℤ) (up : Bool) (btn : ℕ) → IsMouse m → Kept m (move_by m dx dy up btn)
unfolding move_by
move_by-Kept m dx dy up btn h =
    let (r, l) = tmod_lt (add m.ps2_acc_x dx) m.mouse_sensitivity h.slow in
    let (d, u) = tmod_lt (add m.ps2_acc_y dy) m.mouse_sensitivity h.slow in
    (
      record {
        column =
            clamp_lt (add (pos m.mouse_x) (tdiv (add m.ps2_acc_x dx) m.mouse_sensitivity)) 80
              (omega arith);
        row =
            clamp_lt
              (if up
                then sub (pos m.mouse_y) (tdiv (add m.ps2_acc_y dy) m.mouse_sensitivity)
                else add (pos m.mouse_y) (tdiv (add m.ps2_acc_y dy) m.mouse_sensitivity))
              25 (omega arith);
        pointer_column = h.pointer_column;
        pointer_line = h.pointer_line;
        cycle = h.cycle;
        packet = h.packet;
        slow = h.slow;
        fast = h.fast;
        right = omega (arith, h.fast, r);
        left = omega (arith, h.fast, l);
        down = omega (arith, h.fast, d);
        up = omega (arith, h.fast, u);
      },
      λ i. refl,
    )

-- A pointer on the screen, in a mouse that is the same otherwise.
pub pointed-IsMouse :
    (m : Mouse) (active : Bool) (row col under : ℕ) (cells : Memory)
    → IsMouse m
    → row < 25
    → col < 80
    → IsMouse (record m {
      pointer_active = active;
      pointer_row = row;
      pointer_col = col;
      pointer_under = under;
      cells = cells;
    })
pointed-IsMouse m active row col under cells h hr hc = record {
  column = h.column;
  row = h.row;
  pointer_column = hc;
  pointer_line = hr;
  cycle = h.cycle;
  packet = h.packet;
  slow = h.slow;
  fast = h.fast;
  right = h.right;
  left = h.left;
  down = h.down;
  up = h.up;
}

pub erase-IsMouse : (m : Mouse) → IsMouse m → IsMouse (mouse_pointer_erase m)
unfolding mouse_pointer_erase
erase-IsMouse m h =
    if_both IsMouse m.pointer_active _ m
      (pointed-IsMouse m false m.pointer_row m.pointer_col m.pointer_under _ h h.pointer_line
        h.pointer_column)
      h

draw-Kept :
    (m : Mouse) (row col : ℕ) → IsMouse m → row < 25 → col < 80 → Kept m (pointer_draw m row col)
unfolding pointer_draw
draw-Kept m row col h hr hc = (
  if_both IsMouse (m.pointer_active && ((m.pointer_row == row) && (m.pointer_col == col))) m _ h
      (pointed-IsMouse (mouse_pointer_erase m) true row col _ _ (erase-IsMouse m h) hr hc),
  draw-text m row col,
)

moved-Kept :
    (m : Mouse) (dx dy : ℤ) (up : Bool) (btn : ℕ)
    → IsMouse m
    → Kept m (draw_at_mouse (move_by m dx dy up btn))
moved-Kept m dx dy up btn h =
    and_then m (move_by m dx dy up btn) _ (move_by-Kept m dx dy up btn h)
      (λ k. draw-Kept (move_by m dx dy up btn) _ _ k k.row k.column)

same-Kept : (m : Mouse) → IsMouse m → Kept m m
same-Kept m h = (h, λ i. refl)

packet-Kept : (m : Mouse) (status bx by : ℕ) → IsMouse m → Kept m (ps2_packet m status bx by)
unfolding ps2_packet
packet-Kept m status bx by h =
    if_both (Kept m) (bit_set status 3) _ m (moved-Kept m _ _ true _ h) (same-Kept m h)

-- The bytes of a packet that is not full yet.
fed-Kept :
    (m : Mouse) (pkt : List ℕ) (cycle : ℕ)
    → IsMouse m
    → length pkt ≡ 3
    → cycle < 3
    → Kept m (record m { ps2_pkt = pkt; ps2_pkt_cycle = cycle })
fed-Kept m pkt cycle h full l = (
  record {
    column = h.column;
    row = h.row;
    pointer_column = h.pointer_column;
    pointer_line = h.pointer_line;
    cycle = l;
    packet = full;
    slow = h.slow;
    fast = h.fast;
    right = h.right;
    left = h.left;
    down = h.down;
    up = h.up;
  },
  λ i. refl,
)

mouse_feed_byte-Kept : (m : Mouse) (byte : ℕ) → IsMouse m → Kept m (mouse_feed_byte m byte)
unfolding mouse_feed_byte
mouse_feed_byte-Kept m byte h =
    let pkt = set m.ps2_pkt m.ps2_pkt_cycle byte in
    let size : length pkt ≡ 3 = length-set m.ps2_pkt m.ps2_pkt_cycle byte ∙ h.packet in
    let full = record m { ps2_pkt = pkt; ps2_pkt_cycle = 0 } in
    elim (Bool-cases (m.ps2_pkt_cycle + 1 == 3)) [
      | inl e ↦
          rw (mouse_feed_byte, e)
            (and_then m full _ (fed-Kept m pkt 0 h size (omega arith)) (packet-Kept full _ _ _))
      | inr e ↦
          let room : m.ps2_pkt_cycle + 1 < 3 = ground (arith, h.cycle) in
          rw (mouse_feed_byte, e) (fed-Kept m pkt (m.ps2_pkt_cycle + 1) h size room)
    ]

report-Kept :
    (len buttons bx by : ℕ) (m : Mouse)
    → IsMouse m
    → Kept m (usb_process_report len buttons bx by m)
unfolding usb_process_report
report-Kept len buttons bx by m h =
    if_both (Kept m) (ltb len 3) m _ (same-Kept m h) (moved-Kept m _ _ false _ h)

-- A change of the mouse that is in use.
backend-Kept :
    (m : Mouse) (present available : Bool) (b : Backend)
    → IsMouse m
    → Kept m
        (record m { usb_mouse_present = present; mouse_available = available; current_backend = b })
backend-Kept m present available b h = (
  record {
    column = h.column;
    row = h.row;
    pointer_column = h.pointer_column;
    pointer_line = h.pointer_line;
    cycle = h.cycle;
    packet = h.packet;
    slow = h.slow;
    fast = h.fast;
    right = h.right;
    left = h.left;
    down = h.down;
    up = h.up;
  },
  λ i. refl,
)

lost-Kept : (m : Mouse) → IsMouse m → Kept m (usb_lost m)
unfolding usb_lost
lost-Kept m h =
    if_both (Kept m) (is_usb m.current_backend) _ _
      (if_both (Kept m) m.ps2_initialized _ _ (backend-Kept m false true backend_ps2 h)
        (backend-Kept m false false backend_none h))
      (backend-Kept m false m.mouse_available m.current_backend h)

callback-Kept :
    (len buttons bx by : ℕ) (submitted : Bool) (m : Mouse)
    → IsMouse m
    → Kept m (usb_mouse_urb_callback len buttons bx by submitted m)
unfolding usb_mouse_urb_callback
callback-Kept len buttons bx by submitted m h =
    let moved = usb_process_report len buttons bx by m in
    let keeps = report-Kept len buttons bx by m h in
    if_both (Kept m) (ltb len 3) _ _ (lost-Kept m h) (
      if_both (Kept m) (moved.usb_mouse_present && not submitted) _ _
        (and_then m moved _ keeps (lost-Kept moved)) keeps)

sensitivity-Kept :
    (m : Mouse) (s : ℕ) → IsMouse m → 0 < s → s ≤ 16 → Kept m (record m { mouse_sensitivity = s })
sensitivity-Kept m s h l u = (
  record {
    column = h.column;
    row = h.row;
    pointer_column = h.pointer_column;
    pointer_line = h.pointer_line;
    cycle = h.cycle;
    packet = h.packet;
    slow = l;
    fast = u;
    right = h.right;
    left = h.left;
    down = h.down;
    up = h.up;
  },
  λ i. refl,
)

glyph-Kept : (m : Mouse) (g : ℕ) → IsMouse m → Kept m (mouse_set_pointer_glyph g m)
glyph-Kept m g h = (
  record {
    column = h.column;
    row = h.row;
    pointer_column = h.pointer_column;
    pointer_line = h.pointer_line;
    cycle = h.cycle;
    packet = h.packet;
    slow = h.slow;
    fast = h.fast;
    right = h.right;
    left = h.left;
    down = h.down;
    up = h.up;
  },
  λ i. refl,
)

handle-Kept : (e : Event) (m : Mouse) → IsMouse m → Kept m (handle e m)
unfolding handle mouse_set_sensitivity
handle-Kept (byte_read b) m h = mouse_feed_byte-Kept m b h
handle-Kept (usb_report len buttons bx by submitted) m h =
    callback-Kept len buttons bx by submitted m h
handle-Kept (sensitivity_set z) m h = sensitivity-Kept m _ h (ground arith) (ground arith)
handle-Kept (glyph_set g) m h = glyph-Kept m g h
handle-Kept pointer_erased m h = (erase-IsMouse m h, λ i. ap (λ c. c i) (erase-text_same m))

pub handle_all-Kept : (es : List Event) (m : Mouse) → IsMouse m → Kept m (handle_all es m)
unfolding handle_all
handle_all-Kept [] m h = same-Kept m h
handle_all-Kept (e ∷ es) m h =
    and_then m (handle e m) _ (handle-Kept e m h) (handle_all-Kept es (handle e m))

-- ===== src/Keyboard.antt =====
-- driver/keyboard.c: the ring buffer of scan codes and their translation. A port that is read is an
-- argument: the byte that it gave, or `none` if the controller had none.
pub mod Ring
pub mod Case
mod Tests
use hao_sys.Base.{
  ℕ, zero, suc, ◌+◌, ◌-◌, ◌*◌, ◌/◌, ◌%◌, ◌^◌, Bool, true, false, not, ◌&&◌, ◌||◌, Option, none,
  some, List, [], ◌∷◌, Memory, store, ◌==◌, ltb, leb, if◌then◌else◌, get_or,
}

pub record Keyboard : Type 0 where
  pub buffer : Memory
  pub head : ℕ
  pub tail : ℕ
  pub shift_pressed : Bool
  pub caps_lock : Bool

abbrev pub buffer_size : ℕ
buffer_size = 64

-- The code is dropped if the buffer is full.
unfoldable pub push_scancode : Keyboard → ℕ → Keyboard
push_scancode k sc =
    let next_tail = (k.tail + 1) % buffer_size in
    if next_tail == k.head
    then k
    else record k { buffer = store k.buffer k.tail sc; tail = next_tail }

-- `keyboard_irq_handler`, with what the port gave.
unfoldable pub irq_handler : Keyboard → Option ℕ → Keyboard
irq_handler k none = k
irq_handler k (some sc) = push_scancode k sc

unfoldable pub pop_scancode : Keyboard → Option ℕ × Keyboard
pop_scancode k =
    if k.head == k.tail
    then (none, k)
    else (some (k.buffer k.head), record k { head = (k.head + 1) % buffer_size })

abbrev pub is_lower : ℕ → Bool
is_lower c = leb 97 c && leb c 122

abbrev pub is_upper : ℕ → Bool
is_upper c = leb 65 c && leb c 90

abbrev pub xor : Bool → Bool → Bool
xor a b = if a then not b else b

-- Shift and Caps Lock cancel each other; other characters stay.
unfoldable pub apply_caps_lock : Keyboard → ℕ → ℕ
apply_caps_lock k c =
    if is_lower c || is_upper c
    then (if xor k.shift_pressed k.caps_lock
        then (if is_lower c then c - 97 + 65 else c)
        else (if is_upper c then c - 65 + 97 else c))
    else c

-- The entries 0x00 to 0x39 of the two maps; the others are 0.
abbrev pub normal_map : List ℕ
normal_map =
    0 ∷ 27 ∷ 49 ∷ 50 ∷ 51 ∷ 52 ∷ 53 ∷ 54 ∷ 55 ∷ 56 ∷ 57 ∷ 48 ∷ 45 ∷ 61 ∷ 8 ∷ 9 ∷ 113 ∷ 119 ∷ 101
    ∷ 114 ∷ 116 ∷ 121 ∷ 117 ∷ 105 ∷ 111 ∷ 112 ∷ 91 ∷ 93 ∷ 10 ∷ 0 ∷ 97 ∷ 115 ∷ 100 ∷ 102 ∷ 103 ∷ 104
    ∷ 106 ∷ 107 ∷ 108 ∷ 59 ∷ 39 ∷ 96 ∷ 0 ∷ 92 ∷ 122 ∷ 120 ∷ 99 ∷ 118 ∷ 98 ∷ 110 ∷ 109 ∷ 44 ∷ 46 ∷ 47
    ∷ 0 ∷ 42 ∷ 0 ∷ 32 ∷ []

abbrev pub shift_map : List ℕ
shift_map =
    0 ∷ 27 ∷ 33 ∷ 64 ∷ 35 ∷ 36 ∷ 37 ∷ 94 ∷ 38 ∷ 42 ∷ 40 ∷ 41 ∷ 95 ∷ 43 ∷ 8 ∷ 9 ∷ 81 ∷ 87 ∷ 69 ∷ 82
    ∷ 84 ∷ 89 ∷ 85 ∷ 73 ∷ 79 ∷ 80 ∷ 123 ∷ 125 ∷ 10 ∷ 0 ∷ 65 ∷ 83 ∷ 68 ∷ 70 ∷ 71 ∷ 72 ∷ 74 ∷ 75 ∷ 76
    ∷ 58 ∷ 34 ∷ 126 ∷ 0 ∷ 124 ∷ 90 ∷ 88 ∷ 67 ∷ 86 ∷ 66 ∷ 78 ∷ 77 ∷ 60 ∷ 62 ∷ 63 ∷ 0 ∷ 42 ∷ 0 ∷ 32
    ∷ []

abbrev pub is_shift : ℕ → Bool
is_shift key = (key == 0x2A) || (key == 0x36)

-- The character, or 0 for a key that only changes a state or goes up.
unfoldable pub scancode_to_ascii : Keyboard → ℕ → ℕ × Keyboard
scancode_to_ascii k sc =
    let c = get_or (if k.shift_pressed then shift_map else normal_map) sc 0 in
    if leb 0x80 sc
    then (0, (if is_shift (sc - 0x80) then record k { shift_pressed = false } else k))
    else (if is_shift sc
        then (0, record k { shift_pressed = true })
        else (if sc == 0x3A
            then (0, record k { caps_lock = not k.caps_lock })
            else ((if c == 0 then 0 else apply_caps_lock k c), k)))

-- The special codes of the arrow keys, before the translation.
unfoldable pub key_of : Keyboard → ℕ → ℕ × Keyboard
key_of k sc =
    if sc == 0x48
    then (0x01, k)
    else (if sc == 0x50
        then (0x02, k)
        else (if sc == 0x4B
            then (0x03, k)
            else if sc == 0x4D
            then (0x04, k)
            else scancode_to_ascii k sc))

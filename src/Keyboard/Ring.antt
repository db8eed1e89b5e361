-- ===== src/Keyboard/Ring.antt =====
-- The ring buffer of driver/keyboard.c as a queue of at most 63 scan codes.
use hao_sys.Base.{
  ℕ, zero, suc, ◌+◌, ◌-◌, ◌%◌, ◌<◌, ◌≡◌, refl, ap, true, false, none, some, List, [], ◌∷◌, ◌++◌,
  Memory, store, ◌==◌, ltb, if◌then◌else◌, length, arith, Bool-cases, inl, inr, ◌⊎◌,
}
use hao_sys.Keyboard.{Keyboard, buffer_size, push_scancode, pop_scancode}

-- The `n` codes from slot `i` on.
abbrev pub codes : Memory → ℕ → ℕ → List ℕ
codes b i zero = []
codes b i (suc n) = b i ∷ codes b ((i + 1) % buffer_size) n

abbrev pub count : Keyboard → ℕ
count k = (k.tail + buffer_size - k.head) % buffer_size

-- The queue that the buffer stands for, oldest code first.
abbrev pub queue : Keyboard → List ℕ
queue k = codes k.buffer k.head (count k)

pub record IsRing (k : Keyboard) : Type 0 where
  pub head_in : k.head < buffer_size
  pub tail_in : k.tail < buffer_size

codes-snoc :
    (b : Memory) (i n t v : ℕ)
    → i < buffer_size
    → n < buffer_size
    → t ≡ (i + n) % buffer_size
    → codes (store b t v) i (suc n) ≡ codes b i n ++ (v ∷ [])
unfolding store
codes-snoc b i zero t v hi hn e = let at : (i == t) ≡ true = ground arith in rw at refl
codes-snoc b i (suc n) t v hi hn e =
    let other : (i == t) ≡ false = ground arith in
    rw other (
      ap (λ l. b i ∷ l)
        (codes-snoc b ((i + 1) % buffer_size) n t v (omega arith) (omega arith) (omega arith)))

-- A scan code goes to the end of the queue if fewer than 63 wait, and is dropped otherwise.
pub push_scancode-queue :
    (k : Keyboard) (sc : ℕ)
    → IsRing k
    → IsRing (push_scancode k sc)
      × (queue (push_scancode k sc)
          ≡ (if ltb (length (queue k)) 63 then queue k ++ (sc ∷ []) else queue k))
unfolding push_scancode
push_scancode-queue k sc r = elim (Bool-cases ((k.tail + 1) % buffer_size == k.head)) [
  | inl full ↦
      let no_room : ltb (length (queue k)) 63 ≡ false =
        ground (arith, length-codes k.buffer k.head (count k), r.head_in, r.tail_in) in
      rw (full, no_room) (r, refl)
  | inr free ↦
      let room : ltb (length (queue k)) 63 ≡ true =
        ground (arith, length-codes k.buffer k.head (count k), r.head_in, r.tail_in) in
      let more : ((k.tail + 1) % buffer_size + buffer_size - k.head) % buffer_size ≡ suc (count k) =
        ground (arith, r.head_in, r.tail_in) in
      rw (free, room, more)
        (
          record { head_in = r.head_in; tail_in = omega arith },
          codes-snoc k.buffer k.head (count k) k.tail sc r.head_in (omega arith)
              (omega (arith, r.head_in, r.tail_in)),
        )
]
  where
    length-codes : (b : Memory) (i n : ℕ) → length (codes b i n) ≡ n
    length-codes b i zero = refl
    length-codes b i (suc n) = ap suc (length-codes b ((i + 1) % buffer_size) n)

-- The oldest scan code comes out first; an empty buffer gives none and stays.
pub pop_scancode-queue :
    (k : Keyboard)
    → IsRing k
    → ((queue k ≡ []) × (pop_scancode k ≡ (none, k)))
      ⊎ ((sc : ℕ) × (k' : Keyboard) × (pop_scancode k ≡ (some sc, k'))
          × IsRing k'
          × (queue k ≡ sc ∷ queue k'))
unfolding pop_scancode
pop_scancode-queue k r = elim (Bool-cases (k.head == k.tail)) [
  | inl e ↦
      let nothing : count k ≡ 0 = ground (arith, r.head_in) in inl (rw nothing refl, rw e refl)
  | inr e ↦
      let less : count k ≡ suc ((k.tail + buffer_size - (k.head + 1) % buffer_size) % buffer_size) =
        ground (arith, r.head_in, r.tail_in) in
      inr (
        k.buffer k.head,
        record k { head = (k.head + 1) % buffer_size },
        rw e refl,
        record { head_in = omega arith; tail_in = r.tail_in },
        rw less refl,
      )
]

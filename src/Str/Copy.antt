-- ===== src/Str/Copy.antt =====
-- What strncpy of lib/string.c leaves in memory, for strings that fit and for strings that do not.
use hao_sys.Base.{
  ℕ, zero, suc, ◌-◌, ◌^◌, ◌<◌, ◌≤◌, ◌≡◌, ◌≢◌, refl, ◌∙◌, true, false, [], ◌∷◌, Memory, store, add32,
  sub32, ◌==◌, ltb, leb, ◌&&◌, if◌then◌else◌, arith, ℕ_discrete, store_self, store_ne, Bool-cases,
  inl, inr, length, take, not, ltb→lt, get_or, length-take,
}
use hao_sys.Str.{copy_chars, strncpy}
use hao_sys.Str.Text.{Text, IsString}
use hao_sys.Str.Fill.{memset_lem}

-- No byte of the string at `s` is one of the `n` bytes at `d`.
abbrev pub IsApart : ℕ → Text → ℕ → ℕ → Type 0
IsApart s w d n = (i j : ℕ) → i ≤ length w → j < n → add32 s i ≢ add32 d j

-- The memory with these bytes from `d` on.
abbrev pub text_at : Memory → ℕ → Text → Memory
text_at m d w a = if ltb (sub32 a d) (length w) then get_or w (sub32 a d) 0 else m a

put_text : Memory → ℕ → Text → Memory
put_text m d [] = m
put_text m d (c ∷ w) = put_text (store m d c) (add32 d 1) w

put_text_lem :
    (m : Memory) (d : ℕ) (w : Text) (a : ℕ)
    → d < 2 ^ 32
    → a < 2 ^ 32
    → length w ≤ 2 ^ 32
    → put_text m d w a ≡ text_at m d w a
unfolding put_text
put_text_lem m d [] a hd ha hw = let q : ltb (sub32 a d) 0 ≡ false = ground arith in rw q refl
put_text_lem m d (c ∷ w) a hd ha hw =
    put_text_lem (store m d c) (add32 d 1) w a (omega arith) ha (omega arith)
    ∙ elim (ℕ_discrete a d) [
      | yes e ↦
          let q : ltb (sub32 d (add32 d 1)) (length w) ≡ false = ground arith in
          let r : sub32 d d ≡ 0 = omega arith in
          let t : ltb 0 (suc (length w)) ≡ true = ground arith in
          rw (e, q, r, t, store_self m d c) refl
      | no ne ↦
          let r : sub32 a d ≡ suc (sub32 a (add32 d 1)) = omega arith in
          rw (r, store_ne m d c a ne)
            (elim (Bool-cases (ltb (sub32 a (add32 d 1)) (length w))) [
              | inl t ↦
                  let t' : ltb (suc (sub32 a (add32 d 1))) (suc (length w)) ≡ true = ground arith in
                  rw (t, t') refl
              | inr f ↦
                  let f' : ltb (suc (sub32 a (add32 d 1))) (suc (length w)) ≡ false =
                    ground arith in
                  rw (f, f') refl
            ])
    ]

store-IsString :
    (m : Memory) (p v s : ℕ) (w : Text)
    → s < 2 ^ 32
    → ((i : ℕ) → i ≤ length w → add32 s i ≢ p)
    → IsString m s w
    → IsString (store m p v) s w
store-IsString m p v s [] hs apart h =
    store_ne m p v s (λ e. apart 0 (omega arith) (omega arith)) ∙ h
store-IsString m p v s (c ∷ w) hs apart (e, n, h) = (
  store_ne m p v s (λ q. apart 0 (omega arith) (omega arith)) ∙ e,
  n,
  store-IsString m p v (add32 s 1) w (omega arith)
      (λ i l q. apart (suc i) (omega arith) (omega arith)) h,
)

tail-IsApart :
    (s : ℕ) (c : ℕ) (w : Text) (d n : ℕ)
    → IsApart s (c ∷ w) d (suc n)
    → IsApart (add32 s 1) w (add32 d 1) n
tail-IsApart s c w d n apart i j hi hj e =
    apart (suc i) (suc j) (omega arith) (omega arith) (omega arith)

-- A round of the loop on a character.
copy_chars-next :
    (m : Memory) (d s n c : ℕ)
    → m s ≡ c
    → c ≢ 0
    → copy_chars m d s (suc n) ≡ copy_chars (store m d c) (add32 d 1) (add32 s 1) n
unfolding copy_chars
copy_chars-next m d s n c e h = let q : (c == 0) ≡ false = ground arith in rw (e, q) refl

copy_chars-end : (m : Memory) (d s n : ℕ) → m s ≡ 0 → copy_chars m d s (suc n) ≡ (m, d, n)
unfolding copy_chars
copy_chars-end m d s n e = rw e refl

copy_chars-full : (m : Memory) (d s : ℕ) → copy_chars m d s 0 ≡ (m, d, 2 ^ 32 - 1)
unfolding copy_chars
copy_chars-full m d s = refl

copy_chars-fits :
    (m : Memory) (d s n : ℕ) (w : Text)
    → s < 2 ^ 32
    → d < 2 ^ 32
    → IsString m s w
    → IsApart s w d n
    → length w < n
    → copy_chars m d s n ≡ (put_text m d w, add32 d (length w), n - 1 - length w)
unfolding put_text
copy_chars-fits m d s zero w hs hd h apart l = absurd (omega arith)
copy_chars-fits m d s (suc n) [] hs hd h apart l =
    let q : add32 d 0 ≡ d = omega arith in
    let r : suc n - 1 - 0 ≡ n = omega arith in rw (copy_chars-end m d s n h, q, r) refl
copy_chars-fits m d s (suc n) (c ∷ w) hs hd (e, ne, h) apart l =
    let kept =
      store-IsString m d c (add32 s 1) w (omega arith)
        (λ i hi q. apart (suc i) 0 (omega arith) (omega arith) (omega arith)) h in
    let rest =
      copy_chars-fits (store m d c) (add32 d 1) (add32 s 1) n w (omega arith) (omega arith) kept
        (tail-IsApart s c w d n apart) (omega arith) in
    let q : add32 (add32 d 1) (length w) ≡ add32 d (suc (length w)) = omega arith in
    let r : n - 1 - length w ≡ suc n - 1 - suc (length w) = omega arith in
    copy_chars-next m d s n c e ne ∙ rest ∙ rw (q, r) refl

copy_chars-overruns :
    (m : Memory) (d s n : ℕ) (w : Text)
    → s < 2 ^ 32
    → d < 2 ^ 32
    → IsString m s w
    → IsApart s w d n
    → n ≤ length w
    → copy_chars m d s n ≡ (put_text m d (take n w), add32 d n, 2 ^ 32 - 1)
unfolding put_text
copy_chars-overruns m d s zero w hs hd h apart l =
    let q : add32 d 0 ≡ d = omega arith in rw (copy_chars-full m d s, q) refl
copy_chars-overruns m d s (suc n) [] hs hd h apart l = absurd (omega arith)
copy_chars-overruns m d s (suc n) (c ∷ w) hs hd (e, ne, h) apart l =
    let kept =
      store-IsString m d c (add32 s 1) w (omega arith)
        (λ i hi q. apart (suc i) 0 (omega arith) (omega arith) (omega arith)) h in
    let rest =
      copy_chars-overruns (store m d c) (add32 d 1) (add32 s 1) n w (omega arith) (omega arith) kept
        (tail-IsApart s c w d n apart) (omega arith) in
    let q : add32 (add32 d 1) n ≡ add32 d (suc n) = omega arith in
    copy_chars-next m d s n c e ne ∙ rest ∙ rw (q) refl

-- `strncpy` of a string of less than `n` characters to a place apart from it writes the string, and
-- zeros up to byte `n - 2`. With `n` characters or more the counter runs below 0: the first `n`
-- characters are written and every byte of memory but the last of them becomes 0.
pub strncpy_lem :
    (m : Memory) (d s n : ℕ) (w : Text) (a : ℕ)
    → s < 2 ^ 32
    → d < 2 ^ 32
    → a < 2 ^ 32
    → n < 2 ^ 32
    → IsString m s w
    → IsApart s w d n
    → strncpy m d s n a ≡ (
        if ltb (length w) n
        then (if leb (length w) (sub32 a d) && ltb (sub32 a d) (n - 1) then 0 else text_at m d w a)
        else (if add32 a 1 == add32 d n then text_at m d (take n w) a else 0))
unfolding strncpy
strncpy_lem m d s n w a hs hd ha hn h apart = elim (Bool-cases (ltb (length w) n)) [
  | inl fits ↦
      let l : length w < n = ltb→lt (length w) n fits in
      let q : ltb (sub32 a (add32 d (length w))) (n - 1 - length w)
          ≡ (leb (length w) (sub32 a d) && ltb (sub32 a d) (n - 1)) =
        ground arith in
      rw
        (
          strncpy,
          copy_chars-fits m d s n w hs hd h apart l,
          fits,
          memset_lem (put_text m d w) (add32 d (length w)) 0 (n - 1 - length w) a (omega arith) ha
              (omega arith),
          put_text_lem m d w a hd ha (omega arith),
          q,
        )
        refl
  | inr longer ↦
      let l : n ≤ length w = ground arith in
      let q : ltb (sub32 a (add32 d n)) (2 ^ 32 - 1) ≡ not (add32 a 1 == add32 d n) =
        ground arith in
      rw
        (
          strncpy,
          copy_chars-overruns m d s n w hs hd h apart l,
          longer,
          memset_lem (put_text m d (take n w)) (add32 d n) 0 (2 ^ 32 - 1) a (omega arith) ha
              (omega arith),
          put_text_lem m d (take n w) a hd ha (omega (arith, length-take n w)),
          q,
        )
        (elim (Bool-cases (add32 a 1 == add32 d n)) [ inl e ↦ rw e refl | inr e ↦ rw e refl ])
]

-- ===== src/Str/Text.antt =====
-- C strings as lists of their characters, and the comparisons of lib/string.c on them.
use hao_sys.Base.{
  ℕ, zero, suc, ◌^◌, ◌<◌, ◌≡◌, ◌≢◌, ◌↔◌, refl, true, false, List, [], ◌∷◌, some, Memory, add32,
  ◌==◌, if◌then◌else◌, length, arith, Bool-cases, inl, inr, ==_iff, ==_refl,
}
use hao_sys.Str.{char_diff, strcmp}

abbrev pub Text : Type 0
Text = List ℕ

-- The bytes from `s` on are these characters and a 0.
abbrev pub IsString : Memory → ℕ → Text → Type 0
IsString m s [] = m s ≡ 0
IsString m s (c ∷ w) = (m s ≡ c) × (c ≢ 0) × IsString m (add32 s 1) w

-- Characters are bytes.
abbrev pub IsChars : Text → Type 0
IsChars [] = Unit {0}
IsChars (c ∷ w) = (0 < c) × (c < 2 ^ 8) × IsChars w

unfoldable pub text_cmp : Text → Text → ℕ
text_cmp [] [] = char_diff 0 0
text_cmp [] (d ∷ v) = char_diff 0 d
text_cmp (c ∷ w) [] = char_diff c 0
text_cmp (c ∷ w) (d ∷ v) = let rest = text_cmp w v in if c == d then rest else char_diff c d

unfoldable pub text_ncmp : Text → Text → ℕ → ℕ
text_ncmp w v zero = 0
text_ncmp [] [] (suc n) = char_diff 0 0
text_ncmp [] (d ∷ v) (suc n) = char_diff 0 d
text_ncmp (c ∷ w) [] (suc n) = char_diff c 0
text_ncmp (c ∷ w) (d ∷ v) (suc n) =
    let rest = text_ncmp w v n in if c == d then rest else char_diff c d

pub char_diff-zero : (c d : ℕ) → c < 2 ^ 8 → d < 2 ^ 8 → char_diff c d ≡ 0 → c ≡ d
char_diff-zero c d hc hd e = ground arith

pub text_cmp-equal : (w v : Text) → IsChars w → IsChars v → (text_cmp w v == 0) ≡ true → w ≡ v
unfolding text_cmp
text_cmp-equal [] [] hw hv e = refl
text_cmp-equal [] (d ∷ v) hw (p, l, hv) e =
    absurd (omega (arith, char_diff-zero 0 d (omega arith) l ((==_iff (char_diff 0 d) 0).0 e)))
text_cmp-equal (c ∷ w) [] (p, l, hw) hv e =
    absurd (omega (arith, char_diff-zero c 0 l (omega arith) ((==_iff (char_diff c 0) 0).0 e)))
text_cmp-equal (c ∷ w) (d ∷ v) (p, l, hw) (q, k, hv) e = elim (Bool-cases (c == d)) [
  | inl same ↦
      let h : c ≡ d = (==_iff c d).0 same in
      let e' : (text_cmp w v == 0) ≡ true = rw (same) at e in
      let t = text_cmp-equal w v hw hv e' in cc
  | inr ne ↦
      let e' : (char_diff c d == 0) ≡ true = rw (ne) at e in
      let h : c ≡ d = char_diff-zero c d l k ((==_iff (char_diff c d) 0).0 e') in
      absurd (let same : (c == d) ≡ true = (==_iff c d).1 h in cc)
]

pub text_cmp_self : (w : Text) → text_cmp w w ≡ 0
unfolding text_cmp
text_cmp_self [] = refl
text_cmp_self (c ∷ w) = rw (==_refl c) (text_cmp_self w)

ne→==_false : (c : ℕ) → c ≢ 0 → (c == 0) ≡ false
ne→==_false c h = ground arith

strcmp-text :
    (fuel : ℕ) (m : Memory) (p q : ℕ) (w v : Text)
    → IsString m p w
    → IsString m q v
    → length w < fuel
    → strcmp fuel m p q ≡ some (text_cmp w v)
unfolding strcmp text_cmp
strcmp-text zero m p q w v hp hq hf = absurd (omega arith)
strcmp-text (suc fuel) m p q [] [] hp hq hf = rw (hp, hq) refl
strcmp-text (suc fuel) m p q [] (d ∷ v) hp (e, n, h) hf = rw (hp, e) refl
strcmp-text (suc fuel) m p q (c ∷ w) [] (e, n, h) hq hf = rw (e, hq, ne→==_false c n) refl
strcmp-text (suc fuel) m p q (c ∷ w) (d ∷ v) (e, n, h) (e', n', h') hf =
    rw
      (
        e,
        e',
        ne→==_false c n,
        ne→==_false d n',
        strcmp-text fuel m (add32 p 1) (add32 q 1) w v h h' (omega arith),
      )
      (elim (Bool-cases (c == d)) [ inl same ↦ rw same refl | inr ne ↦ rw ne refl ])

-- On strings in memory `strcmp` ends and compares the texts, and its result is 0 just if they are equal.
pub strcmp-text_cmp :
    (fuel : ℕ) (m : Memory) (p q : ℕ) (w v : Text)
    → IsString m p w
    → IsString m q v
    → IsChars w
    → IsChars v
    → length w < fuel
    → (strcmp fuel m p q ≡ some (text_cmp w v)) × ((text_cmp w v ≡ 0) ↔ (w ≡ v))
unfolding strcmp text_cmp
strcmp-text_cmp fuel m p q w v hp hq hw hv hf = (
  strcmp-text fuel m p q w v hp hq hf,
  ((λ e. text_cmp-equal w v hw hv (rw e refl)), (λ e. rw (e) (text_cmp_self v))),
)

-- ===== src/Str/Tests.antt =====
-- The strings "ab" at 100 and "ac" at 300, and copies of the first.
use hao_sys.Base.{
  ◌-◌, ◌≡◌, ◌↔◌, refl, some, [], ◌∷◌, Memory, add32, sub32, ◌==◌, ltb, leb, ◌&&◌, if◌then◌else◌,
  arith, take,
}
use hao_sys.Str.{strcmp, strncmp, strlen, strncpy}
use hao_sys.Str.Text.{Text, IsString, IsChars, text_cmp, strcmp-text_cmp}
use hao_sys.Str.Copy.{text_at, strncpy_lem}

abbrev ab : Text
ab = 97 ∷ 98 ∷ []

abbrev ac : Text
ac = 97 ∷ 99 ∷ []

abbrev bytes : Memory
bytes a =
    if (a == 100)
    then 97
    else if a == 101
    then 98
    else if a == 300
    then 97
    else if a == 301
    then 99
    else if a == 302
    then 0
    else if a == 102
    then 0
    else 7

ab-IsString : IsString bytes 100 ab
ab-IsString = (refl, (λ e. omega arith), (refl, (λ e. omega arith), refl))

ac-IsString : IsString bytes 300 ac
ac-IsString = (refl, (λ e. omega arith), (refl, (λ e. omega arith), refl))

ab-IsChars : IsChars ab
ab-IsChars = (omega arith, omega arith, (omega arith, omega arith, tt))

ac-IsChars : IsChars ac
ac-IsChars = (omega arith, omega arith, (omega arith, omega arith, tt))

strlen-ab : strlen 10 bytes 100 ≡ some 2
unfolding strlen
strlen-ab = refl

strncmp-ab : strncmp bytes 100 300 1 ≡ 0
unfolding strncmp
strncmp-ab = refl

same_as_text : (strcmp 9 bytes 100 300 ≡ some (text_cmp ab ac)) × ((text_cmp ab ac ≡ 0) ↔ (ab ≡ ac))
same_as_text =
    strcmp-text_cmp 9 bytes 100 300 ab ac ab-IsString ac-IsString ab-IsChars ac-IsChars
      (omega arith)

-- One character of two, and the byte at 0 becomes 0.
strncpy_lem_example : strncpy bytes 200 100 1 0 ≡ (
    if ltb 2 1
    then (if leb 2 (sub32 0 200) && ltb (sub32 0 200) (1 - 1) then 0 else text_at bytes 200 ab 0)
    else (if add32 0 1 == add32 200 1 then text_at bytes 200 (take 1 ab) 0 else 0))
strncpy_lem_example =
    strncpy_lem bytes 200 100 1 ab 0 (omega arith) (omega arith) (omega arith) (omega arith)
      ab-IsString (λ i j hi hj e. omega arith)

-- ===== src/Base/Lists.antt =====
-- Lists measured and indexed by native numbers, under the library's names.
use Prim.Native.Nat.{ℕ, zero, suc, ◌+◌, ◌-◌, ◌<◌, min}
use mathlib.Core.Path.{◌≡◌, refl, ap}
use mathlib.Core.Logic.{◌≢◌, ◌⊎◌, inl, inr}
use mathlib.Core.Bool.{Bool, false, ◌||◌}
use mathlib.Core.Option.{Option, none, some}
use mathlib.Core.List.{List, [], ◌∷◌, ◌++◌}
use native.Mathlib.Omega.{arith}
use hao_sys.Base.Tests.{◌==◌, some-eq}

module _ {ℓ} {A : Type ℓ} where
  abbrev pub length : List A → ℕ
  length [] = 0
  length (x ∷ xs) = suc (length xs)

  abbrev pub nth : List A → ℕ → Option A
  nth [] i = none
  nth (x ∷ xs) zero = some x
  nth (x ∷ xs) (suc i) = nth xs i

  abbrev pub get_or : List A → ℕ → A → A
  get_or [] i d = d
  get_or (x ∷ xs) zero d = x
  get_or (x ∷ xs) (suc i) d = get_or xs i d

  -- A write out of bounds changes nothing.
  abbrev pub set : List A → ℕ → A → List A
  set [] i v = []
  set (x ∷ xs) zero v = v ∷ xs
  set (x ∷ xs) (suc i) v = x ∷ set xs i v

  abbrev pub take : ℕ → List A → List A
  take zero xs = []
  take (suc n) [] = []
  take (suc n) (x ∷ xs) = x ∷ take n xs

  abbrev pub drop : ℕ → List A → List A
  drop zero xs = xs
  drop (suc n) [] = []
  drop (suc n) (x ∷ xs) = drop n xs

  abbrev pub replicate : ℕ → A → List A
  replicate zero a = []
  replicate (suc n) a = a ∷ replicate n a

module _ {ℓ} {A : Type ℓ} where
  pub length-append : (xs ys : List A) → length (xs ++ ys) ≡ length xs + length ys
  length-append [] ys = omega arith
  length-append (x ∷ xs) ys = omega (arith, length-append xs ys)

  pub length-set : (xs : List A) (i : ℕ) (v : A) → length (set xs i v) ≡ length xs
  length-set [] i v = refl
  length-set (x ∷ xs) zero v = refl
  length-set (x ∷ xs) (suc i) v = ap suc (length-set xs i v)

  pub get_or-set_self :
      (xs : List A) (i : ℕ) (v d : A) → i < length xs → get_or (set xs i v) i d ≡ v
  get_or-set_self [] i v d h = elim h [ ]
  get_or-set_self (x ∷ xs) zero v d h = refl
  get_or-set_self (x ∷ xs) (suc i) v d h = get_or-set_self xs i v d (omega arith)

  pub get_or-set_ne :
      (xs : List A) (i j : ℕ) (v d : A) → i ≢ j → get_or (set xs i v) j d ≡ get_or xs j d
  get_or-set_ne [] i j v d h = refl
  get_or-set_ne (x ∷ xs) zero zero v d h = absurd (h refl)
  get_or-set_ne (x ∷ xs) zero (suc j) v d h = refl
  get_or-set_ne (x ∷ xs) (suc i) zero v d h = refl
  get_or-set_ne (x ∷ xs) (suc i) (suc j) v d h = get_or-set_ne xs i j v d (λ e. h (ap suc e))

  pub length-take : (n : ℕ) (xs : List A) → length (take n xs) ≡ min n (length xs)
  length-take zero xs = omega arith
  length-take (suc n) [] = omega arith
  length-take (suc n) (x ∷ xs) = omega (arith, length-take n xs)

  pub length-drop : (n : ℕ) (xs : List A) → length (drop n xs) ≡ length xs - n
  length-drop zero xs = omega arith
  length-drop (suc n) [] = omega arith
  length-drop (suc n) (x ∷ xs) = omega (arith, length-drop n xs)

  pub length-replicate : (n : ℕ) (a : A) → length (replicate n a) ≡ n
  length-replicate zero a = refl
  length-replicate (suc n) a = ap suc (length-replicate n a)

-- Membership of a number, as a test.
abbrev pub has : ℕ → List ℕ → Bool
has a [] = false
has a (x ∷ xs) = (a == x) || has a xs

-- No number occurs twice.
abbrev pub Distinct : List ℕ → Type 0
Distinct [] = Unit {0}
Distinct (x ∷ xs) = (has x xs ≡ false) × Distinct xs

module _ {ℓ} {A : Type ℓ} where
  pub nth-set_self :
      (xs : List A) (i : ℕ) (v x : A) → nth xs i ≡ some x → nth (set xs i v) i ≡ some v
  nth-set_self [] i v x h = absurd (cc)
  nth-set_self (y ∷ xs) zero v x h = refl
  nth-set_self (y ∷ xs) (suc i) v x h = nth-set_self xs i v x h

  pub nth-set_ne : (xs : List A) (i j : ℕ) (v : A) → i ≢ j → nth (set xs i v) j ≡ nth xs j
  nth-set_ne [] i j v h = refl
  nth-set_ne (x ∷ xs) zero zero v h = absurd (h refl)
  nth-set_ne (x ∷ xs) zero (suc j) v h = refl
  nth-set_ne (x ∷ xs) (suc i) zero v h = refl
  nth-set_ne (x ∷ xs) (suc i) (suc j) v h = nth-set_ne xs i j v (λ e. h (ap suc e))

  -- An element of a list that grew by one at the end.
  pub nth-append_one :
      (xs : List A) (a : A) (i : ℕ) (x : A)
      → nth (xs ++ (a ∷ [])) i ≡ some x
      → (nth xs i ≡ some x) ⊎ ((i ≡ length xs) × (a ≡ x))
  nth-append_one [] a zero x h = inr (refl, some-eq h)
  nth-append_one [] a (suc i) x h = absurd (cc)
  nth-append_one (y ∷ xs) a zero x h = inl h
  nth-append_one (y ∷ xs) a (suc i) x h = elim (nth-append_one xs a i x h) [
    | inl there ↦ inl there
    | inr (e, same) ↦ inr (ap suc e, same)
  ]

  pub nth-lt : (xs : List A) (i : ℕ) (x : A) → nth xs i ≡ some x → i < length xs
  nth-lt [] i x h = absurd (cc)
  nth-lt (y ∷ xs) zero x h = omega arith
  nth-lt (y ∷ xs) (suc i) x h = omega (arith, nth-lt xs i x h)

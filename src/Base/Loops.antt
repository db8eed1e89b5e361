-- ===== src/Base/Loops.antt =====
-- Counted loops: `for (k = i; k < i + n; k++) body`.
use Prim.Native.Nat.{ℕ, zero, suc, ◌+◌, ◌-◌, ◌≤◌, ◌<◌, min}
use mathlib.Core.Path.{◌≡◌}
use native.Mathlib.Omega.{arith}

-- Runs `body k` for the `n` indices from `i` on.
unfoldable pub count_up {ℓ} : {S : Type ℓ} → ℕ → ℕ → (ℕ → S → S) → S → S
count_up zero i body s = s
count_up (suc n) i body s = count_up n (suc i) body (body i s)

-- What each round keeps holds at the end; a round may use the range of its index.
pub count_up_rule {ℓ κ} :
    {S : Type ℓ} (P : ℕ → S → Type κ) (body : ℕ → S → S) (lo hi n i : ℕ) (s : S)
    → ((k : ℕ) (t : S) → lo ≤ k → k < hi → P k t → P (suc k) (body k t))
    → lo ≤ i
    → i + n ≡ hi
    → P i s
    → P hi (count_up n i body s)
unfolding count_up
count_up_rule P body lo hi zero i s keep l e h = let e' : i ≡ hi = omega arith in rw (← e') h
count_up_rule P body lo hi (suc n) i s keep l e h =
    count_up_rule P body lo hi n (suc i) (body i s) keep (omega arith) (omega arith)
      (keep i s l (omega arith) h)

-- for (i = first; i <= last && i < total; i++) body
unfoldable pub for_pages {ℓ} : {S : Type ℓ} → ℕ → ℕ → ℕ → (ℕ → S → S) → S → S
unfolding count_up
for_pages first last total body s = count_up (min (last + 1) total - first) first body s

pub for_pages_rule {ℓ κ} :
    {S : Type ℓ} (P : ℕ → S → Type κ) (body : ℕ → S → S) (first last total : ℕ) (s : S)
    → ((k : ℕ) (t : S) → first ≤ k → k ≤ last → k < total → P k t → P (suc k) (body k t))
    → P first s
    → P (first + (min (last + 1) total - first)) (for_pages first last total body s)
unfolding for_pages
for_pages_rule P body first last total s keep h =
    count_up_rule P body first (first + (min (last + 1) total - first))
      (min (last + 1) total - first) first s (λ k t l u. keep k t l (omega arith) (omega arith))
      (omega arith) (omega arith) h

-- ===== src/Pmm/Scan.antt =====
-- `pmm_alloc_contiguous`: the search for a run of free pages.
use hao_sys.Base.{
  ℕ, zero, suc, ◌+◌, ◌-◌, ◌≤◌, ◌<◌, ◌≡◌, inl, inr, Bool, true, false, ◌&&◌, none, some, arith, ltb,
  leb, ◌==◌, ==_iff, if◌then◌else◌, Bool-cases,
}
use hao_sys.Pmm.Bitmap.{get_page_bit}
use hao_sys.Pmm.{Pmm, run_length, scan_run}

abbrev pub is_free : Pmm → ℕ → Bool
is_free p j = ltb j p.total_pages && get_page_bit p.bitmap j

-- The `count` pages from `s` on are free.
abbrev pub IsRun : Pmm → ℕ → ℕ → Type 0
IsRun p count s = (k : ℕ) → k < count → is_free p (s + k) ≡ true

record Measured (p : Pmm) (n i j r : ℕ) : Type 0 where
  low : j ≤ r
  high : r ≤ j + n
  free : (k : ℕ) → j ≤ k → k < r → is_free p (i + k) ≡ true
  stop : r < j + n → is_free p (i + r) ≡ false

run_length-Measured : (p : Pmm) (n i j : ℕ) → Measured p n i j (run_length p n i j)
unfolding run_length
run_length-Measured p zero i j = record {
  low = omega arith;
  high = omega arith;
  free = λ k a b. absurd (omega arith);
  stop = λ h. absurd (omega arith);
}
run_length-Measured p (suc n) i j =
    let rest = run_length-Measured p n i (suc j) in
    elim (Bool-cases (is_free p (i + j))) [
      | inl e ↦ rw e (record {
        low = omega (arith, rest.low);
        high = omega (arith, rest.high);
        free = λ k a b. elim (Bool-cases (k == j)) [
          | inl q ↦ rw ((==_iff k j).0 q) e
          | inr q ↦ rest.free k (ground arith) b
        ];
        stop = λ h. rest.stop (omega arith);
      })
      | inr e ↦ rw e (record {
        low = omega arith;
        high = omega arith;
        free = λ k a b. absurd (omega arith);
        stop = λ h. e;
      })
    ]

-- One round of the search, by whether the page is free.
scan_run-suc :
    (p : Pmm) (count fuel i : ℕ)
    → scan_run p count (suc fuel) i ≡ (
        if is_free p i
        then (if run_length p (count - 1) i 1 == count
            then some i
            else scan_run p count fuel (i + run_length p (count - 1) i 1 + 1))
        else (if ltb i p.total_pages then scan_run p count fuel (i + 1) else none))
unfolding scan_run
scan_run-suc p count fuel i = ground arith

-- A run that the search returns consists of free pages.
pub scan_run-IsRun :
    (p : Pmm) (count fuel i s : ℕ) → scan_run p count fuel i ≡ some s → IsRun p count s
unfolding scan_run
scan_run-IsRun p count zero i s h = absurd (cc)
scan_run-IsRun p count (suc fuel) i s h =
    let r = run_length p (count - 1) i 1 in
    let m = run_length-Measured p (count - 1) i 1 in
    let h' = rw (scan_run-suc p count fuel i) at h in
    elim (Bool-cases (is_free p i)) [
      | inr busy ↦ elim (Bool-cases (ltb i p.total_pages)) [
        | inl inside ↦ scan_run-IsRun p count fuel (i + 1) s (ground arith)
        | inr outside ↦ absurd (ground arith)
      ]
      | inl free ↦ elim (Bool-cases (r == count)) [
        | inr short ↦ scan_run-IsRun p count fuel (i + r + 1) s (ground arith)
        | inl whole ↦ λ k lt.
            let here : i ≡ s = ground arith in
            elim (Bool-cases (k == 0)) [
              | inl z ↦ let e : s + k ≡ i = ground arith in rw e free
              | inr nz ↦ rw (← here) (m.free k (ground arith) (ground arith))
            ]
      ]
    ]

-- No run starts at a page from which one stretches to a page that is not free.
not-IsRun :
    (p : Pmm) (count i r s : ℕ)
    → is_free p (i + r) ≡ false
    → i ≤ s
    → s ≤ i + r
    → r < count
    → ¬ IsRun p count s
not-IsRun p count i r s busy a b c run =
    let e : s + (i + r - s) ≡ i + r = omega arith in
    let f = rw e at (run (i + r - s) (omega arith)) in cc

-- With a round of fuel for each page that is left, a search that finds nothing proves that no run
-- of `count` free pages starts at or behind `i`.
pub scan_run-none :
    (p : Pmm) (count fuel i s : ℕ)
    → 0 < count
    → p.total_pages ≤ i + fuel
    → scan_run p count fuel i ≡ none
    → i ≤ s
    → ¬ IsRun p count s
scan_run-none p count zero i s pos enough h l run = ground (arith, run 0)
scan_run-none p count (suc fuel) i s pos enough h l run =
    let r = run_length p (count - 1) i 1 in
    let m = run_length-Measured p (count - 1) i 1 in
    let h' = rw (scan_run-suc p count fuel i) at h in
    elim (Bool-cases (is_free p i)) [
      | inr busy ↦ elim (Bool-cases (leb s i)) [
        | inl at_i ↦ let e : s + 0 ≡ i = ground arith in let f = rw e at (run 0 pos) in cc
        | inr behind ↦ elim (Bool-cases (ltb i p.total_pages)) [
          | inl inside ↦
              scan_run-none p count fuel (i + 1) s pos (ground arith) (ground arith) (ground arith)
                run
          | inr outside ↦ ground (arith, run 0 pos)
        ]
      ]
      | inl free ↦ elim (Bool-cases (r == count)) [
        | inl whole ↦ ground arith
        | inr short ↦
            let low : r < count = ground (arith, m.high) in
            elim (Bool-cases (leb s (i + r))) [
              | inl near ↦ not-IsRun p count i r s (m.stop (omega arith)) l (ground arith) low run
              | inr far ↦
                  scan_run-none p count fuel (i + r + 1) s pos (ground arith) (ground arith)
                    (ground arith) run
            ]
      ]
    ]

-- ===== src/Vfs/Resolve.antt =====
-- vfs_resolve of fs/vfs.c: which mount a path leads to.
use hao_sys.Base.{
  ℕ, zero, suc, ◌+◌, ◌<◌, ◌≤◌, ◌≡◌, ◌⊎◌, inl, inr, refl, ◌∙◌, sym, subst, ap, true, false, ◌&&◌,
  List, [], ◌∷◌, ◌++◌, Option, none, some, ltb, length, nth, arith, Bool-cases, Option-cases,
  some-eq, ltb→lt,
}
use hao_sys.Str.Text.{Text, IsChars}
use hao_sys.Vfs.{
  MountSlot, Vfs, mounted_at, find_mount, slash, leads_to, longest_mount, below_mount, strip_slash,
  at_root, resolve,
}
use hao_sys.Vfs.Covers.{both_true, IsEnd, below, Covers, get_or-after, drop-after, leads_to-Covers}

-- No slot whose mount point covers the path has a longer one.
abbrev pub IsLongest : Text → List MountSlot → ℕ → Type 0
IsLongest path ss n =
    (k : ℕ) (s : MountSlot) → nth ss k ≡ some s → leads_to path s ≡ true → length s.point ≤ n

IsLongest-cons :
    (path : Text) (s : MountSlot) (ss : List MountSlot) (n : ℕ)
    → (leads_to path s ≡ true → length s.point ≤ n)
    → IsLongest path ss n
    → IsLongest path (s ∷ ss) n
IsLongest-cons path s ss n head tail zero t e h =
    let q : s ≡ t = some-eq e in subst (λ x. (leads_to path x ≡ true → length x.point ≤ n)) q head h
IsLongest-cons path s ss n head tail (suc k) t e h = tail k t e h

-- What the loop gives: what it had, if no slot is longer; or a slot, which is longer.
IsBest : Text → List MountSlot → ℕ → Option ℕ → ℕ → Option ℕ × ℕ → Type 0
IsBest path ss i best n r =
    ((r ≡ (best, n)) × IsLongest path ss n)
    ⊎ ((k : ℕ) × (s : MountSlot) × (r ≡ (some (i + k), length s.point))
        × (nth ss k ≡ some s)
        × (leads_to path s ≡ true)
        × (n < length s.point)
        × IsLongest path ss (length s.point))

longest_mount-IsBest :
    (path : Text) (ss : List MountSlot) (i : ℕ) (best : Option ℕ) (n : ℕ)
    → IsBest path ss i best n (longest_mount path ss i best n)
unfolding longest_mount IsBest
longest_mount-IsBest path [] i best n = inl (refl, λ k s e h. absurd (cc))
longest_mount-IsBest path (s ∷ ss) i best n =
    elim (Bool-cases (ltb n (length s.point) && leads_to path s)) [
      | inl better ↦
          let (l, here) = both_true _ _ better in
          let more : n < length s.point = ltb→lt n (length s.point) l in
          rw (better) (elim (longest_mount-IsBest path ss (suc i) (some i) (length s.point)) [
            | inl (e, long) ↦
                let q : i + 0 ≡ i = omega arith in
                inr (
                  0,
                  s,
                  rw (q) e,
                  refl,
                  here,
                  more,
                  IsLongest-cons path s ss (length s.point) (λ h. omega arith) long,
                )
            | inr (k, t, e, at, there, longer, long) ↦
                let q : i + suc k ≡ suc i + k = omega arith in
                inr (
                  suc k,
                  t,
                  rw (q) e,
                  at,
                  there,
                  omega arith,
                  IsLongest-cons path s ss (length t.point) (λ h. omega arith) long,
                )
          ])
      | inr worse ↦
          let head : leads_to path s ≡ true → length s.point ≤ n = λ h. not_longer h worse in
          rw (worse) (elim (longest_mount-IsBest path ss (suc i) best n) [
            | inl (e, long) ↦ inl (e, IsLongest-cons path s ss n head long)
            | inr (k, t, e, at, there, longer, long) ↦
                let q : i + suc k ≡ suc i + k = omega arith in
                inr (
                  suc k,
                  t,
                  rw (q) e,
                  at,
                  there,
                  longer,
                  IsLongest-cons path s ss (length t.point) (λ h. omega (arith, head h)) long,
                )
          ])
    ]
  where
    not_longer :
        leads_to path s ≡ true
        → (ltb n (length s.point) && leads_to path s) ≡ false
        → length s.point ≤ n
    not_longer h worse = elim (Bool-cases (ltb n (length s.point))) [
      | inl l ↦ absurd (let w : true ≡ false = rw (l, h) at worse in cc)
      | inr l ↦ ground arith
    ]

pub find_mount-found :
    (point : Text) (ss : List MountSlot) (i : ℕ)
    → find_mount point ss ≡ some i
    → (s : MountSlot) × (nth ss i ≡ some s) × (mounted_at point s ≡ true)
unfolding find_mount
find_mount-found point [] i e = absurd (cc)
find_mount-found point (s ∷ ss) i e = elim (Bool-cases (mounted_at point s)) [
  | inl here ↦ let q : 0 ≡ i = some-eq (rw here at e) in rw (← q) (s, refl, here)
  | inr past ↦ elim (Option-cases (find_mount point ss)) [
    | inl no_more ↦ absurd (let e' = rw (past, no_more) at e in cc)
    | inr (k, found) ↦
        let q : suc k ≡ i = some-eq (rw (past, found) at e) in
        rw (← q) (find_mount-found point ss k found)
  ]
]

pub find_mount-missing :
    (point : Text) (ss : List MountSlot)
    → find_mount point ss ≡ none
    → (k : ℕ) (s : MountSlot) → nth ss k ≡ some s
    → mounted_at point s ≡ false
unfolding find_mount
find_mount-missing point [] e k s at = absurd (cc)
find_mount-missing point (t ∷ ss) e k s at = elim (Bool-cases (mounted_at point t)) [
  | inl here ↦ absurd (let e' = rw here at e in cc)
  | inr past ↦ elim (Option-cases (find_mount point ss)) [
    | inl no_more ↦ later k s past (find_mount-missing point ss no_more) at
    | inr (j, found) ↦ absurd (let e' = rw (past, found) at e in cc)
  ]
]
  where
    later :
        (k : ℕ) (s : MountSlot)
        → mounted_at point t ≡ false
        → ((j : ℕ) (x : MountSlot) → nth ss j ≡ some x → mounted_at point x ≡ false)
        → nth (t ∷ ss) k ≡ some s
        → mounted_at point s ≡ false
    later zero s past rest at =
        let q : t ≡ s = some-eq at in subst (λ x. mounted_at point x ≡ false) q past
    later (suc k) s past rest at = rest k s at

below_mount-below :
    (w rest : Text)
    → IsChars (w ++ rest)
    → IsEnd rest
    → below_mount (w ++ rest) (length w) ≡ below rest
below_mount-below w [] h e = rw (get_or-after w []) refl
below_mount-below w (c ∷ rest) h e = rw (get_or-after w (c ∷ rest), drop-after w (c ∷ rest), e) refl

resolve-best :
    (v : Vfs) (c : ℕ) (cs : Text) (i n : ℕ)
    → longest_mount (c ∷ cs) v.mounts 0 none 0 ≡ (some i, n)
    → resolve v (c ∷ cs) ≡ some (i, below_mount (c ∷ cs) n)
unfolding resolve
resolve-best v c cs i n e =
    ap
      (λ r. elim (r.0) [
        | some j ↦ some (j, below_mount (c ∷ cs) r.1)
        | none ↦ at_root v (some (strip_slash (c ∷ cs)))
      ])
      e

-- What a path that is not empty leads to.
pub data Resolved (v : Vfs) (path : Text) : Option (ℕ × Option Text) → Type 0 where
  in_mount :
      (i : ℕ) (s : MountSlot) (rest : Text)
      → nth v.mounts i ≡ some s
      → Covers path s rest
      → IsLongest path v.mounts (length s.point)
      → Resolved v path (some (i, below rest))
  in_root :
      (i : ℕ) (s : MountSlot)
      → nth v.mounts i ≡ some s
      → mounted_at (slash ∷ []) s ≡ true
      → IsLongest path v.mounts 0
      → Resolved v path (some (i, some (strip_slash path)))
  nowhere :
      ((k : ℕ) (s : MountSlot) → nth v.mounts k ≡ some s → mounted_at (slash ∷ []) s ≡ false)
      → IsLongest path v.mounts 0
      → Resolved v path none

-- `vfs_resolve` leads a path that is not empty to the mount with the longest mount point that is the
-- path or goes before a slash in it, and to what follows the slash there; if no mount point covers
-- the path, to the root mount and the path without its first slash; without a root mount nowhere.
pub resolve-Resolved :
    (v : Vfs) (c : ℕ) (cs : Text)
    → IsChars (c ∷ cs)
    → ((k : ℕ) (s : MountSlot) → nth v.mounts k ≡ some s → IsChars s.point)
    → Resolved v (c ∷ cs) (resolve v (c ∷ cs))
unfolding resolve at_root IsBest
resolve-Resolved v c cs chars points = elim (longest_mount-IsBest (c ∷ cs) v.mounts 0 none 0) [
  | inl (e, long) ↦
      rw (resolve, e)
        (elim (Option-cases (find_mount (slash ∷ []) v.mounts)) [
          | inl no_root ↦
              rw (at_root, no_root)
                (nowhere (find_mount-missing (slash ∷ []) v.mounts no_root) long)
          | inr (i, found) ↦
              let (s, at, here) = find_mount-found (slash ∷ []) v.mounts i found in
              rw (at_root, found) (in_root i s at here long)
        ])
  | inr (k, s, e, at, there, longer, long) ↦
      let (rest, covers) = leads_to-Covers (c ∷ cs) s chars (points k s at) there in
      let (m, n, split, fin) = covers in
      let q : below_mount (c ∷ cs) (length s.point) ≡ below rest =
        subst (λ p. below_mount p (length s.point) ≡ below rest) (sym split)
          (below_mount-below s.point rest (subst IsChars split chars) fin) in
      let z : 0 + k ≡ k = omega arith in
      subst (Resolved v (c ∷ cs))
        (sym (resolve-best v c cs k (length s.point) (rw (← z) e) ∙ rw (← q) refl))
        (in_mount k s rest at covers long)
]

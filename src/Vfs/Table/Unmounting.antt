-- ===== src/Vfs/Table/Unmounting.antt =====
-- vfs_umount of fs/vfs.c: which mount ends.
use hao_sys.Base.{
  ℕ, suc, ◌≡◌, ◌⊎◌, inl, inr, refl, ◌∙◌, sym, subst, true, false, List, [], ◌∷◌, none, some, nth,
  set, Bool-cases, Option-cases, some-eq, nth-set_self, nth-set_ne, ℕ_discrete,
}
use hao_sys.Str.Text.{Text, IsChars}
use hao_sys.Vfs.{MountSlot, Vfs, mounted_at, find_mount, umount, unmount_first}
use hao_sys.Vfs.Resolve.{find_mount-found}
use hao_sys.Vfs.Table.{IsTable, set-IsTable, mounted_at-point, find_mount-gone}

unmount_first-missing :
    (point : Text) (ss : List MountSlot)
    → find_mount point ss ≡ none
    → unmount_first point ss ≡ (false, ss)
unfolding unmount_first find_mount
unmount_first-missing point [] e = refl
unmount_first-missing point (s ∷ ss) e = elim (Bool-cases (mounted_at point s)) [
  | inl here ↦ absurd (let e' = rw here at e in cc)
  | inr past ↦ elim (Option-cases (find_mount point ss)) [
    | inl no_more ↦ rw (past, unmount_first-missing point ss no_more) refl
    | inr (k, found) ↦ absurd (let e' = rw (past, found) at e in cc)
  ]
]

abbrev pub ended : MountSlot → MountSlot
ended s = record s { mounted = false }

unmount_first-found :
    (point : Text) (ss : List MountSlot) (k : ℕ) (s : MountSlot)
    → find_mount point ss ≡ some k
    → nth ss k ≡ some s
    → unmount_first point ss ≡ (true, set ss k (ended s))
unfolding unmount_first find_mount
unmount_first-found point [] k s e at = absurd (cc)
unmount_first-found point (t ∷ ss) k s e at = elim (Bool-cases (mounted_at point t)) [
  | inl here ↦
      let q : 0 ≡ k = some-eq (rw here at e) in
      let r : t ≡ s = some-eq (subst (λ n. nth (t ∷ ss) n ≡ some s) (sym q) at) in
      rw (here, ← q, ← r) refl
  | inr past ↦ elim (Option-cases (find_mount point ss)) [
    | inl no_more ↦ absurd (let e' = rw (past, no_more) at e in cc)
    | inr (j, found) ↦
        let q : suc j ≡ k = some-eq (rw (past, found) at e) in
        let at' : nth ss j ≡ some s = subst (λ n. nth (t ∷ ss) n ≡ some s) (sym q) at in
        rw (past, ← q, unmount_first-found point ss j s found at') refl
  ]
]

pub umount-IsTable : (v : Vfs) (point : Text) → IsTable v.mounts → IsTable (umount v point).1.mounts
unfolding umount
umount-IsTable v point h = elim (Option-cases (find_mount point v.mounts)) [
  | inl missing ↦ rw (unmount_first-missing point v.mounts missing) h
  | inr (k, found) ↦
      let (s, at, here) = find_mount-found point v.mounts k found in
      rw (unmount_first-found point v.mounts k s found at) (
        set-IsTable v.mounts k s (ended s) h at (h.chars k s at)
          (λ j t apart att m m' same. let no = m'.0 in absurd (cc)))
]

-- `vfs_umount` fails and changes nothing if nothing is mounted at the mount point. Otherwise it ends
-- the mount that was found there, changes no other slot and no device, and nothing is mounted there
-- any more.
pub umount_lem :
    (v : Vfs) (point : Text)
    → IsChars point
    → IsTable v.mounts
    → ((find_mount point v.mounts ≡ none) × (umount v point ≡ (false, v)))
      ⊎ ((k : ℕ) × (s : MountSlot) × (find_mount point v.mounts ≡ some k)
          × (nth v.mounts k ≡ some s)
          × (umount v point ≡ (true, record v { mounts = set v.mounts k (ended s) }))
          × (find_mount point (umount v point).1.mounts ≡ none))
unfolding umount
umount_lem v point chars h = elim (Option-cases (find_mount point v.mounts)) [
  | inl missing ↦ inl (missing, rw (unmount_first-missing point v.mounts missing) refl)
  | inr (k, found) ↦
      let (s, at, here) = find_mount-found point v.mounts k found in
      let e = unmount_first-found point v.mounts k s found at in
      inr (
        k,
        s,
        found,
        at,
        rw e refl,
        rw e (
            find_mount-gone point (set v.mounts k (ended s))
              (λ j t att. gone k s at here j t att (ℕ_discrete k j))),
      )
]
  where
    gone :
        (k : ℕ) (s : MountSlot)
        → nth v.mounts k ≡ some s
        → mounted_at point s ≡ true
        → (j : ℕ) (t : MountSlot) → nth (set v.mounts k (ended s)) j ≡ some t
        → Dec (k ≡ j)
        → mounted_at point t ≡ false
    gone k s at here j t att (yes q) =
        let e : ended s ≡ t = some-eq (
          sym (nth-set_self v.mounts k (ended s) s at)
          ∙ subst (λ n. nth (set v.mounts k (ended s)) n ≡ some t) (sym q) att) in
        subst (λ x. mounted_at point x ≡ false) e refl
    gone k s at here j t att (no q) = elim (Bool-cases (mounted_at point t)) [
      | inr e ↦ e
      | inl there ↦
          let att' : nth v.mounts j ≡ some t = sym (nth-set_ne v.mounts k j (ended s) q) ∙ att in
          let (ms, es) = mounted_at-point point s chars (h.chars k s at) here in
          let (mt, et) = mounted_at-point point t chars (h.chars j t att') there in
          absurd (q (h.distinct k j s t at att' ms mt (es ∙ sym et)))
    ]

-- ===== src/Vfs/Table.antt =====
-- The device list and the mount table of fs/vfs.c: what every call keeps.
pub mod Mounting
pub mod Unmounting
pub mod Steps
use hao_sys.Base.{
  ℕ, zero, suc, ◌+◌, ◌-◌, ◌<◌, ◌≤◌, ◌≡◌, ◌≢◌, ◌⊎◌, inl, inr, refl, ◌∙◌, sym, subst, ap, Bool, true,
  false, not, ◌&&◌, List, [], ◌∷◌, ◌++◌, Option, none, some, ◌==◌, ltb, leb, if◌then◌else◌, length,
  nth, set, arith, Bool-cases, Option-cases, ==_iff, some-eq, nth-set_self, nth-set_ne,
  nth-append_one, nth-lt, length-set, length-append, ℕ_discrete,
}
use hao_sys.Str.Text.{Text, IsChars, text_cmp-equal, text_cmp_self}
use hao_sys.Fat.{Fs}
use hao_sys.Vfs.{
  MountSlot, BlockDev, Vfs, mounted_at, find_dev, find_mount, find_unmounted, mount_slot,
  register_device, mount, mount_in, umount, unmount_first, same_text, max_devs, max_mounts,
  on_volume, fits_storage,
}
use hao_sys.Vfs.Covers.{both_true}
use hao_sys.Vfs.Resolve.{find_mount-found, find_mount-missing}

-- A mount that paths are led to.
abbrev pub IsMount : MountSlot → Type 0
IsMount s = (s.mounted ≡ true) × (s.named ≡ true)

-- Two mounts have different mount points, which are strings.
pub record IsTable (ss : List MountSlot) : Type 0 where
  pub slots : length ss ≡ max_mounts
  pub distinct :
      (i j : ℕ) (s t : MountSlot)
      → nth ss i ≡ some s
      → nth ss j ≡ some t
      → IsMount s
      → IsMount t
      → s.point ≡ t.point
      → i ≡ j
  pub chars : (i : ℕ) (s : MountSlot) → nth ss i ≡ some s → IsChars s.point

-- At most eight devices, and no two of the same name.
pub record IsDevices (ds : List BlockDev) : Type 0 where
  pub room : length ds ≤ max_devs
  pub names :
      (i j : ℕ) (d e : BlockDev)
      → i < j
      → nth ds i ≡ some d
      → nth ds j ≡ some e
      → same_text d.name e.name ≡ false

-- A change of slot `k` that keeps it apart from the other mounts.
pub set-IsTable :
    (ss : List MountSlot) (k : ℕ) (old s : MountSlot)
    → IsTable ss
    → nth ss k ≡ some old
    → IsChars s.point
    → ((j : ℕ) (t : MountSlot)
        → k ≢ j
        → nth ss j ≡ some t
        → IsMount t
        → IsMount s
        → s.point ≢ t.point)
    → IsTable (set ss k s)
set-IsTable ss k old s h at chars apart = record {
  slots = length-set ss k s ∙ h.slots;
  distinct =
      λ i j x y ei ej mx my same. place i j x y ei ej mx my same (ℕ_discrete k i) (ℕ_discrete k j);
  chars = λ i x e. elim (ℕ_discrete k i) [
    | yes q ↦ subst (λ z. IsChars z.point) (here i x q e) chars
    | no q ↦ h.chars i x (sym (nth-set_ne ss k i s q) ∙ e)
  ];
}
  where
    here : (i : ℕ) (x : MountSlot) → k ≡ i → nth (set ss k s) i ≡ some x → s ≡ x
    here i x q e =
        some-eq
          (sym (nth-set_self ss k s old at) ∙ subst (λ n. nth (set ss k s) n ≡ some x) (sym q) e)

    there : (i : ℕ) (x : MountSlot) → k ≢ i → nth (set ss k s) i ≡ some x → nth ss i ≡ some x
    there i x q e = sym (nth-set_ne ss k i s q) ∙ e

    place :
        (i j : ℕ) (x y : MountSlot)
        → nth (set ss k s) i ≡ some x
        → nth (set ss k s) j ≡ some y
        → IsMount x
        → IsMount y
        → x.point ≡ y.point
        → Dec (k ≡ i)
        → Dec (k ≡ j)
        → i ≡ j
    place i j x y ei ej mx my same (yes p) (yes q) = sym p ∙ q
    place i j x y ei ej mx my same (yes p) (no q) =
        let e : s ≡ x = here i x p ei in
        absurd
          (apart j y q (there j y q ej) my (subst IsMount (sym e) mx) (ap (λ z. z.point) e ∙ same))
    place i j x y ei ej mx my same (no p) (yes q) =
        let e : s ≡ y = here j y q ej in
        absurd (
          apart i x p (there i x p ei) mx (subst IsMount (sym e) my)
            (ap (λ z. z.point) e ∙ sym same))
    place i j x y ei ej mx my same (no p) (no q) =
        h.distinct i j x y (there i x p ei) (there j y q ej) mx my same

pub mounted_at-point :
    (point : Text) (s : MountSlot)
    → IsChars point
    → IsChars s.point
    → mounted_at point s ≡ true
    → IsMount s × (s.point ≡ point)
mounted_at-point point s hp hs h =
    let (m, t) = both_true _ _ h in
    let (n, e) = both_true _ _ t in ((m, n), text_cmp-equal s.point point hs hp e)

pub point-mounted_at :
    (point : Text) (s : MountSlot) → IsMount s → s.point ≡ point → mounted_at point s ≡ true
point-mounted_at point s (m, n) e = rw (m, n, e, text_cmp_self point) refl

-- No other mount has the mount point of the slot that is chosen.
pub mount_slot-apart :
    (point : Text) (ss : List MountSlot) (k j : ℕ) (t : MountSlot)
    → IsTable ss
    → IsChars point
    → mount_slot point ss ≡ some k
    → k ≢ j
    → nth ss j ≡ some t
    → IsMount t
    → point ≢ t.point
unfolding mount_slot
mount_slot-apart point ss k j t h chars e apart at m same =
    elim (Option-cases (find_mount point ss)) [
      | inl missing ↦ absurd (
          let no_mount = find_mount-missing point ss missing j t at in
          let is_mount = point-mounted_at point t m (sym same) in cc)
      | inr (i, found) ↦
          let (s, ats, here) = find_mount-found point ss i found in
          let (ms, es) = mounted_at-point point s chars (h.chars i s ats) here in
          let q : i ≡ k = some-eq (rw (mount_slot, found) at e) in
          absurd (apart (sym q ∙ h.distinct i j s t ats at ms m (es ∙ same)))
    ]

-- The one place where a mount point is mounted.
pub find_mount-there :
    (point : Text) (ss : List MountSlot) (k : ℕ) (s : MountSlot)
    → IsTable ss
    → IsChars point
    → nth ss k ≡ some s
    → IsMount s
    → s.point ≡ point
    → find_mount point ss ≡ some k
find_mount-there point ss k s h chars at m same = elim (Option-cases (find_mount point ss)) [
  | inl missing ↦ absurd (
      let no_mount = find_mount-missing point ss missing k s at in
      let is_mount = point-mounted_at point s m same in cc)
  | inr (i, found) ↦
      let (t, att, here) = find_mount-found point ss i found in
      let (mt, et) = mounted_at-point point t chars (h.chars i t att) here in
      found ∙ ap some (h.distinct i k t s att at mt m (et ∙ sym same))
]

pub find_mount-gone :
    (point : Text) (ss : List MountSlot)
    → ((k : ℕ) (s : MountSlot) → nth ss k ≡ some s → mounted_at point s ≡ false)
    → find_mount point ss ≡ none
find_mount-gone point ss h = elim (Option-cases (find_mount point ss)) [
  | inl e ↦ e
  | inr (k, found) ↦
      let (s, at, here) = find_mount-found point ss k found in absurd (let no = h k s at in cc)
]

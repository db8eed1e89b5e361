-- ===== src/Vfs/Table/Mounting.antt =====
-- vfs_mount of fs/vfs.c: what a mount does to the table.
use hao_sys.Base.{
  ℕ, ◌≡◌, ◌⊎◌, inl, inr, refl, ◌∙◌, sym, subst, ap, Bool, true, false, some, nth, set, Bool-cases,
  Option-cases, some-eq, nth-set_self,
}
use hao_sys.Str.Text.{Text, IsChars}
use hao_sys.Fat.Mount
use hao_sys.Vfs.{
  MountSlot, BlockDev, Vfs, find_dev, find_mount, mount_slot, mount, mount_in, fits_storage, is_fat,
}
use hao_sys.Probe.{fs_probe}
use hao_sys.Vfs.Table.{IsTable, set-IsTable, mount_slot-apart, find_mount-there}

-- A mount that got as far as the slot `k`, of the device `d` with number `i`.
pub record IsTried (v : Vfs) (point name : Text) (r : Bool × Vfs) : Type 0 where
  pub i : ℕ
  pub d : BlockDev
  pub k : ℕ
  pub s : MountSlot
  pub found : find_dev name v.devs ≡ some i
  pub device : nth v.devs i ≡ some d
  pub slot : mount_slot point v.mounts ≡ some k
  pub at : nth v.mounts k ≡ some s
  pub result :
      r ≡ ((mount_in s point i d).0, record v { mounts = set v.mounts k (mount_in s point i d).1 })

mount-IsTried :
    (v : Vfs) (point name : Text) (r : Bool × Vfs)
    → mount v point name ≡ some r
    → (r ≡ (false, v)) ⊎ IsTried v point name r
unfolding mount
mount-IsTried v point name r e = elim (Option-cases (find_dev name v.devs)) [
  | inl no_dev ↦ inl (sym (some-eq (rw (mount, no_dev) at e)))
  | inr (i, found) ↦ elim (Option-cases (nth v.devs i)) [
    | inl no_dev ↦ inl (sym (some-eq (rw (mount, found, no_dev) at e)))
    | inr (d, device) ↦ elim (Option-cases (mount_slot point v.mounts)) [
      | inl full ↦ inl (sym (some-eq (rw (mount, found, device, full) at e)))
      | inr (k, slot) ↦ elim (Option-cases (nth v.mounts k)) [
        | inl out ↦ inl (sym (some-eq (rw (mount, found, device, slot, out) at e)))
        | inr (s, at) ↦ elim (Bool-cases (fits_storage point)) [
          | inr long ↦ absurd (let e' = rw (mount, found, device, slot, at, long) at e in cc)
          | inl fits ↦ inr (record {
            i = i;
            d = d;
            k = k;
            s = s;
            found = found;
            device = device;
            slot = slot;
            at = at;
            result = sym (some-eq (rw (mount, found, device, slot, at, fits) at e));
          })
        ]
      ]
    ]
  ]
]

-- The slot after a mount that succeeded.
abbrev pub mounted_slot : MountSlot → Text → ℕ → BlockDev → MountSlot
mounted_slot s point i d = record s {
  point = point;
  named = true;
  dev = some i;
  fs = (Mount.mount s.fs d.device).1;
  fs_dev = i;
  mounted = true;
}

mount_in-cases :
    (s : MountSlot) (point : Text) (i : ℕ) (d : BlockDev)
    → (((Mount.mount s.fs d.device).0 ≡ true)
        × (mount_in s point i d ≡ (true, mounted_slot s point i d)))
      ⊎ (((mount_in s point i d).0 ≡ false) × ((mount_in s point i d).1.point ≡ point))
unfolding mount_in
mount_in-cases s point i d = elim (Bool-cases (is_fat (fs_probe d.device))) [
  | inr other ↦ inr (rw other refl, rw other refl)
  | inl fat ↦ elim (Bool-cases (Mount.mount s.fs d.device).0) [
    | inl ok ↦ inl (ok, rw (fat, ok) refl)
    | inr fails ↦ inr (rw (fat, fails) refl, rw (fat, fails) refl)
  ]
]

mount_in-point :
    (s : MountSlot) (point : Text) (i : ℕ) (d : BlockDev) → (mount_in s point i d).1.point ≡ point
mount_in-point s point i d = elim (mount_in-cases s point i d) [
  | inl (ok, e) ↦ ap (λ r. r.1.point) e
  | inr (fails, e) ↦ e
]

pub mount-IsTable :
    (v : Vfs) (point name : Text) (ok : Bool) (w : Vfs)
    → IsChars point
    → IsTable v.mounts
    → mount v point name ≡ some (ok, w)
    → IsTable w.mounts
mount-IsTable v point name ok w chars h e = elim (mount-IsTried v point name (ok, w) e) [
  | inl same ↦ let q : w ≡ v = ap (λ r. r.1) same in subst (λ x. IsTable x.mounts) (sym q) h
  | inr t ↦
      let p = mount_in-point t.s point t.i t.d in
      let q = ap (λ r. r.1.mounts) t.result in
      subst IsTable (sym q) (
        set-IsTable v.mounts t.k t.s (mount_in t.s point t.i t.d).1 h t.at
          (subst IsChars (sym p) chars)
          (λ j x apart at m m' same.
            mount_slot-apart point v.mounts t.k j x h chars t.slot apart at m (sym p ∙ same)))
]

-- After a mount that succeeds, the mount point is found, at a volume that the FAT driver mounted from
-- the device of that name.
pub mount-find_mount :
    (v : Vfs) (point name : Text) (w : Vfs)
    → IsChars point
    → IsTable v.mounts
    → mount v point name ≡ some (true, w)
    → (t : IsTried v point name (true, w)) × ((Mount.mount t.s.fs t.d.device).0 ≡ true)
      × (find_mount point w.mounts ≡ some t.k)
      × (nth w.mounts t.k ≡ some (mounted_slot t.s point t.i t.d))
mount-find_mount v point name w chars h e = elim (mount-IsTried v point name (true, w) e) [
  | inl same ↦ absurd (cc)
  | inr t ↦ elim (mount_in-cases t.s point t.i t.d) [
    | inr (fails, p) ↦ absurd (let q : true ≡ false = ap (λ r. r.0) t.result ∙ fails in cc)
    | inl (ok, p) ↦
        let q : w.mounts ≡ set v.mounts t.k (mounted_slot t.s point t.i t.d) =
          ap (λ r. r.1.mounts) t.result ∙ ap (λ (r : Bool × MountSlot). set v.mounts t.k r.1) p in
        let there : nth w.mounts t.k ≡ some (mounted_slot t.s point t.i t.d) =
          ap (λ ss. nth ss t.k) q ∙ nth-set_self v.mounts t.k _ t.s t.at in
        (
          t,
          ok,
          find_mount-there point w.mounts t.k _ (mount-IsTable v point name true w chars h e) chars
              there (refl, refl) refl,
          there,
        )
  ]
]

pub mount-devs :
    (v : Vfs) (point name : Text) (ok : Bool) (w : Vfs)
    → mount v point name ≡ some (ok, w)
    → w.devs ≡ v.devs
mount-devs v point name ok w e = elim (mount-IsTried v point name (ok, w) e) [
  | inl same ↦ ap (λ r. r.1.devs) same
  | inr t ↦ ap (λ r. r.1.devs) t.result
]

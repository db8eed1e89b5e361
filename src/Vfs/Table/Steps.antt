-- ===== src/Vfs/Table/Steps.antt =====
-- The calls of fs/vfs.c, and those of the FAT driver on a mounted volume, as steps.
use hao_sys.Base.{
  ℕ, zero, suc, ◌<◌, ◌≡◌, ◌⊎◌, inl, inr, refl, ◌∙◌, sym, subst, ap, Bool, false, List, [], ◌∷◌,
  none, some, leb, length, nth, set, arith, Bool-cases, Option-cases, some-eq, nth-set_self,
  nth-set_ne, nth-append_one, nth-lt, length-set, length-append, ℕ_discrete,
}
use hao_sys.Str.Text.{Text, IsChars}
use hao_sys.Fat.{Device}
use hao_sys.Fat.Run.{Run}
use hao_sys.Vfs.{
  BlockDev, Vfs, find_dev, register_device, mount, umount, same_text, max_devs, on_volume,
  put_device,
}
use hao_sys.Vfs.Table.{IsTable, IsDevices, set-IsTable}
use hao_sys.Vfs.Table.Mounting.{mount-IsTable, mount-devs}
use hao_sys.Vfs.Table.Unmounting.{umount-IsTable}

pub data Step (v : Vfs) : Vfs → Type 1 where
  registering : (d : BlockDev) → Step v (register_device v d).1
  mounting :
      (point name : Text) (ok : Bool) (w : Vfs)
      → IsChars point
      → mount v point name ≡ some (ok, w)
      → Step v w
  unmounting : (point : Text) → Step v (umount v point).1
  calling :
      (A : Type 0) (k : ℕ) (run : Run A) (a : A) (w : Vfs)
      → on_volume v k run ≡ some (a, w)
      → Step v w

pub data Steps : Vfs → Vfs → Type 1 where
  start : {v : Vfs} → Steps v v
  more : {u v w : Vfs} → Steps u v → Step v w → Steps u w

abbrev pub IsVfs : Vfs → Type 0
IsVfs v = IsTable v.mounts × IsDevices v.devs

-- No device has the name.
find_dev-missing :
    (name : Text) (ds : List BlockDev)
    → find_dev name ds ≡ none
    → (i : ℕ) (d : BlockDev) → nth ds i ≡ some d
    → same_text d.name name ≡ false
unfolding find_dev
find_dev-missing name [] e i d at = absurd (cc)
find_dev-missing name (x ∷ ds) e i d at = elim (Bool-cases (same_text x.name name)) [
  | inl here ↦ absurd (let e' = rw here at e in cc)
  | inr past ↦ elim (Option-cases (find_dev name ds)) [
    | inl no_more ↦ later i past (find_dev-missing name ds no_more) at
    | inr (j, found) ↦ absurd (let e' = rw (past, found) at e in cc)
  ]
]
  where
    later :
        (i : ℕ)
        → same_text x.name name ≡ false
        → ((j : ℕ) (y : BlockDev) → nth ds j ≡ some y → same_text y.name name ≡ false)
        → nth (x ∷ ds) i ≡ some d
        → same_text d.name name ≡ false
    later zero past rest at =
        let q : x ≡ d = some-eq at in subst (λ y. same_text y.name name ≡ false) q past
    later (suc j) past rest at = rest j d at

register_device-IsDevices :
    (v : Vfs) (d : BlockDev) → IsDevices v.devs → IsDevices (register_device v d).1.devs
unfolding register_device
register_device-IsDevices v d h = elim (Option-cases (find_dev d.name v.devs)) [
  | inr (i, found) ↦ rw (register_device, found) h
  | inl new ↦ elim (Bool-cases (leb max_devs (length v.devs))) [
    | inl full ↦ rw (register_device, new, full) h
    | inr room ↦
        let few : length v.devs < max_devs = ground arith in
        rw (register_device, new, room)
          (record {
            room = omega (arith, length-append v.devs (d ∷ []));
            names = λ i j x y l ei ej.
                apart new i j x y l (nth-append_one v.devs d i x ei)
                  (nth-append_one v.devs d j y ej);
          })
  ]
]
  where
    apart :
        find_dev d.name v.devs ≡ none
        → (i j : ℕ) (x y : BlockDev) → i < j
        → (nth v.devs i ≡ some x) ⊎ ((i ≡ length v.devs) × (d ≡ x))
        → (nth v.devs j ≡ some y) ⊎ ((j ≡ length v.devs) × (d ≡ y))
        → same_text x.name y.name ≡ false
    apart new i j x y l (inl ei) (inl ej) = h.names i j x y l ei ej
    apart new i j x y l (inl ei) (inr (ej, q)) =
        subst (λ z. same_text x.name z.name ≡ false) q (find_dev-missing d.name v.devs new i x ei)
    apart new i j x y l (inr (ei, p)) (inl ej) = absurd (omega (arith, nth-lt v.devs j y ej))
    apart new i j x y l (inr (ei, p)) (inr (ej, q)) = absurd (omega arith)

register_device-mounts : (v : Vfs) (d : BlockDev) → v.mounts ≡ (register_device v d).1.mounts
unfolding register_device
register_device-mounts v d = elim (Option-cases (find_dev d.name v.devs)) [
  | inr (i, found) ↦ rw (register_device, found) refl
  | inl new ↦ elim (Bool-cases (leb max_devs (length v.devs))) [
    | inl full ↦ rw (register_device, new, full) refl
    | inr room ↦ rw (register_device, new, room) refl
  ]
]

umount-devs : (v : Vfs) (point : Text) → v.devs ≡ (umount v point).1.devs
unfolding umount
umount-devs v point = refl

-- Only the sectors of one device change.
put_device-IsDevices :
    (ds : List BlockDev) (i : ℕ) (device : Device)
    → IsDevices ds
    → IsDevices (put_device ds i device)
put_device-IsDevices ds i device h = elim (Option-cases (nth ds i)) [
  | inl out ↦ rw (put_device, out) h
  | inr (d, at) ↦
      rw (put_device, at)
        (record {
          room = omega (arith, length-set ds i (record d { device = device }), h.room);
          names = λ j k x y l ej ek.
              let (x', ex, nx) = from j x d at ej (ℕ_discrete i j) in
              let (y', ey, ny) = from k y d at ek (ℕ_discrete i k) in
              rw (← nx, ← ny) (h.names j k x' y' l ex ey);
        })
]
  where
    from :
        (j : ℕ) (x d : BlockDev)
        → nth ds i ≡ some d
        → nth (set ds i (record d { device = device })) j ≡ some x
        → Dec (i ≡ j)
        → (x' : BlockDev) × (nth ds j ≡ some x') × (x'.name ≡ x.name)
    from j x d at e (yes q) =
        let there : nth (set ds i (record d { device = device })) i ≡ some x =
          subst (λ n. nth (set ds i (record d { device = device })) n ≡ some x) (sym q) e in
        let same = some-eq (sym (nth-set_self ds i (record d { device = device }) d at) ∙ there) in
        (d, subst (λ n. nth ds n ≡ some d) q at, ap (λ b. b.name) same)
    from j x d at e (no q) = (x, sym (nth-set_ne ds i j _ q) ∙ e, refl)

on_volume-IsVfs :
    {A : Type 0} (v : Vfs) (k : ℕ) (run : Run A) (a : A) (w : Vfs)
    → on_volume v k run ≡ some (a, w)
    → IsVfs v
    → IsVfs w
unfolding on_volume
on_volume-IsVfs v k run a w e (h, g) = elim (Option-cases (nth v.mounts k)) [
  | inl out ↦ absurd (let e' = rw (on_volume, out) at e in cc)
  | inr (s, at) ↦ elim (Option-cases (nth v.devs s.fs_dev)) [
    | inl out ↦ absurd (let e' = rw (on_volume, at, out) at e in cc)
    | inr (d, device) ↦ elim (Option-cases (run (record s.fs { dev = d.device }))) [
      | inl runs ↦ absurd (let e' = rw (on_volume, at, device, runs) at e in cc)
      | inr ((b, fs), ends) ↦
          let q = some-eq (rw (on_volume, at, device, ends) at e) in
          subst IsVfs (ap (λ r. r.1) q) (
            set-IsTable v.mounts k s (record s { fs = fs }) h at (h.chars k s at)
                (λ j t apart att m m' same. apart (h.distinct k j s t at att m' m same)),
            put_device-IsDevices v.devs s.fs_dev fs.dev g,
          )
    ]
  ]
]

Step-IsVfs : {v w : Vfs} → Step v w → IsVfs v → IsVfs w
Step-IsVfs {v} (registering d) (h, g) =
    (subst IsTable (register_device-mounts v d) h, register_device-IsDevices v d g)
Step-IsVfs {v} (mounting point name ok w chars e) (h, g) = (
  mount-IsTable v point name ok w chars h e,
  subst IsDevices (sym (mount-devs v point name ok w e)) g,
)
Step-IsVfs {v} (unmounting point) (h, g) =
    (umount-IsTable v point h, subst IsDevices (umount-devs v point) g)
Step-IsVfs {v} (calling A k run a w e) i = on_volume-IsVfs v k run a w e i

-- Whatever devices are registered, volumes mounted, unmounted and used: there are eight slots and at
-- most eight devices, no two mounts have the same mount point, and no two devices the same name.
pub Steps-IsVfs : {v w : Vfs} → Steps v w → IsVfs v → IsVfs w
Steps-IsVfs start h = h
Steps-IsVfs (more steps step) h = Step-IsVfs step (Steps-IsVfs steps h)

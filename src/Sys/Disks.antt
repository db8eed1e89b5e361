-- ===== src/Sys/Disks.antt =====
-- Answers of the system calls of syscall/syscall.c that leave the disks as they were.
use hao_sys.Base.{
  ℕ, zero, suc, ◌≡◌, refl, ◌∙◌, sym, ap, Bool, true, false, List, [], ◌∷◌, none, some,
  if◌then◌else◌, Option-cases, inl, inr, some-eq, nth, set,
}
use hao_sys.Str.Text.{Text}
use hao_sys.Fat.Run.{Run}
use hao_sys.Fat.Keeps.{Keeps}
use hao_sys.Vfs.{Vfs, BlockDev, resolve, on_volume, put_device}
use hao_sys.Sys.{checked, with_string, user_string, Kernel, Answer, failure, on_path, sub_text}

set-same : {A : Type 0} (xs : List A) (i : ℕ) (x : A) → nth xs i ≡ some x → set xs i x ≡ xs
set-same [] i x e = refl
set-same (y ∷ xs) zero x e = let q : y ≡ x = some-eq e in cc
set-same (y ∷ xs) (suc i) x e = ap (λ zs. y ∷ zs) (set-same xs i x e)

put_device-same :
    (ds : List BlockDev) (i : ℕ) (d : BlockDev) → nth ds i ≡ some d → put_device ds i d.device ≡ ds
put_device-same ds i d at = rw (put_device, at) (set-same ds i d at)

pub on_volume-Keeps :
    {A : Type 0} (v : Vfs) (k : ℕ) (run : Run A) (a : A) (w : Vfs)
    → Keeps run
    → on_volume v k run ≡ some (a, w)
    → w.devs ≡ v.devs
unfolding on_volume
on_volume-Keeps v k run a w h e = elim (Option-cases (nth v.mounts k)) [
  | inl out ↦ absurd (let e' = rw (on_volume, out) at e in cc)
  | inr (s, at) ↦ elim (Option-cases (nth v.devs s.fs_dev)) [
    | inl out ↦ absurd (let e' = rw (on_volume, at, out) at e in cc)
    | inr (d, device) ↦ elim (Option-cases (run (record s.fs { dev = d.device }))) [
      | inl runs ↦ absurd (let e' = rw (on_volume, at, device, runs) at e in cc)
      | inr ((b, fs), ends) ↦
          let q = some-eq (rw (on_volume, at, device, ends) at e) in
          let kept : fs.dev ≡ d.device = h.kept _ b fs ends in
          sym (ap (λ r. r.1.devs) q)
          ∙ ap (put_device v.devs s.fs_dev) kept
          ∙ put_device-same v.devs s.fs_dev d device
    ]
  ]
]

-- An answer after which every device has the sectors that it had.
pub record KeepsDisks (k : Kernel) (answer : Answer) : Type 0 where
  pub disks : (r : ℕ) (after : Kernel) → answer ≡ some (r, after) → after.vfs.devs ≡ k.vfs.devs

pub same-KeepsDisks :
    (k after : Kernel) (r : ℕ) → after.vfs.devs ≡ k.vfs.devs → KeepsDisks k (some (r, after))
same-KeepsDisks k after r h = record {
  disks = λ s g e. ap (λ x. x.1.vfs.devs) (some-eq (sym e)) ∙ h;
}

pub none-KeepsDisks : (k : Kernel) → KeepsDisks k none
none-KeepsDisks k = record { disks = λ s g e. absurd (cc) }

pub if-KeepsDisks :
    (k : Kernel) (b : Bool) (x y : Answer)
    → KeepsDisks k x
    → KeepsDisks k y
    → KeepsDisks k (if b then x else y)
if-KeepsDisks k true x y hx hy = hx
if-KeepsDisks k false x y hx hy = hy

pub on_path-KeepsDisks :
    {A : Type 0} (k : Kernel) (path : Text) (run : Text → Run A) (finish : A → Kernel → ℕ × Kernel)
    → ((sub : Text) → Keeps (run sub))
    → ((a : A) (g : Kernel) → (finish a g).1.vfs ≡ g.vfs)
    → KeepsDisks k (on_path k path run finish)
unfolding on_path
on_path-KeepsDisks k path run finish keeps ends = elim (Option-cases (resolve k.vfs path)) [
  | inl nowhere ↦ rw (on_path, nowhere) (same-KeepsDisks k k failure refl)
  | inr ((i, sub), there) ↦ elim (Option-cases (on_volume k.vfs i (run (sub_text sub)))) [
    | inl runs ↦ rw (on_path, there, runs) (none-KeepsDisks k)
    | inr ((a, v), stops) ↦
        rw (on_path, there, stops)
          (same-KeepsDisks k _ _ (
            ap (λ w. w.devs) (ends a (record k { vfs = v }))
            ∙ on_volume-Keeps k.vfs i (run (sub_text sub)) a v (keeps (sub_text sub)) stops))
  ]
]

pub checked-KeepsDisks :
    (k : Kernel) (ok : Bool) (answer : Answer)
    → KeepsDisks k answer
    → KeepsDisks k (checked k ok answer)
unfolding checked
checked-KeepsDisks k ok answer h =
    if-KeepsDisks k ok answer (some (failure, k)) h (same-KeepsDisks k k failure refl)

pub with_string-KeepsDisks :
    (fuel : ℕ) (k : Kernel) (a : ℕ) (call : Text → Answer)
    → ((w : Text) → KeepsDisks k (call w))
    → KeepsDisks k (with_string fuel k a call)
unfolding with_string
with_string-KeepsDisks fuel k a call h = elim (Option-cases (user_string fuel k.memory a)) [
  | inl e ↦ rw (with_string, e) (none-KeepsDisks k)
  | inr (w, e) ↦ rw (with_string, e) (h w)
]

pub ruleset disk_rules = (checked-KeepsDisks, with_string-KeepsDisks, if-KeepsDisks)

-- ===== src/Sys/Denied.antt =====
-- The calls of syscall/syscall.c that change files, for a task that may not.
use hao_sys.Base.{
  ℕ, ◌≡◌, refl, ◌∙◌, ap, Bool, false, ◌||◌, List, Option, none, some, ◌==◌, Bool-cases,
  Option-cases, inl, inr, some-eq, nth,
}
use hao_sys.Str.Text.{Text}
use hao_sys.Task.{Task}
use hao_sys.Fat.{Fs}
use hao_sys.Fat.Run.{Run, pure, ◌>>=◌}
use hao_sys.Fat.Name.{entry_unix_meta}
use hao_sys.Fat.Path.{find_file}
use hao_sys.Fat.Keeps.{Keeps, keeps_rules, bind-Keeps, option-Keeps}
use hao_sys.Fat.Keeps.Paths.{find_file-Keeps}
use hao_sys.Perm.{euid_of, check_entry, check_parent_writable, parent_sub}
use hao_sys.Vfs.{Vfs, resolve, on_volume}
use hao_sys.Sys.{
  Kernel, Answer, failure, checked, with_string, on_path, user_string, sub_text, done,
}
use hao_sys.Sys.Disks.{on_volume-Keeps}
use hao_sys.Sys.Files.{
  write_checked, delete_checked, mkdir_checked, sys_write_file, sys_delete_file, sys_mkdir,
}
use hao_sys.Sys.Meta.{chmod_checked, sys_chmod}
use hao_sys.Sys.Dispatch.{Regs, FileCall, write_file, delete_file, make_dir, chmod_file, perform}

-- Write permission on the file, or on the directory where it is to be.
unfoldable pub may_write : ℕ → Option Task → Text → Run Bool
may_write fuel t sub = do
  found ← find_file fuel sub
  elim found [ some e ↦ pure (check_entry t e 2) | none ↦ check_parent_writable fuel t sub ]

-- Root, or the owner of the file.
unfoldable pub may_chmod : ℕ → Option Task → Text → Run Bool
may_chmod fuel t sub = do
  found ← find_file fuel sub
  elim found [
    | none ↦ pure false
    | some e ↦ pure ((euid_of t == 0) || (euid_of t == (entry_unix_meta (some e)).1))
  ]

pub data IsChanging : FileCall → Type 0 where
  writes : IsChanging write_file
  deletes : IsChanging delete_file
  makes : IsChanging make_dir
  changes : IsChanging chmod_file

-- What a task needs for a change.
abbrev pub permission : {c : FileCall} → IsChanging c → ℕ → Option Task → Text → Run Bool
permission writes fuel t sub = may_write fuel t sub
permission deletes fuel t sub = check_parent_writable fuel t sub
permission makes fuel t sub = check_parent_writable fuel t sub
permission changes fuel t sub = may_chmod fuel t sub

check_parent_writable-Keeps :
    (fuel : ℕ) (t : Option Task) (sub : Text) → Keeps (check_parent_writable fuel t sub)
unfolding check_parent_writable
check_parent_writable-Keeps fuel t sub = elim (Option-cases (parent_sub sub)) [
  | inl e ↦ rw (check_parent_writable, e) (search keeps_rules)
  | inr (p, e) ↦
      rw (check_parent_writable, e)
        (bind-Keeps _ _ (find_file-Keeps fuel p)
          (option-Keeps _ (search keeps_rules) (λ f. search keeps_rules)))
]

permission-Keeps :
    {c : FileCall} (ch : IsChanging c) (fuel : ℕ) (t : Option Task) (sub : Text)
    → Keeps (permission ch fuel t sub)
unfolding may_write may_chmod
permission-Keeps writes fuel t sub =
    bind-Keeps _ _ (find_file-Keeps fuel sub)
      (option-Keeps _ (check_parent_writable-Keeps fuel t sub) (λ e. search keeps_rules))
permission-Keeps deletes fuel t sub = check_parent_writable-Keeps fuel t sub
permission-Keeps makes fuel t sub = check_parent_writable-Keeps fuel t sub
permission-Keeps changes fuel t sub =
    bind-Keeps _ _ (find_file-Keeps fuel sub)
      (option-Keeps _ (search keeps_rules) (λ e. search keeps_rules))

-- Where the permission is missing, the run fails in the same state.
abbrev pub Denies : Run Bool → Run Bool → Type 0
Denies perm run = (fs g : Fs) → perm fs ≡ some (false, g) → run fs ≡ some (false, g)

write_checked-Denies :
    (fuel : ℕ) (t : Option Task) (bytes : List ℕ) (sub : Text)
    → Denies (may_write fuel t sub) (write_checked fuel t bytes sub)
unfolding may_write write_checked ◌>>=◌
write_checked-Denies fuel t bytes sub fs g e = elim (Option-cases (find_file fuel sub fs)) [
  | inl runs ↦ absurd (let e' = rw (may_write, ◌>>=◌, runs) at e in cc)
  | inr ((none, f), there) ↦
      let e' : check_parent_writable fuel t sub f ≡ some (false, g) =
        rw (may_write, ◌>>=◌, there) at e in
      rw (write_checked, ◌>>=◌, there, e') refl
  | inr ((some x, f), there) ↦
      let e' : some (check_entry t x 2, f) ≡ some (false, g) = rw (may_write, ◌>>=◌, there) at e in
      let no : check_entry t x 2 ≡ false = ap (λ r. r.0) (some-eq e') in
      let same : f ≡ g = ap (λ r. r.1) (some-eq e') in
      rw (write_checked, ◌>>=◌, there, no, same) refl
]

delete_checked-Denies :
    (fuel : ℕ) (t : Option Task) (sub : Text)
    → Denies (check_parent_writable fuel t sub) (delete_checked fuel t sub)
unfolding delete_checked ◌>>=◌
delete_checked-Denies fuel t sub fs g e = rw (delete_checked, ◌>>=◌, e) refl

mkdir_checked-Denies :
    (fuel : ℕ) (t : Option Task) (sub : Text)
    → Denies (check_parent_writable fuel t sub) (mkdir_checked fuel t sub)
unfolding mkdir_checked ◌>>=◌
mkdir_checked-Denies fuel t sub fs g e = rw (mkdir_checked, ◌>>=◌, e) refl

chmod_checked-Denies :
    (fuel : ℕ) (t : Option Task) (mode : ℕ) (sub : Text)
    → Denies (may_chmod fuel t sub) (chmod_checked fuel t mode sub)
unfolding may_chmod chmod_checked ◌>>=◌
chmod_checked-Denies fuel t mode sub fs g e = elim (Option-cases (find_file fuel sub fs)) [
  | inl runs ↦ absurd (let e' = rw (may_chmod, ◌>>=◌, runs) at e in cc)
  | inr ((none, f), there) ↦
      let e' : some (false, f) ≡ some (false, g) = rw (may_chmod, ◌>>=◌, there) at e in
      rw (chmod_checked, ◌>>=◌, there) e'
  | inr ((some x, f), there) ↦
      let e' : some ((euid_of t == 0) || (euid_of t == (entry_unix_meta (some x)).1), f)
          ≡ some (false, g) =
        rw (may_chmod, ◌>>=◌, there) at e in
      let no = ap (λ r. r.0) (some-eq e') in
      let same : f ≡ g = ap (λ r. r.1) (some-eq e') in
      rw (chmod_checked, ◌>>=◌, there, no, same) refl
]

on_volume-Denies :
    (v w : Vfs) (i : ℕ) (perm run : Run Bool)
    → Denies perm run
    → on_volume v i perm ≡ some (false, w)
    → on_volume v i run ≡ some (false, w)
unfolding on_volume
on_volume-Denies v w i perm run h e = elim (Option-cases (nth v.mounts i)) [
  | inl out ↦ absurd (let e' = rw (on_volume, out) at e in cc)
  | inr (s, at) ↦ elim (Option-cases (nth v.devs s.fs_dev)) [
    | inl out ↦ absurd (let e' = rw (on_volume, at, out) at e in cc)
    | inr (d, device) ↦ elim (Option-cases (perm (record s.fs { dev = d.device }))) [
      | inl runs ↦ absurd (let e' = rw (on_volume, at, device, runs) at e in cc)
      | inr ((ok, fs), ends) ↦
          let e' = rw (on_volume, at, device, ends) at e in
          let no : ok ≡ false = ap (λ r. r.0) (some-eq e') in
          rw (on_volume, at, device, h _ fs (ends ∙ rw no refl))
            (ap (λ r. some (false, r.1)) (some-eq e'))
    ]
  ]
]

-- The answer of a call whose permission is missing.
abbrev pub IsDenied : Kernel → Answer → Type 0
IsDenied k answer =
    (after : Kernel) × (answer ≡ some (failure, after)) × (after.vfs.devs ≡ k.vfs.devs)

at_path-IsDenied :
    (fuel : ℕ) (k : Kernel) (a : ℕ) (path : Text) (i : ℕ) (sub : Option Text) (v : Vfs) (ok : Bool)
    (perm run : Text → Run Bool)
    → user_string fuel k.memory a ≡ some path
    → resolve k.vfs path ≡ some (i, sub)
    → on_volume k.vfs i (perm (sub_text sub)) ≡ some (false, v)
    → Keeps (perm (sub_text sub))
    → Denies (perm (sub_text sub)) (run (sub_text sub))
    → IsDenied k (checked k ok (with_string fuel k a (λ p. on_path k p run done)))
unfolding checked with_string on_path
at_path-IsDenied fuel k a path i sub v ok perm run string there fails keeps denies =
    elim (Bool-cases ok) [
      | inr bad ↦ (k, rw (checked, bad) refl, refl)
      | inl good ↦ (
        record k { vfs = v },
        rw
            (
              checked,
              good,
              with_string,
              string,
              on_path,
              there,
              on_volume-Denies k.vfs v i _ _ denies fails,
            )
            refl,
        on_volume-Keeps k.vfs i _ false v keeps fails,
      )
    ]

pub perform-IsDenied :
    {c : FileCall} (ch : IsChanging c) (fuel : ℕ) (pad : ℕ × ℕ) (k : Kernel) (r : Regs)
    (path : Text) (i : ℕ) (sub : Option Text) (v : Vfs)
    → user_string fuel k.memory r.ebx ≡ some path
    → resolve k.vfs path ≡ some (i, sub)
    → on_volume k.vfs i (permission ch fuel k.current (sub_text sub)) ≡ some (false, v)
    → IsDenied k (perform fuel pad k r c)
unfolding perform sys_write_file sys_delete_file sys_mkdir sys_chmod
perform-IsDenied writes fuel pad k r path i sub v string there fails =
    at_path-IsDenied fuel k r.ebx path i sub v _ (may_write fuel k.current) _ string there fails
      (permission-Keeps writes fuel k.current (sub_text sub))
      (write_checked-Denies fuel k.current _ (sub_text sub))
perform-IsDenied deletes fuel pad k r path i sub v string there fails =
    at_path-IsDenied fuel k r.ebx path i sub v _ (check_parent_writable fuel k.current) _ string
      there fails (permission-Keeps deletes fuel k.current (sub_text sub))
      (delete_checked-Denies fuel k.current (sub_text sub))
perform-IsDenied makes fuel pad k r path i sub v string there fails =
    at_path-IsDenied fuel k r.ebx path i sub v _ (check_parent_writable fuel k.current) _ string
      there fails (permission-Keeps makes fuel k.current (sub_text sub))
      (mkdir_checked-Denies fuel k.current (sub_text sub))
perform-IsDenied changes fuel pad k r path i sub v string there fails =
    at_path-IsDenied fuel k r.ebx path i sub v _ (may_chmod fuel k.current) _ string there fails
      (permission-Keeps changes fuel k.current (sub_text sub))
      (chmod_checked-Denies fuel k.current r.ecx (sub_text sub))

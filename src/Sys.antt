-- ===== src/Sys.antt =====
-- syscall/syscall.c: the system calls on files. The kernel's state as they see it: the page tables of
-- the running directory, which say what a task may point to, the bytes at the task's addresses, the
-- virtual file system and the current task. A result is the 32 bits of `eax`; `none` is a loop that
-- does not end within its fuel, or a mount point that overruns its storage.
pub mod Files
pub mod Meta
pub mod Listing
pub mod Dispatch
pub mod Disks
pub mod Reading
pub mod Denied
mod Tests
use hao_sys.Base.{
  ℕ, zero, suc, ◌+◌, ◌-◌, ◌*◌, ◌^◌, Bool, true, false, not, ◌&&◌, ◌||◌, List, [], ◌∷◌, Option, none,
  some, Memory, store, add32, sub32, ◌==◌, ltb, if◌then◌else◌,
}
use hao_sys.Vmm.{Vmm, is_user_accessible}
use hao_sys.Vfs.{Vfs, resolve, on_volume}
use hao_sys.Str.Text.{Text}
use hao_sys.Task.{Task}
use hao_sys.Fat.Run.{Run}

pub record Kernel : Type 0 where
  pub vmm : Vmm
  pub vfs : Vfs
  pub current : Option Task
  pub memory : Memory

-- -1
abbrev pub failure : ℕ
failure = 2 ^ 32 - 1

abbrev pub Answer : Type 0
Answer = Option (ℕ × Kernel)

abbrev pub deny : Kernel → Answer
deny k = some (failure, k)

-- 0 for success, -1 for a failure.
abbrev pub code : Bool → ℕ
code ok = if ok then 0 else failure

-- The user's pointer is not NULL and its page is the user's.
abbrev pub user_ptr : Kernel → ℕ → Bool
user_ptr k a = not (a == 0) && is_user_accessible k.vmm a

-- The string at an address.
unfoldable pub user_string : ℕ → Memory → ℕ → Option Text
user_string zero m a = none
user_string (suc fuel) m a =
    let rest = user_string fuel m (add32 a 1) in
    if m a == 0 then some [] else elim rest [ none ↦ none | some w ↦ some (m a ∷ w) ]

abbrev pub user_bytes : Memory → ℕ → ℕ → List ℕ
user_bytes m a zero = []
user_bytes m a (suc n) = m a ∷ user_bytes m (add32 a 1) n

abbrev pub put_bytes : Memory → ℕ → List ℕ → Memory
put_bytes m a [] = m
put_bytes m a (b ∷ bs) = put_bytes (store m a b) (add32 a 1) bs

abbrev pub sub_text : Option Text → Text
sub_text sub = elim sub [ none ↦ [] | some t ↦ t ]

-- A call of the FAT driver on the volume and the subpath of the path: a NULL subpath is, for the driver,
-- an empty one. `finish` turns the driver's result into the call's.
unfoldable pub on_path {ℓ} :
    {A : Type ℓ} → Kernel → Text → (Text → Run A) → (A → Kernel → ℕ × Kernel) → Answer
on_path k path run finish = elim (resolve k.vfs path) [
  | none ↦ deny k
  | some (i, sub) ↦ elim (on_volume k.vfs i (run (sub_text sub))) [
    | none ↦ none
    | some (a, v) ↦ some (finish a (record k { vfs = v }))
  ]
]

-- The string at a user's address.
unfoldable pub with_string : ℕ → Kernel → ℕ → (Text → Answer) → Answer
with_string fuel k a call = elim (user_string fuel k.memory a) [ none ↦ none | some w ↦ call w ]

-- `on_path` on the path at a user's address.
abbrev pub at_path {ℓ} :
    {A : Type ℓ} → ℕ → Kernel → ℕ → (Text → Run A) → (A → Kernel → ℕ × Kernel) → Answer
at_path fuel k a run finish = with_string fuel k a (λ path. on_path k path run finish)

-- A call with its checks of the arguments.
unfoldable pub checked : Kernel → Bool → Answer → Answer
checked k ok answer = if ok then answer else deny k

-- A result that is all there is to do.
abbrev pub done : Bool → Kernel → ℕ × Kernel
done ok k = (code ok, k)

-- ===== src/Perm.antt =====
-- syscall/syscall.c: permission checks and credentials. A check that passes (0) is `true`, one that
-- fails (-1) is `false`.
pub mod Laws
mod Tests
use hao_sys.Base.{
  ℕ, ◌+◌, ◌*◌, ◌/◌, ◌%◌, ◌^◌, Bool, true, false, Option, none, some, List, [], ◌∷◌, Memory, ◌==◌,
  leb, if◌then◌else◌, bit_and, take, length,
}
use hao_sys.Task.{Task}
use hao_sys.Fat.Name.{entry_unix_meta}
use hao_sys.Fat.Path.{find_file}
use hao_sys.Fat.Run.{Run, pure, ◌>>=◌}

-- Without a task everything runs as root.
abbrev pub euid_of : Option Task → ℕ
euid_of t = elim t [ none ↦ 0 | some task ↦ task.euid ]

abbrev pub egid_of : Option Task → ℕ
egid_of t = elim t [ none ↦ 0 | some task ↦ task.egid ]

-- The three bits of the owner, of the group, or of the others.
unfoldable pub access_bits : Option Task → ℕ × ℕ × ℕ → ℕ
access_bits t (mode, uid, gid) =
    let shift : ℕ = if euid_of t == uid then 6 else if egid_of t == gid then 3 else 0 in
    mode / 2 ^ shift % 2 ^ 3

unfoldable pub check_entry : Option Task → Memory → ℕ → Bool
check_entry t e mask =
    if euid_of t == 0 then true else bit_and (access_bits t (entry_unix_meta (some e))) mask == mask

-- The entry that stands for the root directory.
abbrev pub root_entry : Memory
root_entry i = if i == 11 then 0x10 else 0

-- The characters before the last slash, and whether there is a slash.
unfoldable pub last_slash : List ℕ → Option (List ℕ)
last_slash [] = none
last_slash (c ∷ cs) = elim (last_slash cs) [
  | some before ↦ some (c ∷ before)
  | none ↦ if c == 47 then some [] else none
]

-- `none` is the root directory; 63 characters have room.
unfoldable pub parent_sub : List ℕ → Option (List ℕ)
parent_sub sub = elim (last_slash sub) [
  | none ↦ none
  | some [] ↦ none
  | some (c ∷ before) ↦ some (take 63 (c ∷ before))
]

unfoldable pub check_parent_writable : ℕ → Option Task → List ℕ → Run Bool
check_parent_writable fuel t sub = elim (parent_sub sub) [
  | none ↦ pure (check_entry t root_entry 2)
  | some p ↦ do
    found ← find_file fuel p
    elim found [ none ↦ pure false | some e ↦ pure (check_entry t e 2) ]
]

-- `setuid` of the current task: root sets both users, anyone else the effective one to the real one.
unfoldable pub set_uid : Task → ℕ → Bool × Task
set_uid t uid =
    if t.euid == 0
    then (true, record t { uid = uid; euid = uid })
    else (if uid == t.uid then (true, record t { euid = uid }) else (false, t))

unfoldable pub set_gid : Task → ℕ → Bool × Task
set_gid t gid =
    if t.euid == 0
    then (true, record t { gid = gid; egid = gid })
    else (if gid == t.gid then (true, record t { egid = gid }) else (false, t))

-- A task that calls `setuid` again and again.
unfoldable pub set_uids : List ℕ → Task → Task
set_uids [] t = t
set_uids (uid ∷ calls) t = set_uids calls (set_uid t uid).1

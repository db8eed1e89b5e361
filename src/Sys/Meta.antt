-- ===== src/Sys/Meta.antt =====
-- syscall/syscall.c: stat, chmod and chown.
use hao_sys.Base.{
  ℕ, ◌+◌, ◌-◌, ◌/◌, ◌%◌, ◌^◌, Bool, false, ◌&&◌, ◌||◌, List, [], ◌∷◌, Option, none, some, Memory,
  add32, ◌==◌, if◌then◌else◌, get_or, bit_and,
}
use hao_sys.Str.Text.{Text}
use hao_sys.Task.{Task}
use hao_sys.Vmm.{is_user_accessible}
use hao_sys.Fat.Run.{Run, pure, ◌>>=◌}
use hao_sys.Fat.Name.{entry_unix_meta, file_size}
use hao_sys.Fat.Path.{find_file}
use hao_sys.Fat.Write.{set_file_meta}
use hao_sys.Perm.{euid_of}
use hao_sys.Sys.{
  Kernel, Answer, checked, with_string, failure, user_ptr, put_bytes, at_path, on_path, done,
}

-- `c` is the letter, small or capital.
abbrev pub is_letter : ℕ → ℕ → Bool
is_letter c small = (c == small) || (c == small - 32)

-- A slash and these three letters.
abbrev pub is_virtual : ℕ → ℕ → ℕ → Text → Bool
is_virtual a b c path =
    (get_or path 0 0 == 47)
    && (is_letter (get_or path 1 0) a
        && (is_letter (get_or path 2 0) b
            && (is_letter (get_or path 3 0) c && (get_or path 4 0 == 0))))

abbrev pub is_dev : Text → Bool
is_dev path = is_virtual 100 101 118 path

abbrev pub is_mnt : Text → Bool
is_mnt path = is_virtual 109 110 116 path

abbrev pub bytes16 : ℕ → List ℕ
bytes16 n = n % 2 ^ 8 ∷ n / 2 ^ 8 % 2 ^ 8 ∷ []

-- `stat_info_t` has 12 bytes, of which two are not set: they are what the stack held there.
abbrev pub put_stat : Memory → ℕ → ℕ × ℕ × ℕ → ℕ → ℕ × ℕ → Memory
put_stat m buf (mode, uid, gid) size (pad, pad') =
    put_bytes
      (put_bytes
        (put_bytes
          (put_bytes (put_bytes (put_bytes m buf (bytes16 mode)) (add32 buf 2) (bytes16 uid))
            (add32 buf 4) (bytes16 gid))
          (add32 buf 6) (pad ∷ pad' ∷ []))
        (add32 buf 8) (bytes16 (size % 2 ^ 16)))
      (add32 buf 10) (bytes16 (size / 2 ^ 16))

unfoldable pub stat_run : ℕ → Text → Run (Option Memory)
stat_run fuel sub = find_file fuel sub

abbrev pub deliver_stat : ℕ → ℕ × ℕ → Option Memory → Kernel → ℕ × Kernel
deliver_stat buf pad found k = elim found [
  | none ↦ (failure, k)
  | some e ↦
      (0, record k { memory = put_stat k.memory buf (entry_unix_meta (some e)) (file_size e) pad })
]

unfoldable pub stat_text : ℕ → ℕ × ℕ → Kernel → ℕ → Text → Answer
stat_text fuel pad k buf p =
    if is_dev p || is_mnt p
    then some (0, record k { memory = put_stat k.memory buf (0x41ED, 0, 0) 0 pad })
    else on_path k p (stat_run fuel) (deliver_stat buf pad)

-- /dev and /mnt are directories of root with mode 0755.
unfoldable pub sys_stat : ℕ → ℕ × ℕ → Kernel → ℕ → ℕ → Answer
sys_stat fuel pad k path buf =
    checked k (user_ptr k path && (user_ptr k buf && is_user_accessible k.vmm (add32 buf 15)))
      (with_string fuel k path (stat_text fuel pad k buf))

-- The owner and root; the bits of the kind stay.
unfoldable pub chmod_checked : ℕ → Option Task → ℕ → Text → Run Bool
chmod_checked fuel t mode sub = do
  found ← find_file fuel sub
  elim found [
    | none ↦ pure false
    | some e ↦ do
      let (m, u, g) = entry_unix_meta (some e)
      if (euid_of t == 0) || (euid_of t == u)
          then set_file_meta fuel sub (bit_and m 0xF000 + bit_and mode 0xFFF) u g
          else pure false
  ]

unfoldable pub sys_chmod : ℕ → Kernel → ℕ → ℕ → Answer
sys_chmod fuel k path mode =
    checked k (user_ptr k path) (at_path fuel k path (chmod_checked fuel k.current mode) done)

-- 0xFFFF leaves the value.
abbrev pub or_kept : ℕ → ℕ → ℕ
or_kept v old = if v == 0xFFFF then old else v % 2 ^ 16

unfoldable pub chown_run : ℕ → ℕ → ℕ → Text → Run Bool
chown_run fuel uid gid sub = do
  found ← find_file fuel sub
  elim found [
    | none ↦ pure false
    | some e ↦ do
      let (m, u, g) = entry_unix_meta (some e)
      set_file_meta fuel sub m (or_kept uid u) (or_kept gid g)
  ]

-- The current task is there and is root's.
abbrev pub is_root : Option Task → Bool
is_root t = elim t [ none ↦ false | some task ↦ task.euid == 0 ]

unfoldable pub sys_chown : ℕ → Kernel → ℕ → ℕ → ℕ → Answer
sys_chown fuel k path uid gid =
    checked k (user_ptr k path && is_root k.current)
      (at_path fuel k path (chown_run fuel uid gid) done)

-- ===== src/Vfs/Listing.antt =====
-- fs/vfs.c: the virtual directories /dev and /mnt. An entry array is the list of the entries that are
-- stored, each of 32 bytes.
use hao_sys.Base.{
  ℕ, zero, suc, ◌-◌, Bool, not, ◌&&◌, List, [], ◌∷◌, Option, none, some, Memory, mul32, ◌==◌, ltb,
  leb, if◌then◌else◌, length, get_or, take, drop,
}
use hao_sys.Str.Text.{Text}
use hao_sys.Fat.{put32}
use hao_sys.Vfs.{BlockDev, MountSlot, Vfs, same_text, slash}

-- `if (c >= 'a' && c <= 'z') c -= 32;`
abbrev pub upper : ℕ → ℕ
upper c = if leb 97 c && leb c 122 then c - 32 else c

abbrev pub upper_text : Text → Text
upper_text [] = []
upper_text (c ∷ cs) = upper c ∷ upper_text cs

-- The name is padded with spaces to 11 characters; the other fields are 0.
abbrev pub virtual_entry : Text → ℕ → ℕ → Memory
virtual_entry name attributes size =
    put32 (λ i. if ltb i 11 then get_or name i 32 else if i == 11 then attributes else 0) 28 size

-- The entry "..".
abbrev pub dot_dot : Memory
dot_dot = virtual_entry (46 ∷ 46 ∷ []) 0x10 0

abbrev pub has_dev_prefix : Text → Bool
has_dev_prefix name =
    (get_or name 0 0 == 47)
    && ((get_or name 1 0 == 100)
        && ((get_or name 2 0 == 101) && ((get_or name 3 0 == 118) && (get_or name 4 0 == 47))))

-- "/dev/" is taken off.
abbrev pub device_name : Text → Text
device_name name = if has_dev_prefix name then drop 5 name else name

abbrev pub device_entry : BlockDev → Memory
device_entry d =
    virtual_entry (upper_text (take 11 (device_name d.name))) 0x20 (mul32 d.sector_count 512)

unfoldable pub list_devs : List BlockDev → ℕ → List Memory
list_devs [] room = []
list_devs (d ∷ ds) zero = []
list_devs (d ∷ ds) (suc room) = device_entry d ∷ list_devs ds room

unfoldable pub list_devices : Vfs → ℕ → List Memory
list_devices v zero = []
list_devices v (suc room) = dot_dot ∷ list_devs v.devs room

-- What follows the last slash; `none` without a slash.
unfoldable pub after_last_slash : Text → Option Text
after_last_slash [] = none
after_last_slash (c ∷ cs) = elim (after_last_slash cs) [
  | some last ↦ some last
  | none ↦ if c == slash then some cs else none
]

-- The name in `out_size` characters with the 0; an empty one is the result 0.
unfoldable pub mount_point_name : Text → ℕ → Text
mount_point_name point out_size = elim (after_last_slash point) [
  | none ↦ []
  | some last ↦ upper_text (take (out_size - 1) last)
]

abbrev pub is_listed : MountSlot → Bool
is_listed s =
    s.mounted
    && (s.named
        && (not (same_text s.point (slash ∷ []))
            && not (length (mount_point_name s.point 12) == 0)))

unfoldable pub list_mounts : List MountSlot → ℕ → List Memory
list_mounts [] room = []
list_mounts (s ∷ ss) zero = []
list_mounts (s ∷ ss) (suc room) =
    let listed = list_mounts ss room in
    let passed = list_mounts ss (suc room) in
    if is_listed s
    then virtual_entry (take 11 (mount_point_name s.point 12)) 0x10 0 ∷ listed
    else passed

unfoldable pub list_mount_points : Vfs → ℕ → List Memory
list_mount_points v zero = []
list_mount_points v (suc room) = dot_dot ∷ list_mounts v.mounts room

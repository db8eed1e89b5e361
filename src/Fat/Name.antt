-- ===== src/Fat/Name.antt =====
-- fs/fat.c: 8.3 names, and directory entries as their 32 bytes (`fat_dirent_t` is packed).
use hao_sys.Base.{
  ℕ, ◌+◌, ◌-◌, ◌*◌, ◌/◌, ◌%◌, ◌^◌, ◌≤◌, ◌<◌, ◌≡◌, refl, ◌⊎◌, Bool, ◌&&◌, ◌||◌, List, [], ◌∷◌, map,
  Option, none, some, Memory, store, ◌==◌, ltb, leb, if◌then◌else◌, arith, Bool-cases, inl, inr,
}
use hao_sys.Fat.{get16, get32, put16}

unfoldable pub to_upper : ℕ → ℕ
to_upper c = if leb 97 c && leb c 122 then c - 97 + 65 else c

abbrev pub dot : ℕ
dot = 46

-- The characters up to a dot, eight at most; what is left of the string, and the name.
unfoldable pub base_loop : List ℕ → ℕ → Memory → List ℕ × Memory
base_loop [] i name = ([], name)
base_loop (c ∷ cs) i name =
    let rest = base_loop cs (i + 1) (store name i (to_upper c)) in
    if (c == dot) || leb 8 i then (c ∷ cs, name) else rest

-- Three characters at most.
unfoldable pub ext_loop : List ℕ → ℕ → Memory → Memory
ext_loop [] j name = name
ext_loop (c ∷ cs) j name =
    let rest = ext_loop cs (j + 1) (store name (8 + j) (to_upper c)) in
    if ltb j 3 then rest else name

unfoldable pub ext_part : List ℕ × Memory → Memory
ext_part ([], name) = name
ext_part (c ∷ cs, name) = if c == dot then ext_loop cs 0 name else name

-- Eleven spaces and a 0.
abbrev pub blank_name : Memory
blank_name i = if i == 11 then 0 else 32

unfoldable pub make_83_name : List ℕ → Memory
make_83_name filename = ext_part (base_loop filename 0 blank_name)

to_upper_twice : (c : ℕ) → to_upper (to_upper c) ≡ to_upper c
unfolding to_upper
to_upper_twice c = ground arith

to_upper-dot : (c : ℕ) → (to_upper c == dot) ≡ (c == dot)
unfolding to_upper
to_upper-dot c = ground arith

base_loop-to_upper :
    (cs : List ℕ) (i : ℕ) (name : Memory)
    → base_loop (map to_upper cs) i name
      ≡ (map to_upper (base_loop cs i name).0, (base_loop cs i name).1)
unfolding base_loop
base_loop-to_upper [] i name = refl
base_loop-to_upper (c ∷ cs) i name = elim (Bool-cases ((c == dot) || leb 8 i)) [
  | inl stop ↦ rw (to_upper-dot c, stop) refl
  | inr on ↦
      rw (to_upper-dot c, to_upper_twice c, on)
        (base_loop-to_upper cs (i + 1) (store name i (to_upper c)))
]

ext_loop-to_upper :
    (cs : List ℕ) (j : ℕ) (name : Memory) → ext_loop (map to_upper cs) j name ≡ ext_loop cs j name
unfolding ext_loop
ext_loop-to_upper [] j name = refl
ext_loop-to_upper (c ∷ cs) j name =
    rw (to_upper_twice c, ext_loop-to_upper cs (j + 1) (store name (8 + j) (to_upper c))) refl

ext_part-to_upper :
    (cs : List ℕ) (name : Memory) → ext_part (map to_upper cs, name) ≡ ext_part (cs, name)
unfolding ext_part
ext_part-to_upper [] name = refl
ext_part-to_upper (c ∷ cs) name = rw (to_upper-dot c, ext_loop-to_upper cs 0 name) refl

-- The 8.3 form of a name does not depend on the case of its letters.
pub make_83_name-to_upper : (cs : List ℕ) → make_83_name (map to_upper cs) ≡ make_83_name cs
unfolding make_83_name
make_83_name-to_upper cs =
    rw (base_loop-to_upper cs 0 blank_name)
      (ext_part-to_upper (base_loop cs 0 blank_name).0 (base_loop cs 0 blank_name).1)

-- The entry at offset `o` of a sector.
abbrev pub dirent_at : Memory → ℕ → Memory
dirent_at b o i = b (o + i)

abbrev pub is_directory : Memory → Bool
is_directory e = e 11 / 2 ^ 4 % 2 == 1

abbrev pub first_cluster : Memory → ℕ
first_cluster e = get16 e 20 * 2 ^ 16 + get16 e 26

abbrev pub file_size : Memory → ℕ
file_size e = get32 e 28

abbrev pub meta_magic : ℕ
meta_magic = 0x58

-- Mode, uid and gid: from the borrowed time fields if the mark is there, else a default for the
-- kind of entry, 0755 for a directory and 0644 for a file.
unfoldable pub entry_unix_meta : Option Memory → ℕ × ℕ × ℕ
entry_unix_meta none = (0x81A4, 0, 0)
entry_unix_meta (some e) =
    if get16 e 14 / 2 ^ 8 == meta_magic
    then (e 13 + 2 ^ 8 * (get16 e 14 % 2 ^ 8), get16 e 16, get16 e 18)
    else ((if is_directory e then 0x41ED else 0x81A4), 0, 0)

unfoldable pub entry_set_unix_meta : Memory → ℕ → ℕ → ℕ → Memory
entry_set_unix_meta e mode uid gid =
    put16
      (put16 (put16 (store e 13 (mode % 2 ^ 8)) 14 (mode / 2 ^ 8 % 2 ^ 8 + meta_magic * 2 ^ 8)) 16
        uid)
      18 gid

-- Mode, uid and gid that are written to an entry are read back, and no byte of it outside the
-- borrowed fields changes.
pub entry_unix_meta-entry_set_unix_meta :
    (e : Memory) (mode uid gid : ℕ)
    → mode < 2 ^ 16
    → uid < 2 ^ 16
    → gid < 2 ^ 16
    → (entry_unix_meta (some (entry_set_unix_meta e mode uid gid)) ≡ (mode, uid, gid))
      × ((i : ℕ) → (i < 13) ⊎ (20 ≤ i) → entry_set_unix_meta e mode uid gid i ≡ e i)
unfolding entry_unix_meta entry_set_unix_meta store
entry_unix_meta-entry_set_unix_meta e mode uid gid hm hu hg = (ground arith, λ i h. ground arith)

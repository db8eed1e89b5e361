-- ===== src/Fat/Keeps/Paths.antt =====
-- Finding, checking and reading files in fs/fat.c writes nothing to the device.
use hao_sys.Base.{ℕ, zero, suc, Bool, true, false, List, [], ◌∷◌, Memory}
use hao_sys.Fat.Run.{Run}
use hao_sys.Fat.Path.{
  Parent, bad_path, existing, missing, enter, push_char, last_name, resolve_loop, resolve_parent,
  open_loop, open_dir, find_file,
}
use hao_sys.Fat.File.{
  load_sectors, load_loop, load_file, load_sectors_off, load_loop_off, load_file_off,
}
use hao_sys.Fat.Keeps.{
  Keeps, keeps_rules, bind-Keeps, if-Keeps, option-Keeps, pure-Keeps, volume-Keeps,
  dir_find_name-Keeps,
}

enter-Keeps : (fuel cur : ℕ) (seg : List ℕ) → Keeps (enter fuel cur seg)
unfolding enter
enter-Keeps fuel cur seg =
    bind-Keeps _ _ (dir_find_name-Keeps fuel cur _)
      (option-Keeps _ (search keeps_rules) (λ e. search keeps_rules))

last_name-Keeps : (fuel cur : ℕ) (seg : List ℕ) → Keeps (last_name fuel cur seg)
unfolding last_name
last_name-Keeps fuel cur seg =
    bind-Keeps _ _ (dir_find_name-Keeps fuel cur _)
      (option-Keeps _ (search keeps_rules) (λ e. search keeps_rules))

resolve_loop-Keeps :
    (fuel cur : ℕ) (seg : List ℕ) (have : Bool) (path : List ℕ)
    → Keeps (resolve_loop fuel cur seg have path)
unfolding resolve_loop
resolve_loop-Keeps fuel cur seg have [] = search (keeps_rules, last_name-Keeps)
resolve_loop-Keeps fuel cur seg have (c ∷ cs) =
    if-Keeps _ _ _
      (if-Keeps _ _ _
        (bind-Keeps _ _ (enter-Keeps fuel cur seg)
          (option-Keeps _ (search keeps_rules) (λ dir. resolve_loop-Keeps fuel dir [] false cs)))
        (resolve_loop-Keeps fuel cur seg false cs))
      (resolve_loop-Keeps fuel cur (push_char seg c) true cs)

open_loop-Keeps :
    (fuel cur : ℕ) (seg : List ℕ) (have : Bool) (path : List ℕ)
    → Keeps (open_loop fuel cur seg have path)
unfolding open_loop
open_loop-Keeps fuel cur seg have [] = search (keeps_rules, enter-Keeps)
open_loop-Keeps fuel cur seg have (c ∷ cs) =
    if-Keeps _ _ _
      (if-Keeps _ _ _
        (bind-Keeps _ _ (enter-Keeps fuel cur seg)
          (option-Keeps _ (search keeps_rules) (λ dir. open_loop-Keeps fuel dir [] false cs)))
        (open_loop-Keeps fuel cur seg false cs))
      (open_loop-Keeps fuel cur (push_char seg c) true cs)

pub open_dir-Keeps : (fuel : ℕ) (path : List ℕ) → Keeps (open_dir fuel path)
unfolding open_dir
open_dir-Keeps fuel path = open_loop-Keeps fuel 0 [] false path

pub resolve_parent-Keeps : (fuel : ℕ) (path : List ℕ) → Keeps (resolve_parent fuel path)
unfolding resolve_parent
resolve_parent-Keeps fuel path = resolve_loop-Keeps fuel 0 [] false path

pub parent-Keeps :
    {B : Type 0} (k : Parent → Run B)
    → Keeps (k bad_path)
    → ((dir : ℕ) (name e : Memory) → Keeps (k (existing dir name e)))
    → ((dir : ℕ) (name : Memory) → Keeps (k (missing dir name)))
    → (p : Parent) → Keeps (k p)
parent-Keeps k hb he hm bad_path = hb
parent-Keeps k hb he hm (existing dir name e) = he dir name e
parent-Keeps k hb he hm (missing dir name) = hm dir name

pub find_file-Keeps : (fuel : ℕ) (path : List ℕ) → Keeps (find_file fuel path)
unfolding find_file
find_file-Keeps fuel path = bind-Keeps _ _ volume-Keeps (λ fs. if-Keeps _ _ _ (pure-Keeps _) (
    bind-Keeps _ _ (resolve_parent-Keeps fuel path) (
      parent-Keeps _ (search keeps_rules) (λ dir name e. search keeps_rules)
        (λ dir name. search keeps_rules))))

load_sectors-Keeps : (lba n s remaining : ℕ) → Keeps (load_sectors lba n s remaining)
unfolding load_sectors
load_sectors-Keeps lba zero s remaining = search keeps_rules
load_sectors-Keeps lba (suc n) s remaining = search (keeps_rules, load_sectors-Keeps lba n) depth 9

load_loop-Keeps : (fuel cluster remaining : ℕ) → Keeps (load_loop fuel cluster remaining)
unfolding load_loop
load_loop-Keeps zero cluster remaining = search keeps_rules
load_loop-Keeps (suc fuel) cluster remaining =
    search (keeps_rules, load_sectors-Keeps, load_loop-Keeps fuel) depth 12

pub load_file-Keeps : (e : Memory) (max_size : ℕ) → Keeps (load_file e max_size)
unfolding load_file
load_file-Keeps e max_size = search (keeps_rules, load_loop-Keeps)

load_sectors_off-Keeps :
    (lba n s remaining skip : ℕ) → Keeps (load_sectors_off lba n s remaining skip)
unfolding load_sectors_off
load_sectors_off-Keeps lba zero s remaining skip = search keeps_rules
load_sectors_off-Keeps lba (suc n) s remaining skip =
    search (keeps_rules, load_sectors_off-Keeps lba n) depth 10

load_loop_off-Keeps :
    (fuel cluster remaining skip : ℕ) → Keeps (load_loop_off fuel cluster remaining skip)
unfolding load_loop_off
load_loop_off-Keeps zero cluster remaining skip = search keeps_rules
load_loop_off-Keeps (suc fuel) cluster remaining skip =
    search (keeps_rules, load_sectors_off-Keeps, load_loop_off-Keeps fuel) depth 12

pub load_file_off-Keeps :
    (e : Memory) (offset max_size : ℕ) → Keeps (load_file_off e offset max_size)
unfolding load_file_off
load_file_off-Keeps e offset max_size = search (keeps_rules, load_loop_off-Keeps)

-- ===== src/Fat/Keeps.antt =====
-- Steps of fs/fat.c that write nothing to the device.
pub mod Paths
use hao_sys.Base.{
  ℕ, zero, suc, ◌≡◌, ◌∙◌, Bool, true, false, some, Memory, if◌then◌else◌, Option-cases, inl, inr,
  Option, none, some, some-eq, ap, sym,
}
use hao_sys.Fat.{Fs}
use hao_sys.Fat.File.Loading.{dev_read-IsSame, read_fat_entry-IsSame}
use hao_sys.Fat.Run.{Run, pure, ◌>>=◌, volume, read_sector, buffer, entry, diverge}
use hao_sys.Fat.Dir.{scan_sectors, read_dir_loop, read_dir, dir_find_name}

pub record Keeps {A : Type 0} (m : Run A) : Type 0 where
  pub kept : (fs : Fs) (a : A) (g : Fs) → m fs ≡ some (a, g) → g.dev ≡ fs.dev

pub pure-Keeps : {A : Type 0} (a : A) → Keeps (pure a)
pure-Keeps a = record { kept = λ fs b g e. ap (λ r. r.1.dev) (some-eq (sym e)) }

pub bind-Keeps :
    {A B : Type 0} (m : Run A) (k : A → Run B) → Keeps m → ((a : A) → Keeps (k a)) → Keeps (m >>= k)
unfolding ◌>>=◌
bind-Keeps m k hm hk = record {
  kept = λ fs b g e. elim (Option-cases (m fs)) [
    | inl ends ↦ absurd (let e' = rw (◌>>=◌, ends) at e in cc)
    | inr ((a, f), step) ↦ (hk a).kept f b g (rw (◌>>=◌, step) at e) ∙ hm.kept fs a f step
  ];
}

pub if-Keeps :
    {A : Type 0} (b : Bool) (x y : Run A) → Keeps x → Keeps y → Keeps (if b then x else y)
if-Keeps true x y hx hy = hx
if-Keeps false x y hx hy = hy

pub option-Keeps :
    {A B : Type 0} (k : Option A → Run B)
    → Keeps (k none)
    → ((a : A) → Keeps (k (some a)))
    → (o : Option A) → Keeps (k o)
option-Keeps k hn hk none = hn
option-Keeps k hn hk (some a) = hk a

pub volume-Keeps : Keeps volume
volume-Keeps = record { kept = λ fs b g e. ap (λ r. r.1.dev) (some-eq (sym e)) }

pub buffer-Keeps : Keeps buffer
buffer-Keeps = record { kept = λ fs b g e. ap (λ r. r.1.dev) (some-eq (sym e)) }

pub read_sector-Keeps : (lba : ℕ) → Keeps (read_sector lba)
read_sector-Keeps lba = record {
  kept = λ fs b g e. ap (λ r. r.1.dev) (some-eq (sym e)) ∙ (dev_read-IsSame fs lba).device;
}

pub entry-Keeps : (c : ℕ) → Keeps (entry c)
entry-Keeps c = record {
  kept = λ fs b g e. ap (λ r. r.1.dev) (some-eq (sym e)) ∙ (read_fat_entry-IsSame fs c).device;
}

pub diverge-Keeps : {A : Type 0} → Keeps (diverge {A = A})
diverge-Keeps = record { kept = λ fs b g e. absurd (cc) }

pub ruleset keeps_rules = (
  pure-Keeps, bind-Keeps, if-Keeps, volume-Keeps, buffer-Keeps, read_sector-Keeps, entry-Keeps,
  diverge-Keeps,
)

scan_sectors-Keeps : (lba n s room : ℕ) → Keeps (scan_sectors lba n s room)
unfolding scan_sectors
scan_sectors-Keeps lba zero s room = search keeps_rules
scan_sectors-Keeps lba (suc n) s room = search (keeps_rules, scan_sectors-Keeps lba n) depth 9

read_dir_loop-Keeps : (fuel cluster room : ℕ) → Keeps (read_dir_loop fuel cluster room)
unfolding read_dir_loop
read_dir_loop-Keeps zero cluster room = diverge-Keeps
read_dir_loop-Keeps (suc fuel) cluster room =
    search (keeps_rules, scan_sectors-Keeps, read_dir_loop-Keeps fuel) depth 12

pub read_dir-Keeps : (fuel c n : ℕ) → Keeps (read_dir fuel c n)
unfolding read_dir
read_dir-Keeps fuel c n = search (keeps_rules, read_dir_loop-Keeps)

pub dir_find_name-Keeps : (fuel c : ℕ) (name : Memory) → Keeps (dir_find_name fuel c name)
unfolding dir_find_name
dir_find_name-Keeps fuel c name = search (keeps_rules, read_dir-Keeps)

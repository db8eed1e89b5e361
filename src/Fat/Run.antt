-- ===== src/Fat/Run.antt =====
-- Steps of fs/fat.c on a volume. `none` is a loop that does not end within its fuel.
use hao_sys.Base.{ℕ, Bool, true, Option, none, some, Memory, ◌≡◌, refl, Option-cases, inl, inr}
use hao_sys.Fat.{Fs, dev_read, dev_write, set_buffer}
use hao_sys.Fat.Table.{read_fat_entry, write_fat_entry}

abbrev pub Run {ℓ} : Type ℓ → Type ℓ
Run A = Fs → Option (A × Fs)

abbrev pub pure {ℓ} : {A : Type ℓ} → A → Run A
pure a fs = some (a, fs)

infixl 10 ◌>>=◌
unfoldable pub ◌>>=◌ {ℓ κ} : {A : Type ℓ} {B : Type κ} → Run A → (A → Run B) → Run B
(m >>= k) fs = elim (m fs) [ none ↦ none | some (a, g) ↦ k a g ]

abbrev pub volume : Run Fs
volume fs = some (fs, fs)

abbrev pub read_sector : ℕ → Run Bool
read_sector lba fs = some (dev_read fs lba)

abbrev pub write_sector : ℕ → Run Bool
write_sector lba fs = some (dev_write fs lba)

abbrev pub buffer : Run Memory
buffer fs = some (fs.sector_buffer, fs)

abbrev pub fill_buffer : Memory → Run Bool
fill_buffer b fs = some (true, set_buffer fs b)

abbrev pub entry : ℕ → Run ℕ
entry c fs = some (read_fat_entry fs c)

abbrev pub put_entry : ℕ → ℕ → Run Bool
put_entry c v fs = some (true, write_fat_entry fs c v)

abbrev pub diverge {ℓ} : {A : Type ℓ} → Run A
diverge fs = none

infixl 10 ◌>>◌
abbrev pub ◌>>◌ {ℓ κ} : {A : Type ℓ} {B : Type κ} → Run A → Run B → Run B
m >> k = m >>= λ a. k

-- Continuations that agree on every result and every volume.
pub bind_cong {ℓ κ} :
    {A : Type ℓ} {B : Type κ} (m : Run A) (k k' : A → Run B) (fs : Fs)
    → ((a : A) (g : Fs) → k a g ≡ k' a g)
    → (m >>= k) fs ≡ (m >>= k') fs
unfolding ◌>>=◌
bind_cong m k k' fs h = elim (Option-cases (m fs)) [
  | inl e ↦ rw (◌>>=◌, e) refl
  | inr ((a, g), e) ↦ rw (◌>>=◌, e) (h a g)
]

-- ===== src/Perm/Laws.antt =====
-- The permission check of syscall/syscall.c on an entry whose mode and owner were set.
use hao_sys.Base.{
  ℕ, ◌+◌, ◌/◌, ◌%◌, ◌^◌, ◌<◌, ◌≡◌, ◌≢◌, refl, ◌∙◌, suc, zero, Bool, true, false, ◌||◌, Option, List,
  [], ◌∷◌, Memory, ◌==◌, if◌then◌else◌, bit_and, arith, Bool-cases, inl, inr, all_below,
  all_below_sound,
}
use hao_sys.Task.{Task}
use hao_sys.Fat.Name.{entry_set_unix_meta, entry_unix_meta-entry_set_unix_meta}
use hao_sys.Perm.{euid_of, egid_of, access_bits, check_entry, set_uid, set_uids}

-- Bit `k` of a mode.
abbrev pub mode_bit : ℕ → ℕ → Bool
mode_bit mode k = mode / 2 ^ k % 2 == 1

one_bit : ℕ → ℕ → Bool
one_bit bits k =
    if bit_and bits (2 ^ k) == 2 ^ k then bits / 2 ^ k % 2 == 1 else bits / 2 ^ k % 2 == 0

bits_table : all_below 8 (λ b. all_below 3 (λ k. one_bit b k)) ≡ true
unfolding all_below one_bit
bits_table = refl

one_bit_lem :
    (bits k : ℕ) → bits < 8 → k < 3 → (bit_and bits (2 ^ k) == 2 ^ k) ≡ (bits / 2 ^ k % 2 == 1)
unfolding one_bit
one_bit_lem bits k hb hk =
    ground (arith, all_below_sound 3 _ k (all_below_sound 8 _ bits bits_table hb) hk)

shifted_6 : (mode k : ℕ) → k < 3 → (mode / 2 ^ 6 % 2 ^ 3 / 2 ^ k % 2 == 1) ≡ mode_bit mode (6 + k)
shifted_6 mode zero h = ground arith
shifted_6 mode (suc zero) h = ground arith
shifted_6 mode (suc (suc zero)) h = ground arith
shifted_6 mode (suc (suc (suc k))) h = absurd (omega arith)

shifted_3 : (mode k : ℕ) → k < 3 → (mode / 2 ^ 3 % 2 ^ 3 / 2 ^ k % 2 == 1) ≡ mode_bit mode (3 + k)
shifted_3 mode zero h = ground arith
shifted_3 mode (suc zero) h = ground arith
shifted_3 mode (suc (suc zero)) h = ground arith
shifted_3 mode (suc (suc (suc k))) h = absurd (omega arith)

shifted_0 : (mode k : ℕ) → k < 3 → (mode / 2 ^ 0 % 2 ^ 3 / 2 ^ k % 2 == 1) ≡ mode_bit mode k
shifted_0 mode zero h = ground arith
shifted_0 mode (suc zero) h = ground arith
shifted_0 mode (suc (suc zero)) h = ground arith
shifted_0 mode (suc (suc (suc k))) h = absurd (omega arith)

-- With the mode and owner that `fat_entry_set_unix_meta` gave the entry, root passes, the owner is
-- judged by the owner's bit alone, a member of the group by the group's, and anyone else by the
-- others'; `k` is 0 to execute, 1 to write, 2 to read.
pub check_entry_lem :
    (t : Option Task) (e : Memory) (mode uid gid k : ℕ)
    → mode < 2 ^ 16
    → uid < 2 ^ 16
    → gid < 2 ^ 16
    → k < 3
    → check_entry t (entry_set_unix_meta e mode uid gid) (2 ^ k) ≡ (
        (euid_of t == 0)
        || (if euid_of t == uid
            then mode_bit mode (6 + k)
            else (if egid_of t == gid then mode_bit mode (3 + k) else mode_bit mode k)))
unfolding check_entry access_bits
check_entry_lem t e mode uid gid k hm hu hg hk =
    let meta = (entry_unix_meta-entry_set_unix_meta e mode uid gid hm hu hg).0 in
    elim (Bool-cases (euid_of t == 0)) [
      | inl root ↦ rw root refl
      | inr user ↦ elim (Bool-cases (euid_of t == uid)) [
        | inl owner ↦
            rw (user, meta, owner)
              (one_bit_lem (mode / 2 ^ 6 % 2 ^ 3) k (omega arith) hk ∙ shifted_6 mode k hk)
        | inr stranger ↦ elim (Bool-cases (egid_of t == gid)) [
          | inl member ↦
              rw (user, meta, stranger, member)
                (one_bit_lem (mode / 2 ^ 3 % 2 ^ 3) k (omega arith) hk ∙ shifted_3 mode k hk)
          | inr other ↦
              rw (user, meta, stranger, other)
                (one_bit_lem (mode / 2 ^ 0 % 2 ^ 3) k (omega arith) hk ∙ shifted_0 mode k hk)
        ]
      ]
    ]

set_uid-user :
    (t : Task) (uid : ℕ)
    → t.uid ≢ 0
    → t.euid ≢ 0
    → ((set_uid t uid).1.euid ≢ 0) × ((set_uid t uid).1.uid ≡ t.uid)
unfolding set_uid
set_uid-user t uid hu he =
    let user : (t.euid == 0) ≡ false = ground arith in
    elim (Bool-cases (uid == t.uid)) [
      | inl own ↦ rw (user, own) (λ q. hu (ground arith), refl)
      | inr other ↦ rw (user, other) (he, refl)
    ]

-- A task whose real and effective user are not root does not become root by any calls of setuid, and
-- keeps its real user.
pub set_uids-user :
    (calls : List ℕ) (t : Task)
    → t.uid ≢ 0
    → t.euid ≢ 0
    → ((set_uids calls t).euid ≢ 0) × ((set_uids calls t).uid ≡ t.uid)
unfolding set_uids
set_uids-user [] t hu he = (he, refl)
set_uids-user (uid ∷ calls) t hu he =
    let (e, u) = set_uid-user t uid hu he in
    let (e', u') = set_uids-user calls (set_uid t uid).1 (λ q. hu (cc)) e in (e', u' ∙ u)

-- ===== src/Msc/Transfer.antt =====
-- Reading and writing a sector in driver/usb_mass_storage.c, on a disk that serves one command in three.
use hao_sys.Base.{
  ℕ, zero, suc, ◌*◌, ◌^◌, ◌<◌, ◌≡◌, refl, sym, ◌∙◌, ap, subst, Bool, true, false, ◌||◌, List, [],
  ◌∷◌, add32, ◌==◌, if◌then◌else◌, arith, ==_refl, Bool-cases, inl, inr,
}
use hao_sys.Msc.{
  Host, Done, command_block, bot_attempts, msc_bot_command, sector_command, usb_msc_read_sector,
  usb_msc_write_sector,
}
use hao_sys.Msc.Scsi.{
  Turn, served, refused, unanswered, Sectors, ScsiDisk, block_address, accepted, filled_by,
  written_by, disk_bus, reliable, IsReady,
}

-- A command that the disk takes whatever its tag, which keeps `Before` and, served, gives `After`.
record IsCommand (cb : List ℕ) (dir : Bool) (size : ℕ) (Before After : List ℕ → Sectors → Type 0)
    : Type 0 where
  is_accepted : (tag : ℕ) → accepted (command_block tag cb dir size) size ≡ true
  keeps :
      (tag : ℕ) (buf : List ℕ) (d : ScsiDisk)
      → Before buf d.sectors
      → Before
          (filled_by (command_block tag cb dir size) buf d)
          (written_by (command_block tag cb dir size) buf d)
  gives :
      (tag : ℕ) (buf : List ℕ) (d : ScsiDisk)
      → Before buf d.sectors
      → After
          (filled_by (command_block tag cb dir size) buf d)
          (written_by (command_block tag cb dir size) buf d)

record HasEnded (After : List ℕ → Sectors → Type 0) (d : Done ScsiDisk) : Type 0 where
  success : d.succeeded ≡ true
  result : After d.buffer d.host.device.sectors
  ready : IsReady d.host

if_present :
    (After : List ℕ → Sectors → Type 0) (b : Bool) (x y : Done ScsiDisk)
    → b ≡ true
    → HasEnded After x
    → HasEnded After (if b then x else y)
if_present After true x y e p = p
if_present After false x y e p = absurd (cc)

module _ {cb : List ℕ} {dir : Bool} {size : ℕ} {Before After : List ℕ → Sectors → Type 0}
    (c : IsCommand cb dir size Before After) (count last : ℕ) where
  abbrev with_turns : ℕ → Sectors → List Turn → Host ScsiDisk
  with_turns tag s ts = record {
    msc_present = true;
    msc_sector_count = count;
    msc_sector_size = size;
    msc_cbw_tag = tag;
    device = record { sectors = s; last_block = last; block_size = size; turns = ts };
  }

  attempts-HasEnded :
      (n tag : ℕ) (s : Sectors) (ts : List Turn) (buf : List ℕ)
      → reliable n ts ≡ true
      → Before buf s
      → HasEnded After (bot_attempts disk_bus (suc n) cb dir size buf (with_turns tag s ts))
  unfolding bot_attempts
  attempts-HasEnded n tag s [] buf r h =
      rw (==_refl tag, c.is_accepted tag)
        (record {
          success = refl;
          result = c.gives tag buf (with_turns tag s []).device h;
          ready = record { present = refl; size = refl; reliable_turns = refl };
        })
  attempts-HasEnded n tag s (served ∷ ts) buf r h =
      rw (==_refl tag, c.is_accepted tag)
        (record {
          success = refl;
          result = c.gives tag buf (with_turns tag s (served ∷ ts)).device h;
          ready = record { present = refl; size = refl; reliable_turns = r };
        })
  attempts-HasEnded zero tag s (refused ∷ ts) buf r h = absurd (cc)
  attempts-HasEnded (suc n) tag s (refused ∷ ts) buf r h =
      attempts-HasEnded n (add32 tag 1) s ts buf r h
  attempts-HasEnded zero tag s (unanswered ∷ ts) buf r h = absurd (cc)
  attempts-HasEnded (suc n) tag s (unanswered ∷ ts) buf r h =
      let sent = command_block tag cb dir size in
      let d = (with_turns tag s (unanswered ∷ ts)).device in
      let k : Before (if accepted sent size then filled_by sent buf d else buf)
          (λ i. if accepted sent size then written_by sent buf d i else s i) =
        rw (c.is_accepted tag) (c.keeps tag buf d h) in
      attempts-HasEnded n (add32 tag 1) _ ts _ r k

-- The block address in a command for one sector is the sector.
big_endian_lem :
    (opcode lba size tag : ℕ) (dir : Bool)
    → lba < 2 ^ 32
    → block_address (command_block tag (sector_command opcode lba) dir size) ≡ lba
big_endian_lem opcode lba size tag dir l = omega arith

one_block : (size : ℕ) → (size == 1 * size) ≡ true
one_block size = ground arith

read-IsCommand :
    (lba size : ℕ) (s : Sectors)
    → lba < 2 ^ 32
    → IsCommand
        (sector_command 0x28 lba)
        true
        size
        (λ buf t. t ≡ s)
        (λ buf t. (buf ≡ s lba) × (t ≡ s))
read-IsCommand lba size s l = record {
  is_accepted = λ tag. ap (λ b. (b || false) || false) (one_block size);
  keeps = λ tag buf d h. h;
  gives = λ tag buf d h.
      (ap d.sectors (big_endian_lem 0x28 lba size tag true l) ∙ ap (λ t. t lba) h, h);
}

-- The sectors `t` after writing `data` over `s`, at the sector and elsewhere.
abbrev pub WrittenAt : ℕ → List ℕ → Sectors → Sectors → Type 0
WrittenAt lba bytes s t = (i : ℕ) → t i ≡ (if i == lba then bytes else s i)

write-IsCommand :
    (lba size : ℕ) (bytes : List ℕ) (s : Sectors)
    → lba < 2 ^ 32
    → IsCommand
        (sector_command 0x2A lba)
        false
        size
        (λ buf t. (buf ≡ bytes) × ((i : ℕ) → (i == lba) ≡ false → t i ≡ s i))
        (λ buf t. (buf ≡ bytes) × WrittenAt lba bytes s t)
write-IsCommand lba size bytes s l = record {
  is_accepted = λ tag. ap (λ b. b || false) (one_block size);
  keeps =
      λ tag buf d h. (h.0, λ i ne. rw (big_endian_lem 0x2A lba size tag false l, ne) (h.1 i ne));
  gives = λ tag buf d h. (
    h.0,
    λ i.
        rw (big_endian_lem 0x2A lba size tag false l)
          (elim (Bool-cases (i == lba)) [ inl e ↦ rw e h.0 | inr e ↦ rw e (h.1 i e) ]),
  );
}

-- What a write of `bytes` and a read after it end in.
abbrev pub ReadsBack : ℕ → ℕ → List ℕ → Sectors → Done ScsiDisk → Done ScsiDisk → Type 0
ReadsBack lba other bytes s w d =
    (w.succeeded ≡ true)
    × (d.succeeded ≡ true)
    × (d.buffer ≡ (if other == lba then bytes else s other))

-- A command of one sector on a disk that is ready.
command-HasEnded :
    {cb : List ℕ} {dir : Bool} {Before After : List ℕ → Sectors → Type 0} (h : Host ScsiDisk)
    (buf : List ℕ)
    → IsReady h
    → IsCommand cb dir h.msc_sector_size Before After
    → Before buf h.device.sectors
    → HasEnded After (msc_bot_command disk_bus cb dir h.msc_sector_size buf h)
unfolding msc_bot_command
command-HasEnded {cb} {dir} {Before} {After} h buf r c b =
    let sized : ℕ → Bool → Host ScsiDisk =
      λ z p. record h { msc_present = p; device = record h.device { block_size = z } } in
    let run : Host ScsiDisk → Type 0 =
      λ g. HasEnded After (msc_bot_command disk_bus cb dir h.msc_sector_size buf g) in
    subst (λ z. run (sized z h.msc_present)) r.size
      (subst (λ p. run (sized h.msc_sector_size p)) (sym r.present)
        (attempts-HasEnded c h.msc_sector_count h.device.last_block 2 h.msc_cbw_tag h.device.sectors
          h.device.turns buf r.reliable_turns b))

read-HasEnded :
    (lba : ℕ) (buf : List ℕ) (h : Host ScsiDisk)
    → lba < 2 ^ 32
    → IsReady h
    → HasEnded
        (λ bytes t. (bytes ≡ h.device.sectors lba) × (t ≡ h.device.sectors))
        (usb_msc_read_sector disk_bus lba buf h)
unfolding usb_msc_read_sector
read-HasEnded lba buf h l r =
    if_present _ h.msc_present _ _ r.present
      (command-HasEnded h buf r (read-IsCommand lba h.msc_sector_size h.device.sectors l) refl)

write-HasEnded :
    (lba : ℕ) (bytes : List ℕ) (h : Host ScsiDisk)
    → lba < 2 ^ 32
    → IsReady h
    → HasEnded
        (λ buf t. (buf ≡ bytes) × WrittenAt lba bytes h.device.sectors t)
        (usb_msc_write_sector disk_bus lba bytes h)
unfolding usb_msc_write_sector
write-HasEnded lba bytes h l r = if_present _ h.msc_present _ _ r.present (
    command-HasEnded h bytes r (write-IsCommand lba h.msc_sector_size bytes h.device.sectors l)
      (refl, λ i ne. refl))

pub read_sector-write_sector :
    (lba other : ℕ) (bytes old : List ℕ) (h : Host ScsiDisk)
    → lba < 2 ^ 32
    → other < 2 ^ 32
    → IsReady h
    → ReadsBack lba other bytes h.device.sectors
        (usb_msc_write_sector disk_bus lba bytes h)
        (usb_msc_read_sector disk_bus other old (usb_msc_write_sector disk_bus lba bytes h).host)
read_sector-write_sector lba other bytes old h l o r =
    let w = write-HasEnded lba bytes h l r in
    let d = read-HasEnded other old (usb_msc_write_sector disk_bus lba bytes h).host o w.ready in
    (w.success, d.success, d.result.0 ∙ w.result.1 other)

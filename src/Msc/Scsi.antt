-- ===== src/Msc/Scsi.antt =====
-- A disk of the SCSI command set behind the bus of driver/usb_mass_storage.c, as the standard describes
-- it: what it does with READ(10), WRITE(10) and READ CAPACITY(10). Each command is served, or refused
-- before anything is done, or served without an answer that arrives.
use hao_sys.Base.{
  ℕ, zero, suc, ◌+◌, ◌*◌, ◌/◌, ◌%◌, ◌^◌, Bool, true, false, ◌&&◌, ◌||◌, List, [], ◌∷◌, ◌==◌,
  if◌then◌else◌, get_or, ◌≡◌,
}
use hao_sys.Msc.{Cbw, Csw, Reply, Bus, Host, big_endian}

pub data Turn : Type 0 where
  served : Turn
  refused : Turn
  unanswered : Turn

abbrev pub Sectors : Type 0
Sectors = ℕ → List ℕ

pub record ScsiDisk : Type 0 where
  pub sectors : Sectors
  pub last_block : ℕ
  pub block_size : ℕ
  pub turns : List Turn

abbrev pub next_turn : List Turn → Turn
next_turn [] = served
next_turn (t ∷ ts) = t

abbrev pub later_turns : List Turn → List Turn
later_turns [] = []
later_turns (t ∷ ts) = ts

abbrev pub big_endian_bytes : ℕ → List ℕ → List ℕ
big_endian_bytes n rest =
    n / 2 ^ 24 % 2 ^ 8 ∷ n / 2 ^ 16 % 2 ^ 8 ∷ n / 2 ^ 8 % 2 ^ 8 ∷ n % 2 ^ 8 ∷ rest

abbrev pub opcode : Cbw → ℕ
opcode c = get_or c.cb 0 0

abbrev pub block_address : Cbw → ℕ
block_address c = big_endian c.cb 2

abbrev pub block_count : Cbw → ℕ
block_count c = get_or c.cb 7 0 * 2 ^ 8 + get_or c.cb 8 0

-- A wrapper that the disk takes: its signature, the direction and the bytes of the data phase agree
-- with the command.
abbrev pub accepted : Cbw → ℕ → Bool
accepted c size =
    (c.cbw_signature == 0x43425355)
    && (c.cb_length == 10)
    && ((opcode c == 0x28) && (c.flags == 0x80) && (c.transfer_length == block_count c * size)
        || (opcode c == 0x2A) && (c.flags == 0) && (c.transfer_length == block_count c * size)
        || (opcode c == 0x25) && (c.flags == 0x80) && (c.transfer_length == 8))

-- The data buffer and the sectors after a command that the disk takes.
abbrev pub filled_by : Cbw → List ℕ → ScsiDisk → List ℕ
filled_by c buf d =
    if opcode c == 0x28
    then d.sectors (block_address c)
    else if opcode c == 0x25
    then big_endian_bytes d.last_block (big_endian_bytes d.block_size [])
    else buf

abbrev pub written_by : Cbw → List ℕ → ScsiDisk → Sectors
written_by c buf d i = if (opcode c == 0x2A) && (i == block_address c) then buf else d.sectors i

abbrev pub no_answer : Csw
no_answer = record { csw_signature = 0; csw_tag = 0; residue = 0; status = 0 }

abbrev pub answer : ℕ → ℕ → Csw
answer tag status = record {
  csw_signature = 0x53425355;
  csw_tag = tag;
  residue = 0;
  status = status;
}

abbrev pub disk_reply : Cbw → List ℕ → ScsiDisk → Reply
disk_reply c buf d =
    let filled = if accepted c d.block_size then filled_by c buf d else buf in
    elim (next_turn d.turns) [
      | served ↦ record {
        went_through = true;
        csw = answer c.tag (if accepted c d.block_size then 0 else 1);
        filled = filled;
      }
      | refused ↦ record { went_through = false; csw = no_answer; filled = buf }
      | unanswered ↦ record { went_through = true; csw = no_answer; filled = filled }
    ]

abbrev pub disk_after : Cbw → List ℕ → ScsiDisk → ScsiDisk
disk_after c buf d =
    let later : ScsiDisk = record d { turns = later_turns d.turns } in
    let performed : ScsiDisk = record later {
      sectors = λ i. if accepted c d.block_size then written_by c buf d i else d.sectors i;
    } in
    elim (next_turn d.turns) [ served ↦ performed | refused ↦ later | unanswered ↦ performed ]

abbrev pub disk_bus : Bus ScsiDisk
disk_bus = record { bulk = disk_reply; after_bulk = disk_after; after_reset = λ d. d }

-- Of `n + 1` commands from here one is served, and of any three after that.
abbrev pub reliable : ℕ → List Turn → Bool
reliable n [] = true
reliable n (served ∷ ts) = reliable 2 ts
reliable zero (refused ∷ ts) = false
reliable zero (unanswered ∷ ts) = false
reliable (suc n) (refused ∷ ts) = reliable n ts
reliable (suc n) (unanswered ∷ ts) = reliable n ts

-- A driver that has found the disk and knows its sector size.
pub record IsReady (h : Host ScsiDisk) : Type 0 where
  pub present : h.msc_present ≡ true
  pub size : h.msc_sector_size ≡ h.device.block_size
  pub reliable_turns : reliable 2 h.device.turns ≡ true

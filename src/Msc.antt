-- ===== src/Msc.antt =====
-- driver/usb_mass_storage.c: sectors of a USB disk by Bulk-Only Transport. `Bus` is what the host
-- controller does with the three phases of a command, and `csw` of its reply is what the status
-- buffer holds when polling ends. A buffer of the caller is the list of its bytes. The search for a
-- device and its endpoints is not modelled.
pub mod Scsi
pub mod Transfer
mod Tests
use hao_sys.Base.{
  ℕ, zero, suc, ◌+◌, ◌-◌, ◌*◌, ◌/◌, ◌%◌, ◌^◌, Bool, true, false, ◌&&◌, List, [], ◌∷◌, ◌++◌, add32,
  ◌==◌, if◌then◌else◌, length, get_or, replicate,
}

-- The command block wrapper and the status wrapper.
pub record Cbw : Type 0 where
  pub cbw_signature : ℕ
  pub tag : ℕ
  pub transfer_length : ℕ
  pub flags : ℕ
  pub lun : ℕ
  pub cb_length : ℕ
  pub cb : List ℕ

pub record Csw : Type 0 where
  pub csw_signature : ℕ
  pub csw_tag : ℕ
  pub residue : ℕ
  pub status : ℕ

-- Whether the transfer went through, the status, and the data buffer after it.
pub record Reply : Type 0 where
  pub went_through : Bool
  pub csw : Csw
  pub filled : List ℕ

-- usb_bulk_bot and the requests of msc_bot_reset.
pub record Bus (D : Type 0) : Type 0 where
  pub bulk : Cbw → List ℕ → D → Reply
  pub after_bulk : Cbw → List ℕ → D → D
  pub after_reset : D → D

pub record Host (D : Type 0) : Type 0 where
  pub msc_present : Bool
  pub msc_sector_count : ℕ
  pub msc_sector_size : ℕ
  pub msc_cbw_tag : ℕ
  pub device : D

-- What a command gives: its result, 0 or -1, the caller's buffer and the state.
pub record Done (D : Type 0) : Type 0 where
  pub succeeded : Bool
  pub buffer : List ℕ
  pub host : Host D

-- `cb` in the 16 bytes that are zero before.
abbrev pub command_block : ℕ → List ℕ → Bool → ℕ → Cbw
command_block sent cb dir len = record {
  cbw_signature = 0x43425355;
  tag = sent;
  transfer_length = len;
  flags = if dir then 0x80 else 0;
  lun = 0;
  cb_length = length cb;
  cb = cb ++ replicate (16 - length cb) 0;
}

abbrev pub answers : ℕ → Csw → Bool
answers sent s = (s.csw_signature == 0x53425355) && (s.csw_tag == sent)

-- Four bytes, the highest first.
abbrev pub big_endian : List ℕ → ℕ → ℕ
big_endian bytes i =
    get_or bytes i 0 * 2 ^ 24
    + get_or bytes (i + 1) 0 * 2 ^ 16
    + get_or bytes (i + 2) 0 * 2 ^ 8
    + get_or bytes (i + 3) 0

-- READ(10) and WRITE(10) of one sector.
abbrev pub sector_command : ℕ → ℕ → List ℕ
sector_command opcode lba =
    opcode
    ∷ 0
    ∷ lba / 2 ^ 24 % 2 ^ 8
    ∷ lba / 2 ^ 16 % 2 ^ 8
    ∷ lba / 2 ^ 8 % 2 ^ 8
    ∷ lba % 2 ^ 8
    ∷ 0
    ∷ 0
    ∷ 1
    ∷ 0
    ∷ []

module _ {D : Type 0} (bus : Bus D) where
  -- The attempts that are left; after one that gets no answer to its own tag the device is reset.
  unfoldable pub bot_attempts : ℕ → List ℕ → Bool → ℕ → List ℕ → Host D → Done D
  bot_attempts zero cb dir len buf h = record { succeeded = false; buffer = buf; host = h }
  bot_attempts (suc n) cb dir len buf h =
      let sent = command_block h.msc_cbw_tag cb dir len in
      let reply = bus.bulk sent buf h.device in
      let tagged : Host D = record h {
        msc_cbw_tag = add32 h.msc_cbw_tag 1;
        device = bus.after_bulk sent buf h.device;
      } in
      let rest =
        bot_attempts n cb dir len reply.filled
          (record tagged { device = bus.after_reset tagged.device }) in
      if reply.went_through && answers h.msc_cbw_tag reply.csw
      then record { succeeded = reply.csw.status == 0; buffer = reply.filled; host = tagged }
      else rest

  unfoldable pub msc_bot_command : List ℕ → Bool → ℕ → List ℕ → Host D → Done D
  msc_bot_command cb dir len buf h =
      if h.msc_present
      then bot_attempts 3 cb dir len buf h
      else record { succeeded = false; buffer = buf; host = h }

  unfoldable pub msc_test_unit_ready : Host D → Done D
  msc_test_unit_ready h = msc_bot_command (replicate 6 0) false 0 [] h

  unfoldable pub msc_inquiry : Host D → Done D
  msc_inquiry h = msc_bot_command (0x12 ∷ 0 ∷ 0 ∷ 0 ∷ 36 ∷ 0 ∷ []) true 36 (replicate 36 0) h

  unfoldable pub msc_read_capacity : Host D → Done D
  msc_read_capacity h =
      let d = msc_bot_command (0x25 ∷ replicate 9 0) true 8 (replicate 8 0) h in
      if d.succeeded
      then record d {
        host = record d.host {
          msc_sector_count = add32 (big_endian d.buffer 0) 1;
          msc_sector_size = big_endian d.buffer 4;
        };
      }
      else d

  unfoldable pub usb_msc_read_sector : ℕ → List ℕ → Host D → Done D
  usb_msc_read_sector lba buf h =
      if h.msc_present
      then msc_bot_command (sector_command 0x28 lba) true h.msc_sector_size buf h
      else record { succeeded = false; buffer = buf; host = h }

  unfoldable pub usb_msc_write_sector : ℕ → List ℕ → Host D → Done D
  usb_msc_write_sector lba buf h =
      if h.msc_present
      then msc_bot_command (sector_command 0x2A lba) false h.msc_sector_size buf h
      else record { succeeded = false; buffer = buf; host = h }

  abbrev pub usb_msc_get_sector_count : Host D → ℕ
  usb_msc_get_sector_count h = if h.msc_present then h.msc_sector_count else 0

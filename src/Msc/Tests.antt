-- ===== src/Msc/Tests.antt =====
-- A disk of 100 blocks of 4 bytes, which refuses the first command, and does not answer the second.
use hao_sys.Base.{◌≡◌, refl, true, [], ◌∷◌, arith}
use hao_sys.Msc.{
  Host, usb_msc_read_sector, usb_msc_write_sector, msc_read_capacity, msc_bot_command, bot_attempts,
}
use hao_sys.Msc.Scsi.{ScsiDisk, refused, unanswered, served, disk_bus}
use hao_sys.Msc.Transfer.{ReadsBack, read_sector-write_sector}

abbrev faulty : Host ScsiDisk
faulty = record {
  msc_present = true;
  msc_sector_count = 0;
  msc_sector_size = 4;
  msc_cbw_tag = 1;
  device = record {
    sectors = λ i. i ∷ 0 ∷ 0 ∷ 0 ∷ [];
    last_block = 99;
    block_size = 4;
    turns = refused ∷ unanswered ∷ served ∷ refused ∷ [];
  };
}

-- The capacity is read at the third attempt.
capacity_runs :
    ((msc_read_capacity disk_bus faulty).host.msc_sector_count ≡ 100)
    × ((msc_read_capacity disk_bus faulty).host.msc_sector_size ≡ 4)
    × ((msc_read_capacity disk_bus faulty).host.msc_cbw_tag ≡ 4)
unfolding msc_read_capacity msc_bot_command bot_attempts
capacity_runs = (refl, refl, refl)

read_sector-write_sector_example :
    ReadsBack 7 7
      (1 ∷ 2 ∷ 3 ∷ 4 ∷ [])
      faulty.device.sectors
      (usb_msc_write_sector disk_bus 7 (1 ∷ 2 ∷ 3 ∷ 4 ∷ []) faulty)
      (usb_msc_read_sector disk_bus 7 []
        (usb_msc_write_sector disk_bus 7 (1 ∷ 2 ∷ 3 ∷ 4 ∷ []) faulty).host)
read_sector-write_sector_example =
    read_sector-write_sector 7 7 (1 ∷ 2 ∷ 3 ∷ 4 ∷ []) [] faulty (omega arith) (omega arith)
      (record { present = refl; size = refl; reliable_turns = refl })

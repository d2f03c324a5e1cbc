-- ===== src/Ata/Device.antt =====
-- Finding the drive: `ata_identify_drive` and `ata_create_block_device` of src/drivers/disk/ata.c.
use dvivon_os.Ata.{
  err_timeout, err_fault, err_none, sector_words, read_words, wait_irq, prepare_irq,
  identify_command, control_port, lba_mid_port, sector_count_port, lba_high_port, lba_low_port,
  outb, select_drive, command_port, wait_ready, AtaError, inb, Ata, Bus,
}
use dvivon_os.Base.{none, some, false, ◌||◌, ◌==◌, not, if◌then◌else◌, Bool, Option, ℕ}
use dvivon_os.BlockDevice.{register, Slots, BlockDevice}
use dvivon_os.Base.Buf.{update}

module _ {S : Type 0} (b : Bus S) where
  module _ (fuel : ℕ) where
    -- `ata_identify_drive(drive, buffer + p)`
    identify_drive : (drive p : ℕ) → (ℕ → ℕ) → Ata S → Option (AtaError × (ℕ → ℕ) × Ata S)
    identify_drive drive p buf a =
        let (ready, a₁) = wait_ready b 1000 (select_drive b drive a) in
        let cleared =
          outb b lba_high_port 0
            (outb b lba_mid_port 0 (outb b lba_low_port 0 (outb b sector_count_port 0 a₁))) in
        let (status, a₂) =
          inb b control_port (outb b command_port identify_command (prepare_irq b cleared)) in
        let rest : Option (AtaError × (ℕ → ℕ) × Ata S) = elim (wait_irq b fuel a₂) [
          | none ↦ none
          | some a₃ ↦
              let (buf', a₄) = read_words b sector_words p buf a₃ in some (err_none, buf', a₄)
        ] in
        elim ready [
          | err_none ↦ if status == 0 then some (err_fault, buf, a₂) else rest
          | _ ↦ some (err_timeout, buf, a₁)
        ]

  -- `ata_drive_exists`
  drive_exists : Ata S → Bool × Ata S
  drive_exists a =
      let (status, a₁) = inb b command_port (select_drive b 0 a) in
      let probed = outb b lba_low_port 0xaa (outb b sector_count_port 0x55 a₁) in
      let (count, a₂) = inb b sector_count_port probed in
      let (low, a₃) = inb b lba_low_port a₂ in
      if status == 0 || status == 0xff
      then (false, a₁)
      else if not (count == 0x55)
      then (false, a₂)
      else (low == 0xaa, a₃)

  -- `ata_create_block_device`: `dev` and `ops` are the addresses of `ata_block_dev` and
  -- `ata_blk_ops`, and `device` holds the fields of each device that the registry reads.
  create_block_device : (dev ops : ℕ) → (ℕ → BlockDevice) → Slots → Ata S → ℕ × Slots × Ata S
  create_block_device dev ops device slots a =
      let (there, a') = drive_exists a in
      let filled = update device dev (record { major = 3; minor = 0; ops = ops }) in
      let (rc, slots') = register filled dev slots in
      if not there then (0, slots, a') else (if rc == 0 then dev else 0, slots', a')

-- ===== src/Ata/Write.antt =====
-- Writing: `ata_write_sectors` of src/drivers/disk/ata.c and the operations of the block device.
use dvivon_os.Ata.{
  is_drq, chunk_of, err_fault, setup_lba, is_error, prepare_irq, write_command, command_port,
  data_port, err_none, err_unknown, outb, sector_words, inb, outw, select_drive, wait_irq,
  err_timeout, sectors_per_block, wait_ready, AtaError, Ata, Bus,
}
use dvivon_os.Base.{◌-◌, none, zero, ◌^◌, ◌%◌, ◌*◌, ◌==◌, if◌then◌else◌, some, ◌+◌, Option, suc, ℕ}

module _ {S : Type 0} (b : Bus S) where
  -- `ata_poll_drq`, with the rounds of its loop that are left.
  poll_drq : ℕ → Ata S → AtaError × Ata S
  poll_drq zero a = (err_timeout, a)
  poll_drq (suc n) a =
      let (status, a') = inb b command_port a in
      let rest = poll_drq n a' in
      if is_error status then (err_fault, a') else if is_drq status then (err_none, a') else rest

  write_words : (n p : ℕ) → (ℕ → ℕ) → Ata S → Ata S
  write_words zero p buf a = a
  write_words (suc n) p buf a = write_words n (p + 1) buf (outw b data_port (buf p) a)

  module _ (fuel : ℕ) where
    write_chunk : (n p : ℕ) → (ℕ → ℕ) → Ata S → Option (Ata S)
    write_chunk zero p buf a = some a
    write_chunk (suc n) p buf a =
        elim (wait_irq b fuel (write_words sector_words p buf (prepare_irq b a))) [
          | none ↦ none
          | some a' ↦ write_chunk n (p + sector_words) buf a'
        ]

    -- One round of the loop of `ata_write_sectors`.
    write_round : (lba chunk p : ℕ) → (ℕ → ℕ) → Ata S → Option (AtaError × Ata S)
    write_round lba chunk p buf a =
        let (ready, a₁) = wait_ready b 1000 (select_drive b 0 a) in
        let (drq, a₂) =
          poll_drq 30000 (outb b command_port write_command (setup_lba b lba (chunk % 2 ^ 8) a₁)) in
        let sent : Option (AtaError × Ata S) = elim (write_chunk chunk p buf a₂) [
          | none ↦ none
          | some a₃ ↦ some (err_none, a₃)
        ] in
        let polled : Option (AtaError × Ata S) = elim drq [ err_none ↦ sent | e ↦ some (e, a₂) ] in
        elim ready [ err_none ↦ polled | _ ↦ some (err_timeout, a₁) ]

    write_loop : (rounds lba count p : ℕ) → (ℕ → ℕ) → Ata S → Option (AtaError × Ata S)
    write_loop zero lba count p buf a = if count == 0 then some (err_none, a) else none
    write_loop (suc rounds) lba count p buf a =
        let chunk = chunk_of count in
        let rest : Option (AtaError × Ata S) = elim (write_round lba chunk p buf a) [
          | none ↦ none
          | some (err_none, a') ↦
              write_loop rounds ((lba + chunk) % 2 ^ 32) (count - chunk) (p + chunk * sector_words)
                buf a'
          | some failed ↦ some failed
        ] in
        if count == 0 then some (err_none, a) else rest

    write_sectors : (lba count p : ℕ) → (ℕ → ℕ) → Ata S → Option (AtaError × Ata S)
    write_sectors lba count p buf a =
        if count == 0 then some (err_unknown, a) else write_loop count lba count p buf a

    blk_write_blocks : (block_size start count p : ℕ) → (ℕ → ℕ) → Ata S → Option (AtaError × Ata S)
    blk_write_blocks block_size start count p buf a =
        let n = sectors_per_block block_size in
        write_sectors (start * n % 2 ^ 32) (count * n % 2 ^ 32) p buf a

    blk_write_block : (block_size block p : ℕ) → (ℕ → ℕ) → Ata S → Option (AtaError × Ata S)
    blk_write_block block_size block p buf a =
        let n = sectors_per_block block_size in write_sectors (block * n % 2 ^ 32) n p buf a

-- ===== src/Ata.antt =====
-- src/drivers/disk/ata.c: the driver of the disk, on 16-bit words and ports.
-- The ports and the processor are a parameter. `none` means that the driver waits for an interrupt
-- longer than the fuel; the time is not bounded in the code.
pub mod Disk
mod Write
mod Device
pub mod Runs
pub mod Sector
pub mod Read
mod Ram
mod Tests
use dvivon_os.Base.{
  ◌-◌, none, ◌&&◌, ltb, not, some, zero, ◌+◌, ◌==◌, ◌^◌, Option, bit_or, if◌then◌else◌, suc, true,
  ◌%◌, ◌*◌, ◌/◌, Bool, false, ℕ,
}
use dvivon_os.Base.Buf.{update}
use dvivon_os.Base.Bits.{bit}

-- Whether an interrupt of one of the two channels is taken now.
pub data Line : Type 0 where
  quiet primary secondary : Line

-- The instructions for ports, `hlt`, and the interrupt that is taken behind an instruction.
pub record Bus (S : Type 0) : Type 0 where
  pub outb : ℕ → ℕ → S → S
  pub inb : ℕ → S → ℕ × S
  pub outw : ℕ → ℕ → S → S
  pub inw : ℕ → S → ℕ × S
  pub io_wait : S → S
  pub hlt : S → S
  pub irq : S → Line × S

-- `ata_irq_fired`, and what stands behind the ports.
pub record Ata (S : Type 0) : Type 0 where
  pub fired : Bool
  pub bus : S

-- The codes `ATA_ERROR_…`.
pub data AtaError : Type 0 where
  err_none err_busy err_timeout err_fault err_not_ready err_unknown : AtaError

abbrev pub data_port : ℕ
data_port = 0x1f0

abbrev pub sector_count_port : ℕ
sector_count_port = 0x1f2

abbrev pub lba_low_port : ℕ
lba_low_port = 0x1f3

abbrev pub lba_mid_port : ℕ
lba_mid_port = 0x1f4

abbrev pub lba_high_port : ℕ
lba_high_port = 0x1f5

abbrev pub drive_select_port : ℕ
drive_select_port = 0x1f6

-- `ATA_COMMAND_PORT` and `ATA_STATUS_PORT`
abbrev pub command_port : ℕ
command_port = 0x1f7

abbrev pub control_port : ℕ
control_port = 0x3f6

abbrev pub read_command : ℕ
read_command = 0x20

abbrev pub write_command : ℕ
write_command = 0x30

abbrev pub identify_command : ℕ
identify_command = 0xec

-- The bits `ATA_STATUS_ERROR`, `DRQ`, `READY` and `BUSY` of the status.
abbrev pub is_error : ℕ → Bool
is_error status = bit status 0

abbrev pub is_drq : ℕ → Bool
is_drq status = bit status 3

abbrev pub is_ready : ℕ → Bool
is_ready status = bit status 6

abbrev pub is_busy : ℕ → Bool
is_busy status = bit status 7

abbrev pub sector_words : ℕ
sector_words = 256

abbrev pub sector_size : ℕ
sector_size = 512

abbrev pub max_sectors_per_cmd : ℕ
max_sectors_per_cmd = 255

abbrev pub chunk_of : ℕ → ℕ
chunk_of count = if ltb max_sectors_per_cmd count then max_sectors_per_cmd else count

-- The operations of the block device: a block is `block_size / 512` sectors.
abbrev pub sectors_per_block : ℕ → ℕ
sectors_per_block block_size = block_size / sector_size

module _ {S : Type 0} (b : Bus S) where
  -- `ata_primary_irq_handler` and `ata_secondary_irq_handler` read the status of their channel.
  pub handle : Line → S → Bool → Ata S
  handle quiet s fired = record { fired = fired; bus = s }
  handle primary s fired = record { fired = true; bus = (b.inb command_port s).1 }
  handle secondary s fired = record { fired = true; bus = (b.inb 0x177 s).1 }

  -- The interrupt that may be taken behind an instruction.
  pub settle : S → Bool → Ata S
  unfolding handle
  settle s fired = let (line, s') = b.irq s in handle line s' fired

  pub outb : ℕ → ℕ → Ata S → Ata S
  unfolding settle
  outb port v a = settle (b.outb port v a.bus) a.fired

  pub inb : ℕ → Ata S → ℕ × Ata S
  unfolding settle
  inb port a = let (v, s) = b.inb port a.bus in (v, settle s a.fired)

  pub outw : ℕ → ℕ → Ata S → Ata S
  unfolding settle
  outw port v a = settle (b.outw port v a.bus) a.fired

  pub inw : ℕ → Ata S → ℕ × Ata S
  unfolding settle
  inw port a = let (v, s) = b.inw port a.bus in (v, settle s a.fired)

  pub setup_lba : (lba count : ℕ) → Ata S → Ata S
  unfolding outb
  setup_lba lba count a = outb drive_select_port (bit_or 0xe0 (lba / 2 ^ 24 % 16)) (
      outb lba_high_port (lba / 2 ^ 16 % 256) (
        outb lba_mid_port (lba / 2 ^ 8 % 256)
          (outb lba_low_port (lba % 256) (outb sector_count_port count a))))

  -- `ata_wait_ready`, with the rounds of its loop that are left.
  pub wait_ready_for : ℕ → Ata S → AtaError × Ata S
  wait_ready_for zero a = (err_timeout, a)
  wait_ready_for (suc n) a =
      let (status, a') = inb command_port a in
      let rest = wait_ready_for n a' in
      if is_error status
      then (err_fault, a')
      else if not (is_busy status) && is_ready status
      then (err_none, a')
      else rest

  pub wait_ready : (timeout_ms : ℕ) → Ata S → AtaError × Ata S
  wait_ready timeout_ms a = wait_ready_for (timeout_ms * 1000) a

  -- `ata_read_pio_data(buffer + p)`: the n words that are left of a sector.
  pub read_words : (n p : ℕ) → (ℕ → ℕ) → Ata S → (ℕ → ℕ) × Ata S
  read_words zero p buf a = (buf, a)
  read_words (suc n) p buf a =
      let (v, a') = inw data_port a in read_words n (p + 1) (update buf p v) a'

  pub prepare_irq : Ata S → Ata S
  prepare_irq a = record a { fired = false }

  -- `ata_wait_irq`
  pub wait_irq : (fuel : ℕ) → Ata S → Option (Ata S)
  unfolding settle
  wait_irq zero a = if a.fired then some a else none
  wait_irq (suc fuel) a =
      let rest = wait_irq fuel (settle (b.hlt a.bus) a.fired) in if a.fired then some a else rest

  pub select_drive : ℕ → Ata S → Ata S
  unfolding settle outb
  select_drive drive a =
      let a' = outb drive_select_port (if drive == 0 then 0xa0 else 0xb0) a in
      settle (b.io_wait a'.bus) a'.fired

  -- What `ata_read_sectors` does up to the first sector of a chunk.
  pub start_read : (lba chunk : ℕ) → Ata S → Ata S
  unfolding setup_lba prepare_irq outb
  start_read lba chunk a =
      outb command_port read_command (prepare_irq (setup_lba lba (chunk % 2 ^ 8) a))

  module _ (fuel : ℕ) where
    -- The loop over the n sectors of a chunk that are left, when reading; the flag is cleared again
    -- but after the last.
    pub read_chunk : (n p : ℕ) → (ℕ → ℕ) → Ata S → Option ((ℕ → ℕ) × Ata S)
    read_chunk zero p buf a = some (buf, a)
    read_chunk (suc n) p buf a = elim (wait_irq fuel a) [
      | none ↦ none
      | some a₁ ↦
          let (buf', a₂) = read_words sector_words p buf a₁ in
          read_chunk n (p + sector_words) buf' (if n == 0 then a₂ else prepare_irq a₂)
    ]

    -- One round of the loop of `ata_read_sectors`.
    pub read_round : (lba chunk p : ℕ) → (ℕ → ℕ) → Ata S → Option (AtaError × (ℕ → ℕ) × Ata S)
    read_round lba chunk p buf a =
        let (ready, a₁) = wait_ready 1000 (select_drive 0 a) in
        elim ready [
          | err_none ↦ elim (read_chunk chunk p buf (start_read lba chunk a₁)) [
            | none ↦ none
            | some (buf', a₂) ↦ some (err_none, buf', a₂)
          ]
          | _ ↦ some (err_timeout, buf, a₁)
        ]

    -- The loop; `rounds` is fuel for the chunks.
    pub read_loop : (rounds lba count p : ℕ) → (ℕ → ℕ) → Ata S → Option (AtaError × (ℕ → ℕ) × Ata S)
    read_loop zero lba count p buf a = if count == 0 then some (err_none, buf, a) else none
    read_loop (suc rounds) lba count p buf a =
        let chunk = chunk_of count in
        let rest : Option (AtaError × (ℕ → ℕ) × Ata S) = elim (read_round lba chunk p buf a) [
          | none ↦ none
          | some (err_none, buf', a') ↦
              read_loop rounds ((lba + chunk) % 2 ^ 32) (count - chunk) (p + chunk * sector_words)
                buf' a'
          | some failed ↦ some failed
        ] in
        if count == 0 then some (err_none, buf, a) else rest

    pub read_sectors : (lba count p : ℕ) → (ℕ → ℕ) → Ata S → Option (AtaError × (ℕ → ℕ) × Ata S)
    read_sectors lba count p buf a =
        if count == 0 then some (err_unknown, buf, a) else read_loop count lba count p buf a

    pub blk_read_blocks :
        (block_size start count p : ℕ) → (ℕ → ℕ) → Ata S → Option (AtaError × (ℕ → ℕ) × Ata S)
    blk_read_blocks block_size start count p buf a =
        let n = sectors_per_block block_size in
        read_sectors (start * n % 2 ^ 32) (count * n % 2 ^ 32) p buf a

    pub blk_read_block :
        (block_size block p : ℕ) → (ℕ → ℕ) → Ata S → Option (AtaError × (ℕ → ℕ) × Ata S)
    blk_read_block block_size block p buf a =
        let n = sectors_per_block block_size in read_sectors (block * n % 2 ^ 32) n p buf a

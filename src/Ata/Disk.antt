-- ===== src/Ata/Disk.antt =====
-- What src/drivers/disk/ata.c relies on when it reads: the behaviour of a disk that the ATA standard
-- documents for READ SECTORS, on a controller that is idle at first, and one property of its speed that
-- the standard does not promise, the law `late`.
use dvivon_os.Base.{true, ◌%◌, ◌<◌, ◌*◌, false, suc, ◌^◌, ◌+◌, ◌≡◌, ◌⊎◌, ℕ}
use dvivon_os.Ata.{quiet, is_ready, is_busy, primary, is_error, Bus}

-- What the registers hold: sector count, the three bytes of the address, and drive and head.
pub record Registers : Type 0 where
  pub count : ℕ
  pub low : ℕ
  pub mid : ℕ
  pub high : ℕ
  pub drive : ℕ

-- The sector that the registers address: 28 bits, the upper four in the drive register.
abbrev pub address : Registers → ℕ
address r = r.low + 2 ^ 8 * r.mid + 2 ^ 16 * r.high + 2 ^ 24 * (r.drive % 16)

-- Where a disk is in a command: idle; having sent a sector and going on to the next one; busy with a
-- sector whose interrupt may come, with n sectors still to send behind it; having raised the
-- interrupt; and sending word k of the sector. A busy disk interrupts before the processor has been
-- woken from a halt by other interrupts more than k times.
pub data Phase : Type 0 where
  idle : Registers → Phase
  fetching : (lba n : ℕ) → Phase
  busy : (lba n k : ℕ) → Phase
  raised : (lba n : ℕ) → Phase
  sending : (lba k n : ℕ) → Phase

-- The words of each sector.
abbrev pub Image : Type 0
Image = ℕ → ℕ → ℕ

-- A status that is neither an error nor busy, and ready.
abbrev pub IsIdleStatus : ℕ → Type 0
IsIdleStatus v = (is_error v ≡ false) × (is_busy v ≡ false) × (is_ready v ≡ true)

-- `At p s` says that the disk behind the ports in the state s is in the phase p. The interrupt of a
-- sector is taken behind the command or later, while the driver halts the processor at the latest, which
-- other interrupts wake at most `limit` times before. `late` says
-- that a disk with more sectors to send does not interrupt directly behind the last word of one, so
-- that the driver has cleared its flag by then.
pub record IsDisk {S : Type 0} (b : Bus S) (image : Image) : Type 1 where
  pub limit : ℕ
  pub At : Phase → S → Type 0
  pub select :
      (r : Registers) (v : ℕ) (s : S)
      → At (idle r) s
      → At (idle (record r { drive = v })) (b.outb 0x1f6 v s)
  pub set_count :
      (r : Registers) (v : ℕ) (s : S)
      → At (idle r) s
      → At (idle (record r { count = v })) (b.outb 0x1f2 v s)
  pub set_low :
      (r : Registers) (v : ℕ) (s : S)
      → At (idle r) s
      → At (idle (record r { low = v })) (b.outb 0x1f3 v s)
  pub set_mid :
      (r : Registers) (v : ℕ) (s : S)
      → At (idle r) s
      → At (idle (record r { mid = v })) (b.outb 0x1f4 v s)
  pub set_high :
      (r : Registers) (v : ℕ) (s : S)
      → At (idle r) s
      → At (idle (record r { high = v })) (b.outb 0x1f5 v s)
  pub waits : (r : Registers) (s : S) → At (idle r) s → At (idle r) (b.io_wait s)
  pub status :
      (r : Registers) (s : S)
      → At (idle r) s
      → IsIdleStatus (b.inb 0x1f7 s).0 × At (idle r) (b.inb 0x1f7 s).1
  pub command :
      (r : Registers) (n : ℕ) (s : S)
      → r.count ≡ suc n
      → At (idle r) s
      → At (busy (address r) n limit) (b.outb 0x1f7 0x20 s)
  pub halts : (lba n k : ℕ) (s : S) → At (busy lba n (suc k)) s → At (busy lba n k) (b.hlt s)
  pub halts_last : (lba n : ℕ) (s : S) → At (busy lba n 0) s → At (raised lba n) (b.hlt s)
  pub early :
      (lba n k : ℕ) (s : S)
      → At (busy lba n k) s
      → (((b.irq s).0 ≡ quiet) × At (busy lba n k) (b.irq s).1)
        ⊎ (((b.irq s).0 ≡ primary) × At (raised lba n) (b.irq s).1)
  pub interrupt :
      (lba n : ℕ) (s : S)
      → At (raised lba n) s
      → ((b.irq s).0 ≡ primary) × At (raised lba n) (b.irq s).1
  pub acknowledge :
      (lba n : ℕ) (s : S) → At (raised lba n) s → At (sending lba 0 n) (b.inb 0x1f7 s).1
  pub word :
      (lba k n : ℕ) (s : S)
      → k < 255
      → At (sending lba k n) s
      → ((b.inw 0x1f0 s).0 ≡ image lba k) × At (sending lba (suc k) n) (b.inw 0x1f0 s).1
  pub last_word :
      (lba n : ℕ) (s : S)
      → At (sending lba 255 (suc n)) s
      → ((b.inw 0x1f0 s).0 ≡ image lba 255) × At (fetching (lba + 1) n) (b.inw 0x1f0 s).1
  pub final_word :
      (lba : ℕ) (s : S)
      → At (sending lba 255 0) s
      → ((b.inw 0x1f0 s).0 ≡ image lba 255) × ((r : Registers) × At (idle r) (b.inw 0x1f0 s).1)
  pub quiet_idle :
      (r : Registers) (s : S) → At (idle r) s → ((b.irq s).0 ≡ quiet) × At (idle r) (b.irq s).1
  pub late :
      (lba n : ℕ) (s : S)
      → At (fetching lba n) s
      → ((b.irq s).0 ≡ quiet) × At (busy lba n limit) (b.irq s).1
  pub quiet_sending :
      (lba k n : ℕ) (s : S)
      → At (sending lba k n) s
      → ((b.irq s).0 ≡ quiet) × At (sending lba k n) (b.irq s).1

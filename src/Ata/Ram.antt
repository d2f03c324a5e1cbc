-- ===== src/Ata/Ram.antt =====
-- A disk in memory that behaves as src/drivers/disk/ata.c relies on: its state is its phase. It
-- interrupts directly behind a command, and for a later sector of a command while the processor is halted
-- for the second time.
use dvivon_os.Base.{
  refl, arith, ◌-◌, zero, ◌&&◌, ap, false, suc, ◌+◌, ◌==◌, if◌then◌else◌, ◌*◌, ◌≡◌, ◌⊎◌, inl, inr,
  ℕ,
}
use dvivon_os.Ata.{quiet, primary, Line, Bus}
use dvivon_os.Ata.Disk.{
  address, raised, busy, fetching, idle, sending, Image, IsDisk, Phase, Registers,
}
use dvivon_os.Ata.Sector.{In}

-- Each word holds its place on the disk.
abbrev pub numbered : Image
numbered lba k = lba * 256 + k

set_register : (port v : ℕ) → Registers → Phase
set_register port v r =
    if port == 0x1f6
    then idle (record r { drive = v })
    else if port == 0x1f2
    then idle (record r { count = v })
    else if port == 0x1f3
    then idle (record r { low = v })
    else if port == 0x1f4
    then idle (record r { mid = v })
    else if port == 0x1f5
    then idle (record r { high = v })
    else if port == 0x1f7 && v == 0x20
    then busy (address r) (r.count - 1) 1
    else idle r

pub ram_outb : ℕ → ℕ → Phase → Phase
unfolding set_register
ram_outb port v (idle r) = set_register port v r
ram_outb port v (fetching lba n) = fetching lba n
ram_outb port v (busy lba n k) = busy lba n k
ram_outb port v (raised lba n) = raised lba n
ram_outb port v (sending lba k n) = sending lba k n

pub ram_inb : ℕ → Phase → ℕ × Phase
ram_inb port (idle r) = (0x40, idle r)
ram_inb port (fetching lba n) = (0x80, fetching lba n)
ram_inb port (busy lba n k) = (0x80, busy lba n k)
ram_inb port (raised lba n) = (0x40, sending lba 0 n)
ram_inb port (sending lba k n) = (0x48, sending lba k n)

abbrev pub fresh : Registers
fresh = record { count = 0; low = 0; mid = 0; high = 0; drive = 0 }

after_sector : (lba n : ℕ) → Phase
after_sector lba zero = idle fresh
after_sector lba (suc n) = fetching (lba + 1) n

pub ram_inw : ℕ → Phase → ℕ × Phase
unfolding after_sector
ram_inw port (sending lba k n) =
    (numbered lba k, if k == 255 then after_sector lba n else sending lba (suc k) n)
ram_inw port (idle r) = (0, idle r)
ram_inw port (fetching lba n) = (0, fetching lba n)
ram_inw port (busy lba n k) = (0, busy lba n k)
ram_inw port (raised lba n) = (0, raised lba n)

pub ram_hlt : Phase → Phase
ram_hlt (busy lba n zero) = raised lba n
ram_hlt (busy lba n (suc k)) = busy lba n k
ram_hlt (fetching lba n) = raised lba n
ram_hlt (idle r) = idle r
ram_hlt (raised lba n) = raised lba n
ram_hlt (sending lba k n) = sending lba k n

pub ram_irq : Phase → Line × Phase
ram_irq (raised lba n) = (primary, raised lba n)
ram_irq (idle r) = (quiet, idle r)
ram_irq (fetching lba n) = (quiet, busy lba n 1)
ram_irq (busy lba n zero) = (quiet, busy lba n 0)
ram_irq (busy lba n (suc k)) = (primary, raised lba n)
ram_irq (sending lba k n) = (quiet, sending lba k n)

abbrev pub ram : Bus Phase
ram = record {
  outb = ram_outb;
  inb = ram_inb;
  outw = λ port v s. s;
  inw = ram_inw;
  io_wait = λ s. s;
  hlt = ram_hlt;
  irq = ram_irq;
}

pub ram-early :
    (lba n k : ℕ) (s : Phase)
    → s ≡ busy lba n k
    → (((ram_irq s).0 ≡ quiet) × ((ram_irq s).1 ≡ busy lba n k))
      ⊎ (((ram_irq s).0 ≡ primary) × ((ram_irq s).1 ≡ raised lba n))
unfolding ram_irq
ram-early lba n zero s h = inl (rw h (refl, refl))
ram-early lba n (suc k) s h = inr (rw h (refl, refl))

unfoldable pub ram-IsDisk : IsDisk ram numbered
unfolding ram_outb ram_inb ram_inw ram_hlt ram_irq
ram-IsDisk = record {
  limit = 1;
  At = λ p s. s ≡ p;
  select = λ r v s h. rw h refl;
  set_count = λ r v s h. rw h refl;
  set_low = λ r v s h. rw h refl;
  set_mid = λ r v s h. rw h refl;
  set_high = λ r v s h. rw h refl;
  waits = λ r s h. h;
  status = λ r s h. rw h ((refl, refl, refl), refl);
  command = λ r n s e h. rw h (ap (λ k. busy (address r) k 1) (omega arith));
  halts = λ lba n k s h. rw h refl;
  halts_last = λ lba n s h. rw h refl;
  early = ram-early;
  interrupt = λ lba n s h. rw h (refl, refl);
  acknowledge = λ lba n s h. rw h refl;
  word = λ lba k n s lt h. rw h (refl, ground arith);
  last_word = λ lba n s h. rw h (refl, refl);
  final_word = λ lba s h. rw h (refl, (fresh, refl));
  quiet_idle = λ r s h. rw h (refl, refl);
  late = λ lba n s h. rw h (refl, refl);
  quiet_sending = λ lba k n s h. rw h (refl, refl);
}

pub ram_idle : In ram numbered ram-IsDisk (idle fresh) (record { fired = false; bus = idle fresh })
unfolding ram-IsDisk
ram_idle = refl

-- ===== src/Ata/Tests.antt =====
-- Reading from the disk in memory.
use dvivon_os.Base.{refl, some, ◌≡◌, false, ℕ}
use dvivon_os.Ata.Ram.{fresh, ram}
use dvivon_os.Ata.Disk.{idle, Phase}
use dvivon_os.Ata.{err_unknown, Ata, read_sectors}

abbrev controller : Ata Phase
controller = record { fired = false; bus = idle fresh }

abbrev empty : ℕ → ℕ
empty i = 0

-- Nothing is read where no sector is asked for.
no_sector : (a : Ata Phase) → read_sectors ram 1 5 0 0 empty a ≡ some (err_unknown, empty, a)
unfolding read_sectors
no_sector a = refl

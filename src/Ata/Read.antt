-- ===== src/Ata/Read.antt =====
-- Reading sectors in chunks, as src/drivers/disk/ata.c does.
use dvivon_os.Ata.{Ata}

-- ===== src/Kernel/Disk/RoundTrip.antt =====
-- kernel/src/drivers/disk/ata_pio.rs: what is written can be read back.
use yacuri.Kernel.Disk.Ports.{Ports}
use yacuri.Kernel.Disk.Protocol.{Protocol}

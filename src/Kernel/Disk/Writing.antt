-- ===== src/Kernel/Disk/Writing.antt =====
-- kernel/src/drivers/disk/ata_pio.rs: `write` puts the buffer on the disk and changes nothing else.
use yacuri.Base.{ℕ, ◌+◌, ◌*◌, ◌/◌, ◌<◌, ◌≡◌, ◌&&◌, Option, List, if◌then◌else◌, ltb, leb, length}
use yacuri.Kernel.Disk.Ports.{Ports}
use yacuri.Kernel.Disk.Drive.{AtaDrive, io_port}
use yacuri.Kernel.Disk.Protocol.{Words, Protocol}
use yacuri.Kernel.Disk.Place.{byte}
use yacuri.Kernel.Disk.Sent.{overlaid, AreBytes, Kept}

-- After `k` words of the transfer the bytes up to there are the new ones, the others the old ones.
abbrev pub WrittenTo : Words → ℕ → List ℕ → ℕ → Words → Type 0
WrittenTo disk position buf k disk' =
    (a : ℕ)
    → byte disk' a ≡ (
        if leb (position / 512 * 256 * 2) a && ltb a ((position / 512 * 256 + k) * 2)
        then overlaid disk position buf a
        else byte disk a)

module _ (polls : ℕ) (ports : Ports) (d : AtaDrive) (protocol : Protocol polls ports (io_port d))
    (disk : Words) (disk_fits : (w : ℕ) → disk w < 65536) (buf : List ℕ) (are_bytes : AreBytes buf)
    (not_empty : 0 < length buf) (start_sector end_sector : Option (List ℕ))
    (start_kept : Kept disk d.position start_sector)
    (end_kept : Kept disk (d.position + length buf) end_sector) where
  open ports use {State}
  open protocol use {Doing}

  abbrev Written : ℕ → Words → Type 0
  Written k disk' = WrittenTo disk d.position buf k disk'

  abbrev base : ℕ
  base = d.position / 512 * 256

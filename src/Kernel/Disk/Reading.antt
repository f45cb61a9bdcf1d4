-- ===== src/Kernel/Disk/Reading.antt =====
-- kernel/src/drivers/disk/ata_pio.rs: `read` fills the buffer with the bytes at the position.
use yacuri.Base.{ℕ, ◌+◌, ◌*◌, ◌/◌, ◌%◌, ◌<◌, ◌≡◌, List, if◌then◌else◌, ltb, length, get_or}
use yacuri.Kernel.Disk.Ports.{Ports}
use yacuri.Kernel.Disk.Drive.{AtaDrive, io_port}
use yacuri.Kernel.Disk.Protocol.{Words, Protocol}
use yacuri.Kernel.Disk.Place.{byte}

-- After `k` words of a transfer that begins at the sector of `position`, the bytes up to there are
-- the disk's, and the rest of the buffer is as it was.
pub record Filled (disk : Words) (position : ℕ) (whole : List ℕ) (k : ℕ) (buf : List ℕ)
    : Type 0 where
  pub same_length : length buf ≡ length whole
  pub bytes :
      (j : ℕ)
      → j < length whole
      → get_or buf j 0
        ≡ (if ltb (position % 512 + j) (k * 2) then byte disk (position + j) else get_or whole j 0)

module _ (polls : ℕ) (ports : Ports) (d : AtaDrive) (protocol : Protocol polls ports (io_port d))
    (disk : Words) (whole : List ℕ) (not_empty : 0 < length whole) where
  open ports use {State}
  open protocol use {Doing}

  abbrev FilledTo : ℕ → List ℕ → Type 0
  FilledTo k buf = Filled disk d.position whole k buf

  abbrev base : ℕ
  base = d.position / 512 * 256

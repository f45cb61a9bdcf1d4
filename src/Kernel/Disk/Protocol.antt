-- ===== src/Kernel/Disk/Protocol.antt =====
-- What the driver of kernel/src/drivers/disk/ata_pio.rs relies on of the drive behind the ports:
-- the documented PIO protocol, as the laws of a record. Nothing here is code of the repository.
use yacuri.Base.{ℕ, suc, ◌+◌, ◌*◌, ◌/◌, ◌%◌, ◌^◌, ◌<◌, ◌≡◌, true, false, if◌then◌else◌, ◌==◌}
use yacuri.Kernel.Disk.Ports.{Ports, done}
use yacuri.Kernel.Disk.Drive.{
  busy, rw_ready, read_command, write_command, cache_flush, data_port, sector_count_port, lba_low,
  lba_mid, lba_high, drive_sel, status_port,
}
use yacuri.Kernel.Disk.Transfer.{poll}

-- The words of the disk, in the order of their sectors.
abbrev pub Words : Type 0
Words = ℕ → ℕ

abbrev pub update : Words → ℕ → ℕ → Words
update disk word value = λ w. if w == word then value else disk w

-- What the drive is doing: nothing, or a transfer that goes on at a word, with some words to go.
pub data Phase : Type 0 where
  idle : Words → Phase
  reading writing : Words → (next left : ℕ) → Phase

abbrev pub words_of : Phase → Words
words_of (idle disk) = disk
words_of (reading disk next left) = disk
words_of (writing disk next left) = disk

-- The drive wants the data port: words are left in a transfer.
pub data IsTransfer : Phase → Type 0 where
  reads : (disk : Words) (next left : ℕ) → IsTransfer (reading disk next (suc left))
  writes : (disk : Words) (next left : ℕ) → IsTransfer (writing disk next (suc left))

-- The registers of a transfer, written from the drive select to the high byte of the address.
abbrev pub registers : (ports : Ports) → (ℕ → ℕ) → (lba count : ℕ) → ports.State → ports.State
registers ports port lba count s = ports.write_8 (port lba_high) (lba / 65536 % 256) (
    ports.write_8 (port lba_mid) (lba / 256 % 256) (
      ports.write_8 (port lba_low) (lba % 256) (
        ports.write_8 (port sector_count_port) count
          (ports.write_8 (port drive_sel) (0xF0 + lba / 2 ^ 24 % 16) s))))

-- A drive at the ports `port`, whose status settles within `polls` reads.
pub record Protocol (polls : ℕ) (ports : Ports) (port : ℕ → ℕ) : Type 1 where
  -- what a state of the hardware is doing
  pub Doing : Phase → ports.State → Type 0
  -- the disk holds 16-bit words
  pub fits : {phase : Phase} {s : ports.State} (w : ℕ) → Doing phase s → words_of phase w < 65536
  -- the busy bit clears, and in a transfer the drive gets ready, with nothing changed
  pub not_busy :
      {phase : Phase} {s : ports.State}
      → Doing phase s
      → (s' : ports.State) × (poll polls ports polls (port status_port) busy false s ≡ done tt s')
        × Doing phase s'
  pub ready :
      {phase : Phase} {s : ports.State}
      → IsTransfer phase
      → Doing phase s
      → (s' : ports.State) × (poll polls ports polls (port status_port) rw_ready true s
          ≡ done tt s')
        × Doing phase s'
  -- a command starts the transfer that the registers describe
  pub starts_reading :
      {disk : Words} {s : ports.State} (lba count : ℕ)
      → lba < 2 ^ 28
      → 0 < count
      → count < 256
      → Doing (idle disk) s
      → Doing
          (reading disk (lba * 256) (count * 256))
          (ports.write_8 (port status_port) read_command (registers ports port lba count s))
  pub starts_writing :
      {disk : Words} {s : ports.State} (lba count : ℕ)
      → lba < 2 ^ 28
      → 0 < count
      → count < 256
      → Doing (idle disk) s
      → Doing
          (writing disk (lba * 256) (count * 256))
          (ports.write_8 (port status_port) write_command (registers ports port lba count s))
  -- the data port gives, or takes, the words one by one
  pub gives :
      {disk : Words} {s : ports.State} {next left : ℕ}
      → Doing (reading disk next (suc left)) s
      → ((ports.read_16 (port data_port) s).0 ≡ disk next)
        × Doing (reading disk (next + 1) left) (ports.read_16 (port data_port) s).1
  pub takes :
      {disk : Words} {s : ports.State} {next left : ℕ} (w : ℕ)
      → w < 65536
      → Doing (writing disk next (suc left)) s
      → Doing (writing (update disk next w) (next + 1) left) (ports.write_16 (port data_port) w s)
  -- a transfer with no word left is over, a write after its cache is flushed
  pub ends_reading :
      {disk : Words} {s : ports.State} {next : ℕ}
      → Doing (reading disk next 0) s
      → Doing (idle disk) s
  pub ends_writing :
      {disk : Words} {s : ports.State} {next : ℕ}
      → Doing (writing disk next 0) s
      → Doing (idle disk) (ports.write_8 (port status_port) cache_flush s)

-- ===== src/Kernel/Disk/Edges.antt =====
-- kernel/src/drivers/disk/ata_pio.rs: transfers whose number of sectors is not what they touch.
use yacuri.Base.{
  ℕ, zero, suc, ◌+◌, ◌-◌, ◌*◌, ◌/◌, ◌%◌, ◌^◌, ◌<◌, ◌≡◌, refl, ◌∙◌, List, [], arith, length, negsuc,
}
use yacuri.Kernel.Disk.Ports.{Ports, done, panicked}
use yacuri.Kernel.Disk.Drive.{
  AtaDrive, min_required_sector_count, io_port, read_command, status_port, data_port, place,
  index_of,
}
use yacuri.Kernel.Disk.Transfer.{
  io_write, select, before_read_write, wait_status, wait_ready, read_words, read_sectors, read,
}
use yacuri.Kernel.Disk.Count.{min_required_sector_count_lem, min_required_sector_count-zero}
use yacuri.Kernel.Disk.Protocol.{Words, idle, reads, Protocol}
use yacuri.Kernel.Disk.Wait.{reading_starts}

-- The index of a word in front of the buffer.
index_of-before :
    (word offset n : ℕ) → word * 2 + n + 1 ≡ offset → index_of 0 word offset ≡ negsuc n
index_of-before word offset n h = ground (arith, difference)
  where
    difference : offset - word * 2 - 1 ≡ n
    difference = omega arith

-- The words before the position go by, and the one around it has no byte to go to.
read_words-empty_panics :
    (polls : ℕ) (ports : Ports) (d : AtaDrive) (n before word : ℕ) (s : ports.State)
    → before < n
    → word * 2 + before * 2 + 1 ≡ d.position % 512
    → read_words polls ports n d 0 word [] s ≡ panicked
unfolding read_words place
read_words-empty_panics polls ports d zero before word s lt h = ground arith
read_words-empty_panics polls ports d (suc n) zero word s lt h =
    rw (read_words, place, index_of-before word (d.position % 512) 0 (omega arith)) refl
read_words-empty_panics polls ports d (suc n) (suc before) word s lt h =
    rw
      (
        read_words,
        place,
        index_of-before word (d.position % 512) (suc (before * 2 + 1)) (omega arith),
      )
      (read_words-empty_panics polls ports d n before (word + 1)
        (ports.read_16 (io_port d data_port) s).1 (omega arith) (omega arith))

module _ (polls : ℕ) (ports : Ports) (d : AtaDrive)
    (protocol : Protocol polls ports (io_port d)) where
  open ports use {State}
  open protocol use {Doing}

  -- On an idle drive that keeps the protocol, a read of at least one byte, and of so many that the
  -- sectors they touch are a multiple of 256, returns the buffer's length and moves the position, and the
  -- buffer is as it was.
  pub read-nothing :
      (disk : Words) (buf : List ℕ) (s : State)
      → 0 < length buf
      → (d.position % 512 + length buf + 511) / 512 % 256 ≡ 0
      → Doing (idle disk) s
      → (s' : State) × (read polls ports d buf s
          ≡ done (length buf, buf, record d { position = d.position + length buf }) s')
  unfolding read read_sectors before_read_write wait_status
  read-nothing disk buf s not_empty wraps doing =
      let (s₁, e₁, doing₁) = protocol.not_busy doing in
      let count : min_required_sector_count d (length buf) ≡ 0 =
        min_required_sector_count_lem d (length buf) not_empty ∙ wraps in
      (io_write polls ports d status_port read_command (select polls ports d 0 s₁), rw (count, e₁))

  -- On an idle drive that keeps the protocol, a read into an empty buffer at an odd position below 2^37
  -- panics.
  pub read-empty_panics :
      (disk : Words) (s : State)
      → d.position % 2 ≡ 1
      → d.position < 2 ^ 37
      → Doing (idle disk) s
      → read polls ports d [] s ≡ panicked
  unfolding read read_sectors wait_ready wait_status
  read-empty_panics disk s odd in_range doing =
      let (s₁, e₁, doing₁) =
        reading_starts polls ports d protocol {disk = disk} {s = s} 1 in_range (omega arith)
          (omega arith) doing in
      let (s₂, e₂, doing₂) = protocol.not_busy doing₁ in
      let (s₃, e₃, doing₃) = protocol.ready (reads _ _ _) doing₂ in
      rw
        (
          min_required_sector_count-zero d,
          e₁,
          e₂,
          e₃,
          read_words-empty_panics polls ports d 256 (d.position % 512 / 2) 0 s₃ (omega arith)
              (omega arith),
        )
        refl

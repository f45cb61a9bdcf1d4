-- ===== src/Kernel/Disk/Transfer.antt =====
-- kernel/src/drivers/disk/ata_pio.rs: the operations of the driver that go through the ports.
use Prim.Native.Nat.{bit_and, bit_or}
use yacuri.Base.{
  ℕ, zero, suc, ◌+◌, ◌/◌, ◌%◌, ◌^◌, Bool, true, false, not, Option, none, some, List, [], ◌∷◌,
  if◌then◌else◌, ◌==◌, length,
}
use yacuri.Kernel.Disk.Ports.{Ports, done, panicked, polling, Io, ◌>>=◌, ◌>>◌, pure}
use yacuri.Kernel.Disk.Drive.{
  AtaDrive, busy, rw_ready, read_command, write_command, cache_flush, data_port, sector_count_port,
  lba_low, lba_mid, lba_high, drive_sel, status_port, is_set, io_port, con_port, calc_lba,
  pos_aligned, min_required_sector_count, index_of, place, to_write,
}

-- The polls of a status port before the model gives up, and the ports.
module _ (polls : ℕ) (ports : Ports) where
  open ports use {State, read_8, write_8, read_16, write_16}

  -- `while status.is_set(port.read()) != until {}`
  unfoldable pub poll : ℕ → ℕ → ℕ → Bool → Io State (Unit {0})
  poll zero port mask until s = polling
  poll (suc n) port mask until s =
      let val = (read_8 port s).0 in
      let s' = (read_8 port s).1 in
      let again = poll n port mask until s' in
      if is_set mask val
      then (if until then done tt s' else again)
      else (if until then again else done tt s')

  unfoldable pub wait_status : AtaDrive → ℕ → Bool → Io State (Unit {0})
  wait_status d mask until = poll polls (io_port d status_port) mask until

  unfoldable pub wait_ready : AtaDrive → Io State (Unit {0})
  wait_ready d = do wait_status d busy false; wait_status d rw_ready true

  abbrev pub io_write : AtaDrive → ℕ → ℕ → State → State
  io_write d port value s = write_8 (io_port d port) value s

  -- The registers that `before_read_write` sets, in its order.
  unfoldable pub select : AtaDrive → ℕ → State → State
  unfolding calc_lba
  select d count s =
      let lba = calc_lba d in
      io_write d lba_high (lba / 65536 % 256) (
        io_write d lba_mid (lba / 256 % 256) (
          io_write d lba_low (lba % 256) (
            io_write d sector_count_port count
              (io_write d drive_sel (bit_or 0xF0 (bit_and (lba / 2 ^ 24) 15) % 256) s))))

  unfoldable pub before_read_write : AtaDrive → ℕ → Io State (Unit {0})
  before_read_write d count = do wait_status d busy false; λ s. done tt (select d count s)

  abbrev pub send_command : AtaDrive → ℕ → Io State (Unit {0})
  send_command d command s = done tt (io_write d status_port command s)

  -- `for word in &mut buf { *word = data_port.read(); }`
  unfoldable pub take_words : ℕ → AtaDrive → Io State (List ℕ)
  take_words zero d s = done [] s
  take_words (suc n) d s =
      let got = read_16 (io_port d data_port) s in
      (do words ← take_words n d; pure (got.0 ∷ words)) got.1

  unfoldable pub read_sector : AtaDrive → Io State (List ℕ)
  read_sector d = do
    before_read_write d 1
    send_command d read_command
    wait_ready d
    take_words 256 d

  unfoldable pub read_sector_if_unaligned : AtaDrive → Io State (Option (List ℕ))
  read_sector_if_unaligned d =
      if not (pos_aligned d) then (read_sector d >>= λ words. pure (some words)) else pure none

  -- The position is put back by the second `self.position -= len`.
  unfoldable pub get_partial_write_sectors :
      AtaDrive → ℕ → Io State (Option (List ℕ) × Option (List ℕ))
  get_partial_write_sectors d len = do
    start_sector ← read_sector_if_unaligned d
    end_sector ← read_sector_if_unaligned (record d { position = d.position + len })
    pure (start_sector, end_sector)

  -- The inner loop of `read`, with `n` words to go.
  unfoldable pub read_words : ℕ → AtaDrive → (sector word : ℕ) → List ℕ → Io State (List ℕ)
  read_words zero d sector word buf s = done buf s
  read_words (suc n) d sector word buf s =
      let got = read_16 (io_port d data_port) s in
      elim (place (index_of sector word (d.position % 512)) got.0 buf) [
        | none ↦ panicked
        | some buf' ↦ read_words n d sector (word + 1) buf' got.1
      ]

  -- The outer loop, with `n` sectors to go.
  unfoldable pub read_sectors : ℕ → AtaDrive → (sector : ℕ) → List ℕ → Io State (List ℕ)
  read_sectors zero d sector buf s = done buf s
  read_sectors (suc n) d sector buf s =
      (do wait_ready d; buf' ← read_words 256 d sector 0 buf; read_sectors n d (sector + 1) buf') s

  -- `read`: the count returned, the buffer as it leaves it, and the drive moved on.
  unfoldable pub read : AtaDrive → List ℕ → Io State (ℕ × List ℕ × AtaDrive)
  read d buf = do
    let count = min_required_sector_count d (length buf)
    before_read_write d count
    send_command d read_command
    buf' ← read_sectors count d 0 buf
    pure (length buf, buf', record d { position = d.position + length buf })

  -- The inner loop of `write`.
  unfoldable pub write_words :
      ℕ
      → AtaDrive
      → (sector word : ℕ) → List ℕ
      → Option (List ℕ)
      → Option (List ℕ)
      → Io State (Unit {0})
  write_words zero d sector word buf start_sector end_sector s = done tt s
  write_words (suc n) d sector word buf start_sector end_sector s =
      elim (to_write (index_of sector word (d.position % 512)) word buf start_sector end_sector) [
        | none ↦ panicked
        | some w ↦
            write_words n d sector (word + 1) buf start_sector end_sector
              (write_16 (io_port d data_port) w s)
      ]

  unfoldable pub write_sectors :
      ℕ → AtaDrive → (sector : ℕ) → List ℕ → Option (List ℕ) → Option (List ℕ) → Io State (Unit {0})
  write_sectors zero d sector buf start_sector end_sector s = done tt s
  write_sectors (suc n) d sector buf start_sector end_sector s =
      (do
        wait_ready d
        write_words 256 d sector 0 buf start_sector end_sector
        write_sectors n d (sector + 1) buf start_sector end_sector)
        s

  -- `write`: the count returned, and the drive moved on.
  unfoldable pub write : AtaDrive → List ℕ → Io State (ℕ × AtaDrive)
  write d buf = do
    let count = min_required_sector_count d (length buf)
    (start_sector, end_sector) ← get_partial_write_sectors d (length buf)
    before_read_write d count
    send_command d write_command
    write_sectors count d 0 buf start_sector end_sector
    send_command d cache_flush
    pure (length buf, record d { position = d.position + length buf })

  -- `AtaDrive::new`, with its assertion
  unfoldable pub new : ℕ → ℕ → Io State AtaDrive
  new io_base control_base s =
      let bus : AtaDrive = record {
        io_base = io_base;
        control_base = control_base;
        position = 0;
      } in
      let got = read_8 (io_port bus status_port) s in
      if got.0 == 0xFF then panicked else done bus (write_8 (con_port bus 0) 0 got.1)

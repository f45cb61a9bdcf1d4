-- ===== src/Kernel/Disk/Wait.antt =====
-- kernel/src/drivers/disk/ata_pio.rs: polling and the set-up of a transfer, over a drive that
-- keeps the protocol.
use yacuri.Base.{ℕ, ◌+◌, ◌*◌, ◌/◌, ◌%◌, ◌^◌, ◌<◌, ◌≡◌, arith}
use yacuri.Base.Bits.{bit_and-nibble, bit_or-nibble}
use yacuri.Kernel.Disk.Ports.{Ports, done}
use yacuri.Kernel.Disk.Drive.{AtaDrive, io_port, read_command, write_command, status_port}
use yacuri.Kernel.Disk.Transfer.{wait_status, wait_ready, select, before_read_write, io_write}
use yacuri.Kernel.Disk.Protocol.{
  Words, Phase, idle, reading, writing, IsTransfer, registers, Protocol,
}

module _ (polls : ℕ) (ports : Ports) (d : AtaDrive)
    (protocol : Protocol polls ports (io_port d)) where
  open ports use {State}
  open protocol use {Doing}

  pub wait_ready-Doing :
      {phase : Phase} {s : State}
      → IsTransfer phase
      → Doing phase s
      → (s' : State) × (wait_ready polls ports d s ≡ done tt s') × Doing phase s'
  unfolding wait_ready wait_status
  wait_ready-Doing transfer doing =
      let (s₁, e₁, doing₁) = protocol.not_busy doing in
      let (s₂, e₂, doing₂) = protocol.ready transfer doing₁ in (s₂, rw e₁ e₂, doing₂)

  -- The driver writes the registers that the protocol asks for.
  select-registers :
      (count : ℕ) (s : State)
      → select polls ports d count s ≡ registers ports (io_port d) (d.position / 512) count s
  unfolding select
  select-registers count s = rw drive
    where
      drive :
          Prim.Native.Nat.bit_or 0xF0 (Prim.Native.Nat.bit_and (d.position / 512 / 2 ^ 24) 15) % 256
          ≡ 0xF0 + d.position / 512 / 2 ^ 24 % 16
      drive =
          rw (bit_and-nibble, bit_or-nibble (d.position / 512 / 2 ^ 24 % 16) (omega arith))
            (omega arith)

  module _ {disk : Words} {s : State} (count : ℕ) (in_range : d.position < 2 ^ 37)
      (some_sector : 0 < count) (one_byte : count < 256) (doing : Doing (idle disk) s) where
    pub reading_starts :
        (s' : State) × (before_read_write polls ports d count s ≡ done tt s')
        × Doing
            (reading disk (d.position / 512 * 256) (count * 256))
            (io_write polls ports d status_port read_command s')
    unfolding before_read_write wait_status
    reading_starts =
        let (s₁, e₁, doing₁) = protocol.not_busy doing in
        (
          select polls ports d count s₁,
          rw e₁,
          rw (select-registers count s₁) (
              protocol.starts_reading (d.position / 512) count (omega arith) some_sector one_byte
                doing₁),
        )

    pub writing_starts :
        (s' : State) × (before_read_write polls ports d count s ≡ done tt s')
        × Doing
            (writing disk (d.position / 512 * 256) (count * 256))
            (io_write polls ports d status_port write_command s')
    unfolding before_read_write wait_status
    writing_starts =
        let (s₁, e₁, doing₁) = protocol.not_busy doing in
        (
          select polls ports d count s₁,
          rw e₁,
          rw (select-registers count s₁) (
              protocol.starts_writing (d.position / 512) count (omega arith) some_sector one_byte
                doing₁),
        )

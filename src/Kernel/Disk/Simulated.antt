-- ===== src/Kernel/Disk/Simulated.antt =====
-- A drive in memory that keeps the protocol, so that the theorems on the driver can be applied.
use yacuri.Base.{
  ℕ, zero, suc, ◌+◌, ◌*◌, ◌/◌, ◌%◌, ◌^◌, ◌<◌, ◌≡◌, refl, true, false, arith, if◌then◌else◌, ◌==◌,
}
use yacuri.Kernel.Disk.Ports.{Ports, done}
use yacuri.Kernel.Disk.Drive.{AtaDrive, io_port, read_command, write_command}
use yacuri.Kernel.Disk.Transfer.{poll}
use yacuri.Kernel.Disk.Protocol.{
  Words, update, Phase, idle, reading, writing, words_of, IsTransfer, reads, writes, Protocol,
}

abbrev pub drive : AtaDrive
drive = record { io_base = 0x1F0; control_base = 0x3F6; position = 0 }

pub record Simulated : Type 0 where
  pub phase : Phase
  pub count : ℕ
  pub low_byte : ℕ
  pub mid_byte : ℕ
  pub high_byte : ℕ
  pub head : ℕ

-- A read with no word left is over.
abbrev pub normal : Phase → Phase
normal (reading disk next zero) = idle disk
normal phase = phase

abbrev pub lba_of : Simulated → ℕ
lba_of s = s.low_byte + s.mid_byte * 256 + s.high_byte * 65536 + s.head % 16 * 2 ^ 24

abbrev pub command : ℕ → Simulated → Phase
command value s =
    if value == read_command
    then normal (reading (words_of s.phase) (lba_of s * 256) (s.count * 256))
    else if value == write_command
    then writing (words_of s.phase) (lba_of s * 256) (s.count * 256)
    else idle (words_of s.phase)

abbrev pub status : Phase → ℕ
status (reading disk next (suc left)) = 0x08
status (writing disk next (suc left)) = 0x08
status phase = 0

abbrev pub give : Phase → ℕ × Phase
give (reading disk next (suc left)) = (disk next, normal (reading disk (next + 1) left))
give phase = (0, phase)

abbrev pub take : ℕ → Phase → Phase
take value (writing disk next (suc left)) = writing (update disk next value) (next + 1) left
take value phase = phase

abbrev pub set_register : ℕ → ℕ → Simulated → Simulated
set_register port value s =
    if port == 0x1F2
    then record s { count = value }
    else if port == 0x1F3
    then record s { low_byte = value }
    else if port == 0x1F4
    then record s { mid_byte = value }
    else if port == 0x1F5
    then record s { high_byte = value }
    else if port == 0x1F6
    then record s { head = value }
    else if port == 0x1F7
    then record s { phase = command value s }
    else s

abbrev pub simulated_ports : Ports
simulated_ports = record {
  State = Simulated;
  read_8 = λ port s. (status s.phase, s);
  write_8 = set_register;
  read_16 = λ port s. ((give s.phase).0, record s { phase = (give s.phase).1 });
  write_16 = λ port value s. record s { phase = take value s.phase };
}

abbrev pub Does : Phase → Simulated → Type 0
Does phase s = (s.phase ≡ normal phase) × ((w : ℕ) → words_of phase w < 65536)

pub never_busy :
    (phase : Phase) (s : Simulated)
    → s.phase ≡ phase
    → poll 1 simulated_ports 1 0x1F7 0x80 false s ≡ done tt s
unfolding poll
never_busy (idle disk) s e = simp e
never_busy (reading disk next zero) s e = simp e
never_busy (reading disk next (suc left)) s e = simp e
never_busy (writing disk next zero) s e = simp e
never_busy (writing disk next (suc left)) s e = simp e

pub wants_data :
    (phase : Phase) (s : Simulated)
    → IsTransfer phase
    → s.phase ≡ normal phase
    → poll 1 simulated_ports 1 0x1F7 0x08 true s ≡ done tt s
unfolding poll
wants_data _ s (reads disk next left) e = simp e
wants_data _ s (writes disk next left) e = simp e

pub update-fits :
    (disk : Words) (next value : ℕ)
    → value < 65536
    → ((w : ℕ) → disk w < 65536)
    → (w : ℕ) → update disk next value w < 65536
update-fits disk next value small fits w = ground (arith, fits w)

pub same_lba :
    (lba : ℕ)
    → lba < 2 ^ 28
    → lba % 256
        + lba / 256 % 256 * 256
        + lba / 65536 % 256 * 65536
        + (0xF0 + lba / 2 ^ 24 % 16) % 16 * 2 ^ 24
      ≡ lba
same_lba lba h = omega arith

abbrev pub simulated : Protocol 1 simulated_ports (io_port drive)
simulated = record {
  Doing = Does;
  fits = λ w doing. doing.1 w;
  not_busy = λ {phase} {s} doing. (s, never_busy s.phase s refl, doing);
  ready = λ {phase} {s} transfer doing. (s, wants_data phase s transfer doing.0, doing);
  starts_reading = λ {disk} {s} lba count in_range some_sector one_byte doing.
      (simp (same_lba lba in_range, doing.0), doing.1);
  starts_writing = λ {disk} {s} lba count in_range some_sector one_byte doing.
      (simp (same_lba lba in_range, doing.0), doing.1);
  gives = λ {disk} {s} {next} {left} doing. (simp doing.0, (simp doing.0, doing.1));
  takes = λ {disk} {s} {next} {left} w small doing.
      (simp doing.0, update-fits disk next w small doing.1);
  ends_reading = λ doing. doing;
  ends_writing = λ {disk} {s} {next} doing. (simp doing.0, doing.1);
}

-- ===== src/Kernel/Disk/Tests.antt =====
-- kernel/src/drivers/disk/ata_pio.rs: the driver on a drive in memory.
use yacuri.Base.{
  ◌%◌, ◌/◌, ℕ, ◌+◌, ◌≡◌, refl, ap, some, List, [], ◌∷◌, arith, length, replicate, length-replicate,
  neg,
}
use yacuri.Kernel.Disk.Ports.{done, panicked}
use yacuri.Kernel.Disk.Drive.{AtaDrive, min_required_sector_count, SeekFrom, seek}
use yacuri.Kernel.Disk.Transfer.{read}
use yacuri.Kernel.Disk.Count.{min_required_sector_count_lem}
use yacuri.Kernel.Disk.Protocol.{Words, idle}
use yacuri.Kernel.Disk.Edges.{read-nothing, read-empty_panics}
use yacuri.Kernel.Disk.Simulated.{drive, Simulated, simulated_ports, Does, simulated}

-- The counts of the test `correct_sector_count`.
counts :
    (min_required_sector_count drive 3 ≡ 1)
    × (min_required_sector_count drive 512 ≡ 1)
    × (min_required_sector_count drive 513 ≡ 2)
    × (min_required_sector_count drive 2000 ≡ 4)
    × (min_required_sector_count (record drive { position = 200 }) 200 ≡ 1)
    × (min_required_sector_count (record drive { position = 200 }) 512 ≡ 2)
    × (min_required_sector_count (record drive { position = 200 }) 2000 ≡ 5)
unfolding min_required_sector_count
counts = (refl, refl, refl, refl, refl, refl, refl)

-- The test `seek`.
seeks :
    (seek drive (SeekFrom.start 457) ≡ (some 457, record drive { position = 457 }))
    × (seek (record drive { position = 457 }) (SeekFrom.current (neg 12))
        ≡ (some 445, record drive { position = 445 }))
unfolding seek
seeks = (refl, refl)

min_required_sector_count_lem_example : min_required_sector_count drive 2000 ≡ 4
min_required_sector_count_lem_example = min_required_sector_count_lem drive 2000 (omega arith)

-- A disk of equal words, and a drive in the middle of its first sector.
abbrev disk : Words
disk = λ w. 0x0201

abbrev at_101 : AtaDrive
at_101 = record drive { position = 101 }

abbrev hardware : Simulated
hardware = record {
  phase = idle disk;
  count = 0;
  low_byte = 0;
  mid_byte = 0;
  high_byte = 0;
  head = 0;
}

is_idle : Does (idle disk) hardware
is_idle = (refl, λ w. omega arith)

abbrev payload : List ℕ
payload = 7 ∷ 8 ∷ 9 ∷ []

-- 256 sectors, whose bytes the read leaves at 5
abbrev large : List ℕ
large = replicate 131072 5

large-length : length large ≡ 131072
large-length = length-replicate {A = ℕ} 131072 5

whole_drive : (drive.position % 512 + length large + 511) / 512 % 256 ≡ 0
whole_drive = ap (λ n. (drive.position % 512 + n + 511) / 512 % 256) large-length

read-nothing_example :
    (s' : Simulated) × (read 1 simulated_ports drive large hardware
      ≡ done (length large, large, record drive { position = drive.position + length large }) s')
read-nothing_example =
    read-nothing 1 simulated_ports drive simulated disk large hardware
      (rw large-length (omega arith)) whole_drive is_idle

read-empty_panics_example : read 1 simulated_ports at_101 [] hardware ≡ panicked
read-empty_panics_example =
    read-empty_panics 1 simulated_ports at_101 simulated disk hardware refl (omega arith) is_idle

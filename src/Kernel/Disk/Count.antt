-- ===== src/Kernel/Disk/Count.antt =====
-- kernel/src/drivers/disk/ata_pio.rs: how many sectors a transfer asks for.
use yacuri.Base.{ℕ, ◌+◌, ◌*◌, ◌/◌, ◌%◌, ◌≤◌, ◌<◌, ◌≡◌, ◌∙◌, arith}
use yacuri.Base.Bits.{bit_and-sector}
use yacuri.Kernel.Disk.Drive.{AtaDrive, min_required_sector_count}

-- A transfer of at least one byte asks for the sectors that the bytes touch, which are the offset
-- in the first sector and the length, rounded up to whole sectors, in a byte that wraps around.
pub min_required_sector_count_lem :
    (d : AtaDrive) (bytes : ℕ)
    → 0 < bytes
    → min_required_sector_count d bytes ≡ (d.position % 512 + bytes + 511) / 512 % 256
unfolding min_required_sector_count
min_required_sector_count_lem d bytes pos =
    ground (arith, bit_and-sector d.position, bit_and-sector bytes)

-- Without the wrap-around, for 253 sectors at most.
pub min_required_sector_count-exact :
    (d : AtaDrive) (bytes : ℕ)
    → 0 < bytes
    → bytes ≤ 253 * 512
    → min_required_sector_count d bytes ≡ (d.position % 512 + bytes + 511) / 512
min_required_sector_count-exact d bytes pos small =
    min_required_sector_count_lem d bytes pos ∙ omega arith

-- An empty transfer asks for a sector none the less.
pub min_required_sector_count-zero : (d : AtaDrive) → min_required_sector_count d 0 ≡ 1
unfolding min_required_sector_count
min_required_sector_count-zero d = ground (arith, bit_and-sector d.position)

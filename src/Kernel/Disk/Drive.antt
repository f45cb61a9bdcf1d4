-- ===== src/Kernel/Disk/Drive.antt =====
-- kernel/src/drivers/disk/ata_pio.rs: the driver's state and operations.
-- Ports are `u16` and sector counts `u8`, with their wrap-around written out.
use Prim.Native.Nat.{bit_and}
use yacuri.Base.{
  ℕ, zero, suc, ◌+◌, ◌*◌, ◌/◌, ◌%◌, ◌^◌, Bool, true, false, not, ◌&&◌, Option, none, some, List, [],
  ◌∷◌, if◌then◌else◌, ltb, ◌==◌, length, get_elem?, set, ℤ, pos, negsuc, sub_ℕ, ◌+ℤ◌,
}

-- `AtaDrive`
pub record AtaDrive : Type 0 where
  pub io_base : ℕ
  pub control_base : ℕ
  pub position : ℕ

-- `StatusBits`, by its masks
abbrev pub busy : ℕ
busy = 0x80

abbrev pub rw_ready : ℕ
rw_ready = 0x08

-- `Command`
abbrev pub read_command : ℕ
read_command = 0x20

abbrev pub write_command : ℕ
write_command = 0x30

abbrev pub cache_flush : ℕ
cache_flush = 0xE7

-- `IoPort`, by its discriminants
abbrev pub data_port : ℕ
data_port = 0

abbrev pub sector_count_port : ℕ
sector_count_port = 2

abbrev pub lba_low : ℕ
lba_low = 3

abbrev pub lba_mid : ℕ
lba_mid = 4

abbrev pub lba_high : ℕ
lba_high = 5

abbrev pub drive_sel : ℕ
drive_sel = 6

abbrev pub status_port : ℕ
status_port = 7

-- `StatusBits::is_set`
abbrev pub is_set : ℕ → ℕ → Bool
is_set mask val = not (bit_and val mask == 0)

-- `io_port` and `io_port_16`
abbrev pub io_port : AtaDrive → ℕ → ℕ
io_port d port = (d.io_base + port) % 2 ^ 16

-- `con_port`
abbrev pub con_port : AtaDrive → ℕ → ℕ
con_port d port = (d.control_base + port) % 2 ^ 16

unfoldable pub calc_lba : AtaDrive → ℕ
calc_lba d = d.position / 512

unfoldable pub is_sector_aligned : ℕ → Bool
is_sector_aligned value = bit_and value 511 == 0

unfoldable pub pos_aligned : AtaDrive → Bool
unfolding is_sector_aligned
pos_aligned d = is_sector_aligned d.position

abbrev pub as_u8 : Bool → ℕ
as_u8 true = 1
as_u8 false = 0

-- `min_required_sector_count`
unfoldable pub min_required_sector_count : AtaDrive → ℕ → ℕ
unfolding pos_aligned
min_required_sector_count d bytes =
    let sector_aligned : Bool = is_sector_aligned bytes && not (bytes == 0) in
    let bleeds_into_next : Bool =
      if sector_aligned
      then not (pos_aligned d)
      else ltb 512 (bit_and d.position 511 + bit_and bytes 511) in
    (bytes / 512 % 256 + as_u8 bleeds_into_next + as_u8 (not sector_aligned)) % 256

-- The index into the buffer of the word `word` of sector `sector`, an `i64`.
abbrev pub index_of : ℕ → ℕ → ℕ → ℤ
index_of sector word offset = sub_ℕ ((sector * 256 + word) * 2) offset

-- The bytes of a word, low and high.
abbrev pub low : ℕ → ℕ
low w = w % 256

abbrev pub high : ℕ → ℕ
high w = w / 256 % 256

-- One round of the inner loop of `read`: where the word goes. Only `buf[0]` is not guarded.
unfoldable pub place : ℤ → ℕ → List ℕ → Option (List ℕ)
place (negsuc zero) w [] = none
place (negsuc zero) w (b ∷ bs) = some (high w ∷ bs)
place (negsuc (suc n)) w buf = some buf
place (pos i) w buf =
    if ltb (i + 1) (length buf)
    then some (set (set buf i (low w)) (i + 1) (high w))
    else if ltb i (length buf)
    then some (set buf i (low w))
    else some buf

abbrev pub option_bind : {A B : Type 0} → Option A → (A → Option B) → Option B
option_bind none f = none
option_bind (some a) f = f a

-- `start_sector.unwrap()[word]`
abbrev pub word_of : Option (List ℕ) → ℕ → Option ℕ
word_of sector word = option_bind sector λ words. get_elem? words word

-- One round of the inner loop of `write`: the word that goes out.
unfoldable pub to_write : ℤ → ℕ → List ℕ → Option (List ℕ) → Option (List ℕ) → Option ℕ
to_write (negsuc zero) word buf start_sector end_sector =
    option_bind (word_of start_sector word)
      λ w. option_bind (get_elem? buf 0) λ b. some (bit_and w 255 + b * 256)
to_write (negsuc (suc n)) word buf start_sector end_sector = word_of start_sector word
to_write (pos i) word buf start_sector end_sector =
    if ltb (i + 1) (length buf)
    then (option_bind (get_elem? buf i)
        λ b. option_bind (get_elem? buf (i + 1)) λ b'. some (b + b' * 256))
    else if ltb i (length buf)
    then (option_bind (get_elem? buf i)
        λ b. option_bind (word_of end_sector word) λ w. some (b + bit_and w 0xFF00))
    else word_of end_sector word

-- `SeekFrom` of the fatfs crate
pub data SeekFrom : Type 0 where
  start : ℕ → SeekFrom
  current : ℤ → SeekFrom
  end : ℤ → SeekFrom

abbrev seek_to : AtaDrive → ℤ → Option ℕ × AtaDrive
seek_to d (pos n) = (some n, record d { position = n })
seek_to d (negsuc n) = (none, d)

-- `seek`; `none` is `Err(())`. Positions lie below 2 ^ 63.
unfoldable pub seek : AtaDrive → SeekFrom → Option ℕ × AtaDrive
seek d (start n) = (some n, record d { position = n })
seek d (current by) = seek_to d (pos d.position +ℤ by)
seek d (end by) = (none, d)

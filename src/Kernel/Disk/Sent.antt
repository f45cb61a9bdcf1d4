-- ===== src/Kernel/Disk/Sent.antt =====
-- kernel/src/drivers/disk/ata_pio.rs: the word that each round of `write` sends.
use yacuri.Base.{
  ℕ, zero, suc, ◌+◌, ◌-◌, ◌*◌, ◌/◌, ◌%◌, ◌≤◌, ◌<◌, ◌≡◌, ◌≢◌, ◌&&◌, Option, some, List, arith,
  if◌then◌else◌, ltb, leb, length, get_or, get_elem?, get_elem?-in_range, Bool-cases, inl, inr, pos,
  negsuc, sub_ℕ, ap, ◌∙◌,
}
use yacuri.Base.Bits.{bit_and-byte, bit_and-high_byte}
use yacuri.Kernel.Disk.Drive.{low, high, to_write}
use yacuri.Kernel.Disk.Protocol.{Words}
use yacuri.Kernel.Disk.Place.{byte, byte-even, byte-odd}

-- The bytes of the disk once the buffer is written at the position.
abbrev pub overlaid : Words → ℕ → List ℕ → ℕ → ℕ
overlaid disk position buf a =
    if leb position a && ltb a (position + length buf)
    then get_or buf (a - position) 0
    else byte disk a

abbrev pub AreBytes : List ℕ → Type 0
AreBytes buf = (j : ℕ) → j < length buf → get_or buf j 0 < 256

-- Where the address is inside a sector, the sector that was read holds its words.
abbrev pub Kept : Words → ℕ → Option (List ℕ) → Type 0
Kept disk a sector =
    a % 512 ≢ 0
    → (words : List ℕ) × (sector ≡ some words)
      × ((i : ℕ) → i < 256 → get_elem? words i ≡ some (disk (a / 512 * 256 + i)))

-- A word that carries the new bytes of the two addresses of word `w`.
pub record Carries (disk : Words) (position : ℕ) (buf : List ℕ) (w value : ℕ) : Type 0 where
  pub fits : value < 65536
  pub low_byte : low value ≡ overlaid disk position buf (w * 2)
  pub high_byte : high value ≡ overlaid disk position buf (w * 2 + 1)

module _ (disk : Words) (disk_fits : (w : ℕ) → disk w < 65536) (position : ℕ) (buf : List ℕ)
    (are_bytes : AreBytes buf) (not_empty : 0 < length buf)
    (start_sector end_sector : Option (List ℕ)) (start_kept : Kept disk position start_sector)
    (end_kept : Kept disk (position + length buf) end_sector) where
  abbrev Sends : (sector word : ℕ) → Option ℕ → Type 0
  Sends sector word sent =
      (value : ℕ) × (sent ≡ some value)
      × Carries disk position buf (position / 512 * 256 + (sector * 256 + word)) value

  straddle-Sends :
      (word : ℕ)
      → word < 256
      → position % 512 ≡ word * 2 + 1
      → Sends 0 word (to_write (negsuc 0) word buf start_sector end_sector)
  unfolding to_write
  straddle-Sends word small e =
      let (words, is_some, holds) = start_kept (omega arith) in
      let x = disk (position / 512 * 256 + word) in
      let b = get_or buf 0 0 in
      (
        x % 256 + b * 256,
        rw (is_some, holds word small, get_elem?-in_range buf 0 0 not_empty, bit_and-byte),
        record {
          fits = omega (arith, are_bytes 0 not_empty);
          low_byte = ground (
            arith,
            byte-even disk ((position / 512 * 256 + (0 * 256 + word)) * 2)
                (position / 512 * 256 + word),
          );
          high_byte = ground (arith, are_bytes 0 not_empty);
        },
      )

  before-Sends :
      (word n : ℕ)
      → word < 256
      → position % 512 ≡ word * 2 + 2 + n
      → Sends 0 word (to_write (negsuc (suc n)) word buf start_sector end_sector)
  unfolding to_write
  before-Sends word n small e =
      let (words, is_some, holds) = start_kept (omega arith) in
      let at_word = position / 512 * 256 + (0 * 256 + word) in
      let same : position / 512 * 256 + word ≡ at_word = omega arith in
      (
        disk at_word,
        rw (is_some, holds word small) (ap (λ w. some (disk w)) same),
        record {
          fits = disk_fits at_word;
          low_byte = ground (arith, byte-even disk (at_word * 2) at_word);
          high_byte = ground (arith, byte-odd disk (at_word * 2 + 1) at_word);
        },
      )

  -- Where the transfer's last sector goes on behind the buffer, its words were read.
  ends-kept :
      (sector word : ℕ)
      → word < 256
      → sector * 512 < position % 512 + length buf
      → position % 512 + length buf ≤ (sector * 256 + word) * 2 + 1
      → (words : List ℕ) × (end_sector ≡ some words)
        × (get_elem? words word ≡ some (disk (position / 512 * 256 + (sector * 256 + word))))
  ends-kept sector word small inside beyond =
      let (words, is_some, holds) = end_kept (omega arith) in
      let same : (position + length buf) / 512 * 256 + word
          ≡ position / 512 * 256 + (sector * 256 + word) =
        omega arith in
      (words, is_some, holds word small ∙ ap (λ w. some (disk w)) same)

  inside-Sends :
      (sector word i : ℕ)
      → word < 256
      → (sector * 256 + word) * 2 ≡ position % 512 + i
      → sector * 512 < position % 512 + length buf
      → Sends sector word (to_write (pos i) word buf start_sector end_sector)
  unfolding to_write
  inside-Sends sector word i small e inside =
      let at_word = position / 512 * 256 + (sector * 256 + word) in
      let at_low : at_word * 2 ≡ position + i = omega arith in
      elim (Bool-cases (ltb (i + 1) (length buf))) [
        | inl both ↦
            let lt : i + 1 < length buf = ground arith in
            let b = get_or buf i 0 in
            let b' = get_or buf (i + 1) 0 in
            (
              b + b' * 256,
              rw both (
                  rw (
                    get_elem?-in_range buf i 0 (omega arith),
                    get_elem?-in_range buf (i + 1) 0 lt,
                  )),
              record {
                fits = omega (arith, are_bytes i (omega arith), are_bytes (i + 1) lt);
                low_byte = rw at_low (ground (arith, are_bytes i, here i));
                high_byte = rw at_low (ground (arith, are_bytes (i + 1), are_bytes i, here_next i));
              },
            )
        | inr short ↦ elim (Bool-cases (ltb i (length buf))) [
          | inl one ↦
              let lt : i < length buf = ground arith in
              let (words, is_some, holds) = ends-kept sector word small inside (ground arith) in
              let b = get_or buf i 0 in
              (
                b + disk at_word / 256 * 256,
                rw short (
                    rw one (
                      rw (
                        get_elem?-in_range buf i 0 lt,
                        is_some,
                        holds,
                        bit_and-high_byte (disk at_word) (disk_fits at_word),
                      ))),
                record {
                  fits = omega (arith, are_bytes i lt, disk_fits at_word);
                  low_byte = rw at_low (ground (arith, are_bytes i, here i));
                  high_byte = ground (
                    arith,
                    are_bytes i,
                    disk_fits at_word,
                    byte-odd disk (at_word * 2 + 1) at_word,
                  );
                },
              )
          | inr past ↦
              let (words, is_some, holds) = ends-kept sector word small inside (ground arith) in
              (
                disk at_word,
                rw short (rw past (rw (is_some, holds))),
                record {
                  fits = disk_fits at_word;
                  low_byte = ground (arith, byte-even disk (at_word * 2) at_word);
                  high_byte = ground (arith, byte-odd disk (at_word * 2 + 1) at_word);
                },
              )
        ]
      ]
    where
      here : (i : ℕ) → position + i - position ≡ i
      here i = omega arith

      here_next : (i : ℕ) → position + i + 1 - position ≡ i + 1
      here_next i = omega arith

  -- Every word of the transfer can be sent, and carries the new bytes of its two addresses: the
  -- buffer's where they fall inside it, the disk's elsewhere.
  pub to_write-Carries :
      (sector word : ℕ)
      → word < 256
      → sector * 512 < position % 512 + length buf
      → Sends sector word (
          to_write
            (sub_ℕ ((sector * 256 + word) * 2) (position % 512))
            word
            buf
            start_sector
            end_sector)
  to_write-Carries sector word small inside =
      elim (Bool-cases (leb (position % 512) ((sector * 256 + word) * 2))) [
        | inl after ↦ rw after (inside-Sends sector word _ small (ground arith) inside)
        | inr before ↦ rw before (go sector (ground arith) _ (ground arith))
      ]
    where
      go :
          (sector' : ℕ)
          → sector' ≡ 0
          → (n : ℕ) → position % 512 ≡ (sector' * 256 + word) * 2 + 1 + n
          → Sends sector' word (to_write (negsuc n) word buf start_sector end_sector)
      go (suc k) z n e = absurd (omega arith)
      go zero z zero e = straddle-Sends word small (omega arith)
      go zero z (suc n) e = before-Sends word n small (omega arith)

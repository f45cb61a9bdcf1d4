-- ===== src/Kernel/Disk/Place.antt =====
-- kernel/src/drivers/disk/ata_pio.rs: the loops of `read` fill the buffer with the disk's bytes.
use yacuri.Base.{
  ℕ, zero, suc, ◌+◌, ◌-◌, ◌*◌, ◌/◌, ◌%◌, ◌<◌, ◌≡◌, refl, some, List, [], ◌∷◌, arith, if◌then◌else◌,
  ltb, leb, ◌==◌, length, get_or, set, length-set, get_or-set, Bool-cases, inl, inr, pos, negsuc,
  sub_ℕ, ap, ◌∙◌,
}
use yacuri.Kernel.Disk.Drive.{low, high, place}
use yacuri.Kernel.Disk.Protocol.{Words}

-- The byte at an address of the disk: its words hold the low byte first.
abbrev pub byte : Words → ℕ → ℕ
byte disk a = if a % 2 == 0 then low (disk (a / 2)) else high (disk (a / 2))

pub byte-even : (disk : Words) (a w : ℕ) → a ≡ w * 2 → byte disk a ≡ low (disk w)
byte-even disk a w e = ground (arith, ap disk half)
  where
    half : a / 2 ≡ w
    half = omega arith

pub byte-odd : (disk : Words) (a w : ℕ) → a ≡ w * 2 + 1 → byte disk a ≡ high (disk w)
byte-odd disk a w e = ground (arith, ap disk half)
  where
    half : a / 2 ≡ w
    half = omega arith

-- What `place` does to the buffer: the word's bytes go where its two addresses fall.
pub record Placed (k offset w : ℕ) (buf buf' : List ℕ) : Type 0 where
  pub same_length : length buf' ≡ length buf
  pub bytes :
      (j : ℕ)
      → j < length buf
      → get_or buf' j 0 ≡ (
          if offset + j == k * 2
          then low w
          else if offset + j == k * 2 + 1
          then high w
          else get_or buf j 0)

place-ahead :
    (k offset w : ℕ) (buf : List ℕ)
    → 0 < length buf
    → offset ≡ k * 2 + 1
    → (buf' : List ℕ) × (place (negsuc 0) w buf ≡ some buf') × Placed k offset w buf buf'
unfolding place
place-ahead k offset w [] h e = elim h [ ]
place-ahead k offset w (b ∷ bs) h e = (high w ∷ bs, refl, record { same_length = refl; bytes = go })
  where
    go :
        (j : ℕ)
        → j < length (b ∷ bs)
        → get_or (high w ∷ bs) j 0 ≡ (
            if offset + j == k * 2
            then low w
            else if offset + j == k * 2 + 1
            then high w
            else get_or (b ∷ bs) j 0)
    go zero lt = ground arith
    go (suc j) lt = ground arith

place-inside :
    (k offset w i : ℕ) (buf : List ℕ)
    → k * 2 ≡ offset + i
    → (buf' : List ℕ) × (place (pos i) w buf ≡ some buf') × Placed k offset w buf buf'
unfolding place
place-inside k offset w i buf e = elim (Bool-cases (ltb (i + 1) (length buf))) [
  | inl both ↦ (
    set (set buf i (low w)) (i + 1) (high w),
    rw both,
    record {
      same_length = length-set (set buf i (low w)) (i + 1) (high w) ∙ length-set buf i (low w);
      bytes = λ j lt. ground (
        arith,
        length-set buf i (low w),
        get_or-set (set buf i (low w)) (i + 1) (high w) j 0,
        get_or-set buf i (low w) j 0,
      );
    },
  )
  | inr short ↦ elim (Bool-cases (ltb i (length buf))) [
    | inl one ↦ (
      set buf i (low w),
      rw short (rw one),
      record {
        same_length = length-set buf i (low w);
        bytes = λ j lt. ground (arith, get_or-set buf i (low w) j 0);
      },
    )
    | inr none_left ↦
        (buf, rw short (rw none_left), record { same_length = refl; bytes = λ j lt. ground arith })
  ]
]

-- Every word of a transfer into a buffer that is not empty finds its place.
pub place-Placed :
    (k offset w : ℕ) (buf : List ℕ)
    → 0 < length buf
    → (buf' : List ℕ) × (place (sub_ℕ (k * 2) offset) w buf ≡ some buf')
      × Placed k offset w buf buf'
place-Placed k offset w buf h = elim (Bool-cases (leb offset (k * 2))) [
  | inl inside ↦ rw inside (place-inside k offset w (k * 2 - offset) buf (ground arith))
  | inr before ↦ rw before (go (offset - k * 2 - 1) (ground arith))
]
  where
    go :
        (n : ℕ)
        → offset ≡ k * 2 + 1 + n
        → (buf' : List ℕ) × (place (negsuc n) w buf ≡ some buf') × Placed k offset w buf buf'
    go zero e = place-ahead k offset w buf h (omega arith)
    go (suc n) e =
        (buf, unfold place in refl, record { same_length = refl; bytes = λ j lt. ground arith })

-- ===== src/Kernel/Disk/Sector.antt =====
-- kernel/src/drivers/disk/ata_pio.rs: `read_sector`, and the sectors that a write keeps in part.
use yacuri.Base.{
  ℕ, zero, suc, ◌+◌, ◌*◌, ◌/◌, ◌^◌, ◌<◌, ◌≡◌, refl, subst, ap, ◌∙◌, Option, none, some, List, [],
  ◌∷◌, arith, get_elem?, Bool-cases, inl, inr,
}
use yacuri.Base.Bits.{bit_and-sector}
use yacuri.Kernel.Disk.Ports.{Ports, done}
use yacuri.Kernel.Disk.Drive.{AtaDrive, io_port, data_port, pos_aligned}
use yacuri.Kernel.Disk.Transfer.{
  take_words, read_sector, read_sector_if_unaligned, get_partial_write_sectors,
}
use yacuri.Kernel.Disk.Protocol.{Words, idle, reading, reads, Protocol}
use yacuri.Kernel.Disk.Sent.{Kept}
use yacuri.Kernel.Disk.Wait.{wait_ready-Doing, reading_starts}

-- The words from `next` on.
abbrev Holds : Words → ℕ → ℕ → List ℕ → Type 0
Holds disk next n words = (i : ℕ) → i < n → get_elem? words i ≡ some (disk (next + i))

cons-Holds :
    (disk : Words) (next n w : ℕ) (words : List ℕ)
    → w ≡ disk next
    → Holds disk (next + 1) n words
    → Holds disk next (suc n) (w ∷ words)
cons-Holds disk next n w words e h zero lt = ap some (e ∙ ap disk same)
  where
    same : next ≡ next + 0
    same = omega arith
cons-Holds disk next n w words e h (suc i) lt = h i (omega arith) ∙ ap (λ k. some (disk k)) same
  where
    same : next + 1 + i ≡ next + suc i
    same = omega arith

module _ (polls : ℕ) (ports : Ports) (d : AtaDrive)
    (protocol : Protocol polls ports (io_port d)) where
  open ports use {State}
  open protocol use {Doing}

  take_words-Holds :
      (n next m left : ℕ) (disk : Words) (s : State)
      → m ≡ n + left
      → Doing (reading disk next m) s
      → (words : List ℕ) × (s' : State) × (take_words polls ports n d s ≡ done words s')
        × Holds disk next n words
        × Doing (reading disk (next + n) left) s'
  unfolding take_words
  take_words-Holds zero next m left disk s count doing = (
    [],
    s,
    refl,
    (λ i lt. elim lt [ ]),
    subst (λ (a, b). Doing (reading disk a b) s) (λ i. (here i, rest i)) doing,
  )
    where
      here : next ≡ next + 0
      here = omega arith

      rest : m ≡ left
      rest = omega arith
  take_words-Holds (suc n) next m left disk s count doing =
      let (is_word, doing₁) =
        protocol.gives (subst (λ b. Doing (reading disk next b) s) more doing) in
      let (words, s', e, holds, doing₂) =
        take_words-Holds n (next + 1) (n + left) left disk _ refl doing₁ in
      (
        (ports.read_16 (io_port d data_port) s).0 ∷ words,
        s',
        rw e,
        cons-Holds disk next n _ words is_word holds,
        subst (λ a. Doing (reading disk a left) s') (omega arith) doing₂,
      )
    where
      more : m ≡ suc (n + left)
      more = omega arith

  read_sector-Holds :
      (disk : Words) (s : State)
      → d.position < 2 ^ 37
      → Doing (idle disk) s
      → (words : List ℕ) × (s' : State) × (read_sector polls ports d s ≡ done words s')
        × Holds disk (d.position / 512 * 256) 256 words
        × Doing (idle disk) s'
  unfolding read_sector
  read_sector-Holds disk s in_range doing =
      let (s₁, e₁, doing₁) =
        reading_starts polls ports d protocol {disk = disk} {s = s} 1 in_range (omega arith)
          (omega arith) doing in
      let (s₂, e₂, doing₂) = wait_ready-Doing polls ports d protocol (reads disk _ 255) doing₁ in
      let (words, s₃, e₃, holds, doing₃) = take_words-Holds 256 _ 256 0 disk s₂ refl doing₂ in
      (words, s₃, rw (e₁, e₂) e₃, holds, protocol.ends_reading doing₃)

  -- At an address inside a sector its words are read, at a sector's start nothing is.
  pub read_sector_if_unaligned-Kept :
      (disk : Words) (s : State)
      → d.position < 2 ^ 37
      → Doing (idle disk) s
      → (sector : Option (List ℕ)) × (s' : State) × (read_sector_if_unaligned polls ports d s
          ≡ done sector s')
        × Kept disk d.position sector
        × Doing (idle disk) s'
  unfolding read_sector_if_unaligned pos_aligned
  read_sector_if_unaligned-Kept disk s in_range doing = elim (Bool-cases (pos_aligned d)) [
    | inl aligned ↦ (
      none,
      s,
      rw aligned,
      (λ ne. absurd (ne (ground (arith, bit_and-sector d.position, aligned)))),
      doing,
    )
    | inr unaligned ↦
        let (words, s', e, holds, doing') = read_sector-Holds disk s in_range doing in
        (some words, s', rw unaligned (rw e), (λ ne. (words, refl, holds)), doing')
  ]

module _ (polls : ℕ) (ports : Ports) (d : AtaDrive)
    (protocol : Protocol polls ports (io_port d)) where
  open ports use {State}
  open protocol use {Doing}

  -- The sectors at both ends of a write are read where it covers them in part.
  pub get_partial_write_sectors-Kept :
      (disk : Words) (len : ℕ) (s : State)
      → d.position + len < 2 ^ 37
      → Doing (idle disk) s
      → (start_sector : Option (List ℕ)) × (end_sector : Option (List ℕ)) × (s' : State)
        × (get_partial_write_sectors polls ports d len s ≡ done (start_sector, end_sector) s')
        × Kept disk d.position start_sector
        × Kept disk (d.position + len) end_sector
        × Doing (idle disk) s'
  unfolding get_partial_write_sectors
  get_partial_write_sectors-Kept disk len s in_range doing =
      let (start_sector, s₁, e₁, kept₁, doing₁) =
        read_sector_if_unaligned-Kept polls ports d protocol disk s (omega arith) doing in
      let (end_sector, s₂, e₂, kept₂, doing₂) =
        read_sector_if_unaligned-Kept polls ports (record d { position = d.position + len })
          protocol disk s₁ in_range doing₁ in
      (start_sector, end_sector, s₂, rw (e₁, e₂), kept₁, kept₂, doing₂)

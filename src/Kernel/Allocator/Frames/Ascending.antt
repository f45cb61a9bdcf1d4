-- ===== src/Kernel/Allocator/Frames/Ascending.antt =====
-- kernel/src/allocator/memory.rs: the usable frames lie apart, in the order of the memory map.
use yacuri.Base.{
  ℕ, zero, suc, ◌+◌, ◌-◌, ◌*◌, ◌/◌, ◌%◌, ◌≤◌, ◌<◌, ◌≡◌, sym, subst, arith, some, List, [], ◌∷◌,
  ◌++◌, get_elem?,
}
use yacuri.Kernel.Allocator.Frames.{
  MemoryRegionKind, usable, other, MemoryRegion, frame_size, step_by, containing_address,
  frames_of_range, frames_of, usable_frames,
}

-- What the bootloader promises of a memory map, from an address on: the regions are made of whole
-- frames, and follow each other.
abbrev pub IsOrdered : ℕ → List MemoryRegion → Type 0
IsOrdered low [] = Unit
IsOrdered low (region ∷ regions) =
    (low ≤ region.start)
    × (region.start ≤ region.end)
    × (region.start % frame_size ≡ 0)
    × (region.end % frame_size ≡ 0)
    × IsOrdered region.end regions

-- Frames in ascending order, apart from each other, from one address to another.
abbrev pub Ascends : ℕ → List ℕ → ℕ → Type 0
Ascends low [] high = low ≤ high
Ascends low (frame ∷ frames) high = (low ≤ frame) × Ascends (frame + frame_size) frames high

Ascends-append :
    (low middle high : ℕ) (xs ys : List ℕ)
    → Ascends low xs middle
    → Ascends middle ys high
    → Ascends low (xs ++ ys) high
Ascends-append low middle high [] [] le p = omega arith
Ascends-append low middle high [] (y ∷ ys) le (at_y, p) = (omega arith, p)
Ascends-append low middle high (x ∷ xs) ys (at_x, q) p =
    (at_x, Ascends-append (x + frame_size) middle high xs ys q p)

frames_of_range-Ascends :
    (n start end : ℕ)
    → start % frame_size ≡ 0
    → end ≡ start + n * frame_size
    → Ascends start (frames_of_range (step_by n start)) end
frames_of_range-Ascends zero start end aligned h = omega arith
frames_of_range-Ascends (suc n) start end aligned h =
    let same : containing_address start ≡ start = omega arith in
    (
      omega arith,
      subst (λ a. Ascends (a + frame_size) (frames_of_range (step_by n (start + frame_size))) end)
          (sym same)
          (frames_of_range-Ascends n (start + frame_size) end (omega arith) (omega arith)),
    )

frames_of-Ascends :
    (region : MemoryRegion) (kind : MemoryRegionKind)
    → region.start ≤ region.end
    → region.start % frame_size ≡ 0
    → region.end % frame_size ≡ 0
    → Ascends region.start (frames_of region kind) region.end
frames_of-Ascends region usable le start_aligned end_aligned =
    frames_of_range-Ascends ((region.end - region.start + (frame_size - 1)) / frame_size)
      region.start region.end start_aligned (omega arith)
frames_of-Ascends region other le start_aligned end_aligned = le

abbrev pub map_end : ℕ → List MemoryRegion → ℕ
map_end low [] = low
map_end low (region ∷ regions) = map_end region.end regions

-- The frames that are handed out lie apart, in ascending order, where the memory map is made of
-- whole frames in order.
pub usable_frames-Ascends :
    (low : ℕ) (regions : List MemoryRegion)
    → IsOrdered low regions
    → Ascends low (usable_frames regions) (map_end low regions)
unfolding usable_frames
usable_frames-Ascends low [] ordered = omega arith
usable_frames-Ascends low (region ∷ regions) (after, le, start_aligned, end_aligned, ordered) =
    let here = frames_of-Ascends region region.kind le start_aligned end_aligned in
    Ascends-append low region.start (map_end region.end regions) []
      (frames_of region region.kind ++ usable_frames regions) after
      (Ascends-append region.start region.end (map_end region.end regions)
        (frames_of region region.kind) (usable_frames regions) here
        (usable_frames-Ascends region.end regions ordered))

some-injective : (a b : ℕ) → some a ≡ some b → a ≡ b
some-injective a b e = ground (arith, e)

-- A frame lies above the bound, and a later one behind it.
pub Ascends-at :
    (low high : ℕ) (frames : List ℕ) (i f : ℕ)
    → Ascends low frames high
    → get_elem? frames i ≡ some f
    → low ≤ f
Ascends-at low high [] i f ascends h = absurd (ground (arith, h))
Ascends-at low high (x ∷ frames) zero f (at_x, ascends) h = omega (arith, some-injective x f h)
Ascends-at low high (x ∷ frames) (suc i) f (at_x, ascends) h =
    omega (arith, Ascends-at (x + frame_size) high frames i f ascends h)

pub Ascends-apart :
    (low high : ℕ) (frames : List ℕ) (i j f g : ℕ)
    → Ascends low frames high
    → i < j
    → get_elem? frames i ≡ some f
    → get_elem? frames j ≡ some g
    → f + frame_size ≤ g
Ascends-apart low high [] i j f g ascends lt at_i at_j = absurd (ground (arith, at_i))
Ascends-apart low high (x ∷ frames) i zero f g ascends lt at_i at_j = absurd (omega arith)
Ascends-apart low high (x ∷ frames) zero (suc j) f g (at_x, ascends) lt at_i at_j =
    omega (arith, some-injective x f at_i, Ascends-at (x + frame_size) high frames j g ascends at_j)
Ascends-apart low high (x ∷ frames) (suc i) (suc j) f g (at_x, ascends) lt at_i at_j =
    Ascends-apart (x + frame_size) high frames i j f g ascends (omega arith) at_i at_j

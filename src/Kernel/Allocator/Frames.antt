-- ===== src/Kernel/Allocator/Frames.antt =====
-- kernel/src/allocator/memory.rs and mod.rs: the frames of the memory map, and the pages of the heap.
pub mod Ascending
pub mod Mapping
mod Tests
use yacuri.Base.{
  ℕ, zero, suc, ◌+◌, ◌-◌, ◌*◌, ◌/◌, ◌%◌, Option, none, some, List, [], ◌∷◌, ◌++◌, get_elem?,
}

-- `MemoryRegionKind` of the bootloader crate, as far as the code tells its values apart
pub data MemoryRegionKind : Type 0 where
  usable other : MemoryRegionKind

-- `MemoryRegion`, from its first byte to behind its last
pub record MemoryRegion : Type 0 where
  pub start : ℕ
  pub end : ℕ
  pub kind : MemoryRegionKind

abbrev pub frame_size : ℕ
frame_size = 4096

-- `(start..end).step_by(4096)`, of `n` numbers
abbrev pub step_by : ℕ → ℕ → List ℕ
step_by zero start = []
step_by (suc n) start = start ∷ step_by n (start + frame_size)

-- `PhysFrame::containing_address`, by the frame's start
abbrev pub containing_address : ℕ → ℕ
containing_address address = address - address % frame_size

abbrev pub frames_of_range : List ℕ → List ℕ
frames_of_range [] = []
frames_of_range (address ∷ addresses) = containing_address address ∷ frames_of_range addresses

abbrev pub frames_of : MemoryRegion → MemoryRegionKind → List ℕ
frames_of region usable =
    frames_of_range
      (step_by ((region.end - region.start + (frame_size - 1)) / frame_size) region.start)
frames_of region other = []

unfoldable pub usable_frames : List MemoryRegion → List ℕ
usable_frames [] = []
usable_frames (region ∷ regions) = frames_of region region.kind ++ usable_frames regions

-- `BootInfoFrameAllocator`
pub record BootInfoFrameAllocator : Type 0 where
  pub memory_map : List MemoryRegion
  pub next : ℕ

-- `BootInfoFrameAllocator::init`
abbrev pub init : List MemoryRegion → BootInfoFrameAllocator
init memory_map = record { memory_map = memory_map; next = 0 }

unfoldable pub allocate_frame : BootInfoFrameAllocator → Option ℕ × BootInfoFrameAllocator
allocate_frame allocator = (
  get_elem? (usable_frames allocator.memory_map) allocator.next,
  record allocator { next = allocator.next + 1 },
)

-- `Mapper::map_to` and its flush, of the x86_64 crate: it takes frames for its tables too.
pub record Mapper : Type 1 where
  pub State : Type 0
  pub Error : Type 0
  pub map_to :
      (page frame : ℕ)
      → State
      → BootInfoFrameAllocator
      → Option Error × State × BootInfoFrameAllocator

-- `Result<(), MapToError<Size4KiB>>`
pub data Mapped (E : Type 0) : Type 0 where
  ok frame_allocation_failed : Mapped E
  failed : E → Mapped E

module _ (mapper : Mapper) where
  abbrev pub Result : Type 0
  Result = Mapped mapper.Error × mapper.State × BootInfoFrameAllocator

  -- `.ok_or(MapToError::FrameAllocationFailed)?`
  abbrev pub or_fail : Option ℕ → (ℕ → Result) → mapper.State × BootInfoFrameAllocator → Result
  or_fail none go (s, allocator) = (frame_allocation_failed, s, allocator)
  or_fail (some frame) go s = go frame

  -- `map_to(…)?`
  abbrev pub and_go :
      Option mapper.Error
      → (mapper.State × BootInfoFrameAllocator → Result)
      → mapper.State × BootInfoFrameAllocator
      → Result
  and_go none go s = go s
  and_go (some e) go (s, allocator) = (failed e, s, allocator)

  -- `for page in page_range`, with `n` pages to go
  unfoldable pub map_pages : (n page : ℕ) → mapper.State × BootInfoFrameAllocator → Result
  map_pages zero page (s, allocator) = (ok, s, allocator)
  map_pages (suc n) page (s, allocator) =
      let got = allocate_frame allocator in
      or_fail got.0
        (λ frame.
          let mapped = mapper.map_to page frame s got.1 in
          and_go mapped.0 (map_pages n (page + 1)) (mapped.1, mapped.2))
        (s, got.1)

  -- `prepare_pages`; a page is its number.
  unfoldable pub prepare_pages :
      (heap_start heap_size : ℕ) → mapper.State × BootInfoFrameAllocator → Result
  prepare_pages heap_start heap_size =
      let start_page = heap_start / frame_size in
      let end_page = (heap_start + heap_size - 1) / frame_size in
      map_pages (end_page + 1 - start_page) start_page

-- ===== src/Kernel/Allocator/Bump.antt =====
-- kernel/src/allocator/bump.rs: the bump allocator.
pub mod Live
use yacuri.Base.{ℕ, ◌+◌, ◌-◌, ◌%◌, ◌^◌, Option, none, some, if◌then◌else◌, ltb, ◌==◌}
use yacuri.Kernel.Allocator.Layout.{Layout, align_up}

-- `BumpAllocator`
pub record BumpAllocator : Type 0 where
  pub heap_start : ℕ
  pub heap_end : ℕ
  pub next : ℕ
  pub allocations : ℕ

-- `BumpAllocator::new`
abbrev pub new : BumpAllocator
new = record { heap_start = 0; heap_end = 0; next = 0; allocations = 0 }

unfoldable pub init : (heap_start heap_size : ℕ) → BumpAllocator → BumpAllocator
init start size bump = record bump {
  heap_start = start;
  heap_end = (start + size) % 2 ^ 64;
  next = start;
}

-- `usize::checked_add`
abbrev pub checked_add : ℕ → ℕ → Option ℕ
checked_add a b = if ltb (a + b) (2 ^ 64) then some (a + b) else none

-- The block at `start`, if the heap holds it.
abbrev pub alloc_at : ℕ → Option ℕ → BumpAllocator → ℕ × BumpAllocator
alloc_at start none bump = (0, bump)
alloc_at start (some end) bump =
    if ltb bump.heap_end end
    then (0, bump)
    else (start, record bump { next = end; allocations = (bump.allocations + 1) % 2 ^ 64 })

-- `alloc`: the address, 0 for the null pointer.
unfoldable pub alloc : Layout → BumpAllocator → ℕ × BumpAllocator
alloc layout bump =
    let start = align_up bump.next layout.align in
    alloc_at start (checked_add start layout.size) bump

-- `dealloc`
unfoldable pub dealloc : BumpAllocator → BumpAllocator
dealloc bump =
    let allocations = (bump.allocations + (2 ^ 64 - 1)) % 2 ^ 64 in
    let counted : BumpAllocator = record bump { allocations = allocations } in
    if allocations == 0 then record counted { next = bump.heap_start } else counted

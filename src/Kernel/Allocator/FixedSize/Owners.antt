-- ===== src/Kernel/Allocator/FixedSize/Owners.antt =====
-- kernel/src/allocator/fixed_size_block.rs: who has the block at an address, in every sequence of
-- calls.
use yacuri.Base.{ℕ, ◌+◌, ◌≤◌, ◌≡◌, ◌≢◌, Option, none, some, ◌⊎◌}
use yacuri.Kernel.Allocator.Layout.{Layout, IsAligned}
use yacuri.Kernel.Allocator.FixedSize.{
  Heap, list_index, block_layout, put, FixedSizeBlockAllocator, new, init, alloc, dealloc,
}

-- What the allocator relies on of the heap: it gives out blocks that lie apart, and takes them back.
pub record HeapLaws (heap : Heap) : Type 1 where
  -- the layouts of the blocks that are given out, by their addresses
  pub Gave : heap.State → (ℕ → Option Layout) → Type 0
  pub begins : (start size : ℕ) → Gave (heap.init start size heap.empty) (λ a. none)
  pub gives :
      (layout : Layout) (s s' : heap.State) (gave : ℕ → Option Layout) (p : ℕ)
      → heap.allocate_first_fit layout s ≡ (some p, s')
      → Gave s gave
      → (gave p ≡ none) × Gave s' (put p (some layout) gave)
  pub refuses :
      (layout : Layout) (s s' : heap.State) (gave : ℕ → Option Layout)
      → heap.allocate_first_fit layout s ≡ (none, s')
      → Gave s gave
      → Gave s' gave
  pub takes :
      (layout : Layout) (s : heap.State) (gave : ℕ → Option Layout) (p : ℕ)
      → gave p ≡ some layout
      → Gave s gave
      → Gave (heap.deallocate p layout s) (put p none gave)
  pub not_null :
      (s : heap.State) (gave : ℕ → Option Layout) (p : ℕ) (layout : Layout)
      → Gave s gave
      → gave p ≡ some layout
      → p ≢ 0
  pub aligned :
      (s : heap.State) (gave : ℕ → Option Layout) (p : ℕ) (layout : Layout)
      → Gave s gave
      → gave p ≡ some layout
      → IsAligned layout.align p
  pub apart :
      (s : heap.State) (gave : ℕ → Option Layout) (p q : ℕ) (layout other : Layout)
      → Gave s gave
      → gave p ≡ some layout
      → gave q ≡ some other
      → p ≢ q
      → (p + layout.size ≤ q) ⊎ (q + other.size ≤ p)

-- Nobody but the heap, a caller with the layout it asked for, or the free list of this index.
pub data Owner : Type 0 where
  heap_only : Owner
  caller : Layout → Owner
  free_list : ℕ → Owner

abbrev pub rounded_at : Layout → Option ℕ → Layout
rounded_at layout none = layout
rounded_at layout (some index) = block_layout index

-- The layout that the heap was asked for.
abbrev pub rounded : Layout → Layout
rounded layout = rounded_at layout (list_index layout)

abbrev pub gave_for : Owner → Option Layout
gave_for heap_only = none
gave_for (caller layout) = some (rounded layout)
gave_for (free_list index) = some (block_layout index)

abbrev pub returned_at : Option ℕ → Owner
returned_at none = heap_only
returned_at (some index) = free_list index

abbrev pub returned : Layout → Owner
returned layout = returned_at (list_index layout)

module _ (heap : Heap) where
  -- What callers do: they ask for blocks, and give back blocks that they have.
  pub data Reached : FixedSizeBlockAllocator heap → (ℕ → Owner) → Type 0 where
    begins : (start size : ℕ) → Reached (init heap start size (new heap)) (λ a. heap_only)
    allocates :
        (layout : Layout) (allocator : FixedSizeBlockAllocator heap) (owner : ℕ → Owner)
        → (alloc heap layout allocator).0 ≢ 0
        → Reached allocator owner
        → Reached
            (alloc heap layout allocator).1
            (put (alloc heap layout allocator).0 (caller layout) owner)
    refuses :
        (layout : Layout) (allocator : FixedSizeBlockAllocator heap) (owner : ℕ → Owner)
        → (alloc heap layout allocator).0 ≡ 0
        → Reached allocator owner
        → Reached (alloc heap layout allocator).1 owner
    frees :
        (p : ℕ) (layout : Layout) (allocator next : FixedSizeBlockAllocator heap)
        (owner : ℕ → Owner)
        → owner p ≡ caller layout
        → dealloc heap p layout allocator ≡ some next
        → Reached allocator owner
        → Reached next (put p (returned layout) owner)

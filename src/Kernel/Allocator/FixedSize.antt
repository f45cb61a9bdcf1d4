-- ===== src/Kernel/Allocator/FixedSize.antt =====
-- kernel/src/allocator/fixed_size_block.rs: the allocator of blocks in fixed sizes.
pub mod Owners
pub mod Chains
pub mod Steps
pub mod Calls
pub mod Apart
pub mod Aligned
pub mod Growing
mod Tests
use yacuri.Base.{
  ℕ, suc, ◌≤◌, max, Bool, Option, none, some, List, [], ◌∷◌, if◌then◌else◌, leb, ◌==◌, get_or, set,
  replicate,
}
use yacuri.Kernel.Allocator.Layout.{Layout}

-- The operations of `linked_list_allocator::Heap` that the allocator calls; an address is `none`
-- where the call is an `Err`.
pub record Heap : Type 1 where
  pub State : Type 0
  pub empty : State
  pub init : (heap_start heap_size : ℕ) → State → State
  pub allocate_first_fit : Layout → State → Option ℕ × State
  pub deallocate : ℕ → Layout → State → State

-- `BLOCK_SIZES`
abbrev pub block_sizes : List ℕ
block_sizes = 8 ∷ 16 ∷ 32 ∷ 64 ∷ 128 ∷ 256 ∷ 512 ∷ 1024 ∷ 2048 ∷ []

abbrev pub next_index : Option ℕ → Option ℕ
next_index none = none
next_index (some i) = some (suc i)

-- `.iter().position(|&s| s >= required)`
abbrev pub position : List ℕ → ℕ → Option ℕ
position [] required = none
position (size ∷ sizes) required =
    if leb required size then some 0 else next_index (position sizes required)

unfoldable pub list_index : Layout → Option ℕ
list_index layout = position block_sizes (max layout.size layout.align)

abbrev pub block_size : ℕ → ℕ
block_size index = get_or block_sizes index 0

-- `Layout::from_size_align(block_size, block_align)`, which no power of two below makes fail
abbrev pub block_layout : ℕ → Layout
block_layout index = record { size = block_size index; align = block_size index }

-- `mem::size_of::<ListNode>()`, and its alignment
abbrev pub node_size : ℕ
node_size = 8

abbrev pub put : {A : Type 0} → ℕ → A → (ℕ → A) → ℕ → A
put p x f = λ a. if a == p then x else f a

module _ (heap : Heap) where
  -- `FixedSizeBlockAllocator`, with the memory of its free blocks: the `next` of the `ListNode` at
  -- an address.
  pub record FixedSizeBlockAllocator : Type 0 where
    pub list_heads : List (Option ℕ)
    pub fallback_allocator : heap.State
    pub nodes : ℕ → Option ℕ

  -- `FixedSizeBlockAllocator::new`, in a memory without nodes
  abbrev pub new : FixedSizeBlockAllocator
  new = record { list_heads = replicate 9 none; fallback_allocator = heap.empty; nodes = λ a. none }

  unfoldable pub init :
      (heap_start heap_size : ℕ) → FixedSizeBlockAllocator → FixedSizeBlockAllocator
  init start size allocator = record allocator {
    fallback_allocator = heap.init start size allocator.fallback_allocator;
  }

  abbrev pub null_or : Option ℕ → ℕ
  null_or none = 0
  null_or (some p) = p

  unfoldable pub fallback_alloc : Layout → FixedSizeBlockAllocator → ℕ × FixedSizeBlockAllocator
  fallback_alloc layout allocator =
      let got = heap.allocate_first_fit layout allocator.fallback_allocator in
      (null_or got.0, record allocator { fallback_allocator = got.1 })

  -- A block of the list `index`, from the heap where the list is empty.
  unfoldable pub alloc_block : ℕ → Option ℕ → FixedSizeBlockAllocator → ℕ × FixedSizeBlockAllocator
  alloc_block index none allocator = fallback_alloc (block_layout index) allocator
  alloc_block index (some node) allocator = (
    node,
    record allocator {
      list_heads = set allocator.list_heads index (allocator.nodes node);
      nodes = put node none allocator.nodes;
    },
  )

  -- The arms of `alloc`.
  unfoldable pub alloc_in :
      Layout → Option ℕ → FixedSizeBlockAllocator → ℕ × FixedSizeBlockAllocator
  alloc_in layout none allocator = fallback_alloc layout allocator
  alloc_in layout (some index) allocator =
      alloc_block index (get_or allocator.list_heads index none) allocator

  -- `alloc`: the address, 0 for the null pointer.
  unfoldable pub alloc : Layout → FixedSizeBlockAllocator → ℕ × FixedSizeBlockAllocator
  alloc layout allocator = alloc_in layout (list_index layout) allocator

  -- The arms of `dealloc`.
  unfoldable pub dealloc_in :
      ℕ → Layout → Option ℕ → FixedSizeBlockAllocator → Option FixedSizeBlockAllocator
  dealloc_in ptr layout (some index) allocator =
      if leb node_size (block_size index)
      then some (record allocator {
        list_heads = set allocator.list_heads index (some ptr);
        nodes = put ptr (get_or allocator.list_heads index none) allocator.nodes;
      })
      else none
  dealloc_in ptr layout none allocator =
      if ptr == 0
      then none
      else some (record allocator {
        fallback_allocator = heap.deallocate ptr layout allocator.fallback_allocator;
      })

  -- `dealloc`; `none` is a panic, of an assertion or of `NonNull::new(ptr).unwrap()`.
  unfoldable pub dealloc : ℕ → Layout → FixedSizeBlockAllocator → Option FixedSizeBlockAllocator
  dealloc ptr layout allocator = dealloc_in ptr layout (list_index layout) allocator

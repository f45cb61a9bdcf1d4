-- ===== src/Kernel/Allocator/Tests.antt =====
-- kernel/src/allocator: the allocators on small heaps.
use yacuri.Base.{ℕ, ◌+◌, ◌≡◌, ◌≢◌, refl, ap, subst, arith, [], leb, if◌then◌else◌}
use yacuri.Kernel.Allocator.Layout.{Layout, IsLayout, Aligned, align_up, align_up-Aligned}
use yacuri.Kernel.Allocator.Bump.{BumpAllocator, new, init, alloc, dealloc}
use yacuri.Kernel.Allocator.Bump.Live.{
  begins, allocates, frees, moved, init-Valid, Valid, alloc-fits, Reached-Valid,
}

align_up-Aligned_example : Aligned 16 4099 (align_up 4099 16)
align_up-Aligned_example = align_up-Aligned 4 4099 (omega arith) (omega arith)

rounded : align_up 4099 16 ≡ 4112
unfolding align_up
rounded = refl

abbrev layout : Layout
layout = record { size = 24; align = 16 }

layout-IsLayout : IsLayout layout
layout-IsLayout = record {
  some_byte = omega arith;
  exponent = 4;
  in_word = omega arith;
  power = refl;
}

abbrev heap : BumpAllocator
heap = record { heap_start = 4097; heap_end = 5097; next = 4097; allocations = 0 }

heap-init : init 4097 1000 new ≡ heap
unfolding init
heap-init = refl

heap-Valid : Valid 4097 1000 heap []
heap-Valid =
    subst (λ b. Valid 4097 1000 b []) heap-init (init-Valid 4097 1000 (omega arith) (omega arith))

alloc-fits_example :
    (address : ℕ) × Aligned 16 4097 address
    × (alloc layout heap
        ≡ (if leb (address + 24) 5097 then (address, moved address layout heap) else (0, heap)))
alloc-fits_example =
    alloc-fits 4097 1000 (omega arith) (omega arith) layout heap [] layout-IsLayout heap-Valid

first : alloc layout (init 4097 1000 new) ≡ (4112, moved 4112 layout heap)
unfolding init alloc align_up
first = refl

given : (alloc layout (init 4097 1000 new)).0 ≢ 0
given null = absurd (omega (arith, ap (λ (a, b). a) first, null))

-- A block is taken and given back.
Reached-Valid_example : Valid 4097 1000 (dealloc (alloc layout (init 4097 1000 new)).1) []
Reached-Valid_example =
    Reached-Valid 4097 1000 (omega arith) (omega arith)
      (dealloc (alloc layout (init 4097 1000 new)).1) []
      (frees (alloc layout (init 4097 1000 new)).1 [] []
        (record { address = (alloc layout (init 4097 1000 new)).0; layout = layout })
        (allocates layout (init 4097 1000 new) [] layout-IsLayout given begins))

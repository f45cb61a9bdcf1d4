-- ===== src/Kernel/Allocator/FixedSize/Tests.antt =====
-- kernel/src/allocator/fixed_size_block.rs: the allocator on a heap that only grows.
use yacuri.Base.{ℕ, ◌+◌, ◌≤◌, ◌≡◌, ◌≢◌, refl, arith, some, ◌⊎◌}
use yacuri.Kernel.Allocator.Layout.{Layout, IsLayout, IsAligned}
use yacuri.Kernel.Allocator.FixedSize.{
  FixedSizeBlockAllocator, new, init, alloc, alloc_in, alloc_block, fallback_alloc, dealloc, put,
  list_index,
}
use yacuri.Kernel.Allocator.FixedSize.Owners.{
  Owner, heap_only, caller, returned, Reached, begins, allocates,
}
use yacuri.Kernel.Allocator.FixedSize.Calls.{dealloc-Valid}
use yacuri.Kernel.Allocator.FixedSize.Steps.{Valid}
use yacuri.Kernel.Allocator.FixedSize.Apart.{Reached-Valid, callers-apart, alloc-unheld}
use yacuri.Kernel.Allocator.FixedSize.Aligned.{callers-IsAligned}
use yacuri.Kernel.Allocator.FixedSize.Growing.{growing, growing_laws}

abbrev layout : Layout
layout = record { size = 24; align = 16 }

layout-IsLayout : IsLayout layout
layout-IsLayout = record {
  some_byte = omega arith;
  exponent = 4;
  in_word = omega arith;
  power = refl;
}

abbrev at_first : FixedSizeBlockAllocator growing
at_first = init growing 4000 1000 (new growing)

abbrev at_second : FixedSizeBlockAllocator growing
at_second = (alloc growing layout at_first).1

abbrev at_third : FixedSizeBlockAllocator growing
at_third = (alloc growing layout at_second).1

-- 24 bytes are a block of 32
addresses : ((alloc growing layout at_first).0 ≡ 4032) × ((alloc growing layout at_second).0 ≡ 4096)
unfolding init alloc alloc_in alloc_block fallback_alloc list_index
addresses = (refl, refl)

given : (alloc growing layout at_first).0 ≢ 0
given null = absurd (omega (arith, addresses.0, null))

given_again : (alloc growing layout at_second).0 ≢ 0
given_again null = absurd (omega (arith, addresses.1, null))

abbrev owner_1 : ℕ → Owner
owner_1 = put (alloc growing layout at_first).0 (caller layout) (λ a. heap_only)

abbrev owner_2 : ℕ → Owner
owner_2 = put (alloc growing layout at_second).0 (caller layout) owner_1

one_block : Reached growing at_second owner_1
one_block = allocates layout at_first (λ a. heap_only) given (begins 4000 1000)

two_blocks : Reached growing at_third owner_2
two_blocks = allocates layout at_second owner_1 given_again one_block

holds_first : owner_2 4032 ≡ caller layout
holds_first = rw (addresses.0, addresses.1) refl

holds_second : owner_2 4096 ≡ caller layout
holds_second = rw (addresses.0, addresses.1) refl

callers-apart_example : (4032 + 24 ≤ 4096) ⊎ (4096 + 24 ≤ 4032)
callers-apart_example =
    callers-apart growing growing_laws at_third owner_2 4032 4096 layout layout two_blocks
      holds_first holds_second (omega arith)

callers-IsAligned_example : IsAligned 16 4032
callers-IsAligned_example =
    callers-IsAligned growing growing_laws at_third owner_2 4032 layout two_blocks layout-IsLayout
      holds_first

alloc-unheld_example : owner_1 (alloc growing layout at_second).0 ≢ caller layout
alloc-unheld_example =
    alloc-unheld growing growing_laws at_second owner_1 layout layout one_block given_again

dealloc-Valid_example :
    (next : FixedSizeBlockAllocator growing) × (dealloc growing 4032 layout at_third ≡ some next)
    × Valid growing growing_laws next (put 4032 (returned layout) owner_2)
dealloc-Valid_example =
    dealloc-Valid growing growing_laws 4032 layout at_third owner_2 holds_first
      (Reached-Valid growing growing_laws at_third owner_2 two_blocks)

-- ===== src/Kernel/Allocator/Bump/Live.antt =====
-- kernel/src/allocator/bump.rs: the blocks that callers hold.
use yacuri.Base.{
  ℕ, ◌+◌, ◌-◌, ◌%◌, ◌^◌, ◌≤◌, ◌<◌, ◌≡◌, ◌≢◌, refl, ap, sym, subst, ◌∙◌, arith, List, [], ◌∷◌, ◌++◌,
  length, Bool-cases, leb, ◌==◌, if◌then◌else◌, inl, inr,
}
use yacuri.Kernel.Allocator.Layout.{
  Layout, IsLayout, IsAligned, align_up, align_up-Aligned, Aligned,
}
use yacuri.Kernel.Allocator.Bump.{BumpAllocator, new, init, alloc, dealloc}

pub record Block : Type 0 where
  pub address : ℕ
  pub layout : Layout

-- What callers of the allocator do, with the blocks they hold, the newest first: they ask for a
-- block, which they get or not, and give back one that they hold.
pub data Reached (start size : ℕ) : BumpAllocator → List Block → Type 0 where
  begins : Reached start size (init start size new) []
  allocates :
      (layout : Layout) (bump : BumpAllocator) (live : List Block)
      → IsLayout layout
      → (alloc layout bump).0 ≢ 0
      → Reached start size bump live
      → Reached start size
          (alloc layout bump).1
          (record { address = (alloc layout bump).0; layout = layout } ∷ live)
  refuses :
      (layout : Layout) (bump : BumpAllocator) (live : List Block)
      → IsLayout layout
      → (alloc layout bump).0 ≡ 0
      → Reached start size bump live
      → Reached start size (alloc layout bump).1 live
  frees :
      (bump : BumpAllocator) (newer older : List Block) (block : Block)
      → Reached start size bump (newer ++ block ∷ older)
      → Reached start size (dealloc bump) (newer ++ older)

-- Every block is aligned as its layout says and lies between `low` and the block before it, the
-- first one below `high`: no two of them overlap.
abbrev pub Packed : ℕ → List Block → ℕ → Type 0
Packed low [] high = low ≤ high
Packed low (block ∷ blocks) high =
    (0 < block.layout.size)
    × (block.address + block.layout.size ≤ high)
    × IsAligned block.layout.align block.address
    × Packed low blocks block.address

-- The allocator's numbers fit the heap and the blocks that callers hold.
pub record Valid (start size : ℕ) (bump : BumpAllocator) (live : List Block) : Type 0 where
  pub starts : bump.heap_start ≡ start
  pub ends : bump.heap_end ≡ start + size
  pub in_heap : bump.next ≤ start + size
  pub packed : Packed start live bump.next
  pub counted : bump.allocations ≡ length live
  pub emptied : length live ≡ 0 → bump.next ≡ start

-- The allocator behind a block at this address.
abbrev pub moved : ℕ → Layout → BumpAllocator → BumpAllocator
moved address layout bump = record bump {
  next = address + layout.size;
  allocations = bump.allocations + 1;
}

Packed-le :
    (low high : ℕ) (blocks : List Block) → Packed low blocks high → low + length blocks ≤ high
Packed-le low high [] p = omega arith
Packed-le low high (block ∷ blocks) (some_byte, below, aligned, rest) =
    omega (arith, Packed-le low block.address blocks rest)

Packed-raise :
    (low high higher : ℕ) (blocks : List Block)
    → high ≤ higher
    → Packed low blocks high
    → Packed low blocks higher
Packed-raise low high higher [] le p = omega arith
Packed-raise low high higher (block ∷ blocks) le (some_byte, below, aligned, rest) =
    (some_byte, omega arith, aligned, rest)

-- A block is given back.
Packed-remove :
    (low high : ℕ) (newer older : List Block) (block : Block)
    → Packed low (newer ++ block ∷ older) high
    → Packed low (newer ++ older) high
Packed-remove low high [] older block (some_byte, below, aligned, rest) =
    Packed-raise low block.address high older (omega arith) rest
Packed-remove low high (b ∷ newer) older block (some_byte, below, aligned, rest) =
    (some_byte, below, aligned, Packed-remove low b.address newer older block rest)

-- With no blocks, nothing is taken.
Packed-empty :
    (low high : ℕ) (blocks : List Block)
    → length blocks ≡ 0
    → Packed low blocks high
    → Packed low blocks low
Packed-empty low high [] h p = omega arith
Packed-empty low high (b ∷ blocks) h p = absurd (omega arith)

length-remove :
    (newer older : List Block) (block : Block)
    → length (newer ++ block ∷ older) ≡ length (newer ++ older) + 1
length-remove [] older block = omega arith
length-remove (b ∷ newer) older block = omega (arith, length-remove newer older block)

module _ (start size : ℕ) (some_address : 0 < start) (lower : start + size ≤ 2 ^ 63) where
  pub init-Valid : Valid start size (init start size new) []
  unfolding init
  init-Valid = record {
    starts = refl;
    ends = omega arith;
    in_heap = omega arith;
    packed = omega arith;
    counted = refl;
    emptied = λ h. refl;
  }

  -- On a valid allocator of a heap that starts above 0 and ends in the lower half of the address space,
  -- `alloc` gives the least aligned address at or above the next free one if the block ends inside the
  -- heap, and moves on behind the block; else it gives null, and nothing changes. The layout is one that
  -- Rust allows.
  pub alloc-fits :
      (layout : Layout) (bump : BumpAllocator) (live : List Block)
      → IsLayout layout
      → Valid start size bump live
      → (address : ℕ) × Aligned layout.align bump.next address
        × (alloc layout bump ≡ (
            if leb (address + layout.size) (start + size)
            then (address, moved address layout bump)
            else (0, bump)))
  unfolding alloc
  alloc-fits layout bump live is_layout valid =
      let address = align_up bump.next layout.align in
      let aligned : Aligned layout.align bump.next address = rw is_layout.power (
        align_up-Aligned is_layout.exponent bump.next is_layout.in_word
          (omega (arith, valid.in_heap))) in
      let bounded = Packed-le start bump.next live valid.packed in
      (address, aligned, ground (arith, valid.ends, valid.counted, valid.in_heap, aligned.above))

  allocates-Valid :
      (layout : Layout) (bump : BumpAllocator) (live : List Block)
      → IsLayout layout
      → (alloc layout bump).0 ≢ 0
      → Valid start size bump live
      → Valid start size
          (alloc layout bump).1
          (record { address = (alloc layout bump).0; layout = layout } ∷ live)
  allocates-Valid layout bump live is_layout given valid =
      let (address, aligned, e) = alloc-fits layout bump live is_layout valid in
      elim (Bool-cases (leb (address + layout.size) (start + size))) [
        | inl fits ↦
            let given_block : alloc layout bump ≡ (address, moved address layout bump) =
              e ∙ rw fits refl in
            subst (λ (a, b). Valid start size b (record { address = a; layout = layout } ∷ live))
              (sym given_block)
              record {
                starts = valid.starts;
                ends = valid.ends;
                in_heap = ground (arith, fits);
                packed = (
                  is_layout.some_byte,
                  omega arith,
                  aligned.multiple,
                  Packed-raise start bump.next address live aligned.above valid.packed,
                );
                counted = omega (arith, valid.counted);
                emptied = λ h. omega arith;
              }
        | inr exceeds ↦
            let null : alloc layout bump ≡ (0, bump) = e ∙ rw exceeds refl in
            absurd (given (ap (λ (a, b). a) null))
      ]

  refuses-Valid :
      (layout : Layout) (bump : BumpAllocator) (live : List Block)
      → IsLayout layout
      → (alloc layout bump).0 ≡ 0
      → Valid start size bump live
      → Valid start size (alloc layout bump).1 live
  refuses-Valid layout bump live is_layout refused valid =
      let (address, aligned, e) = alloc-fits layout bump live is_layout valid in
      let bounded = Packed-le start bump.next live valid.packed in
      elim (Bool-cases (leb (address + layout.size) (start + size))) [
        | inl fits ↦
            let given_block : alloc layout bump ≡ (address, moved address layout bump) =
              e ∙ rw fits refl in
            let null : address ≡ 0 = sym (ap (λ (a, b). a) given_block) ∙ refused in
            absurd (omega (arith, aligned.above))
        | inr exceeds ↦
            let null : alloc layout bump ≡ (0, bump) = e ∙ rw exceeds refl in
            subst (λ (a, b). Valid start size b live) (sym null) valid
      ]

  frees-Valid :
      (bump : BumpAllocator) (newer older : List Block) (block : Block)
      → Valid start size bump (newer ++ block ∷ older)
      → Valid start size (dealloc bump) (newer ++ older)
  unfolding dealloc
  frees-Valid bump newer older block valid =
      let rest = Packed-remove start bump.next newer older block valid.packed in
      let bounded = Packed-le start bump.next (newer ++ older) rest in
      let counted : (bump.allocations + (2 ^ 64 - 1)) % 2 ^ 64 ≡ length (newer ++ older) =
        omega (arith, valid.counted, valid.in_heap, length-remove newer older block) in
      elim (Bool-cases (length (newer ++ older) == 0)) [
        | inl none_left ↦
            rw (counted, none_left)
              record {
                starts = valid.starts;
                ends = valid.ends;
                in_heap = omega (arith, valid.starts);
                packed = subst (Packed start (newer ++ older)) (sym valid.starts) (
                    Packed-empty start bump.next (newer ++ older) (ground (arith, none_left)) rest);
                counted = refl;
                emptied = λ h. valid.starts;
              }
        | inr some_left ↦
            rw (counted, some_left)
              record {
                starts = valid.starts;
                ends = valid.ends;
                in_heap = valid.in_heap;
                packed = rest;
                counted = refl;
                emptied = λ h. absurd (ground (arith, some_left));
              }
      ]

  -- In every sequence of allocations and releases on a heap in the lower half of the address
  -- space, the held blocks are aligned, inside the heap and apart, the allocator counts them, and
  -- once all are given back it starts again at the start of the heap.
  pub Reached-Valid :
      (bump : BumpAllocator) (live : List Block)
      → Reached start size bump live
      → Valid start size bump live
  Reached-Valid _ _ begins = init-Valid
  Reached-Valid _ _ (allocates layout bump live is_layout given reached) =
      allocates-Valid layout bump live is_layout given (Reached-Valid bump live reached)
  Reached-Valid _ _ (refuses layout bump live is_layout refused reached) =
      refuses-Valid layout bump live is_layout refused (Reached-Valid bump live reached)
  Reached-Valid _ _ (frees bump newer older block reached) =
      frees-Valid bump newer older block (Reached-Valid bump (newer ++ block ∷ older) reached)

-- ===== src/Kernel/Allocator/FixedSize/Calls.antt =====
-- kernel/src/allocator/fixed_size_block.rs: `alloc` and `dealloc` keep the allocator in order.
use yacuri.Base.{
  ℕ, zero, suc, ◌≤◌, ◌<◌, ◌≡◌, ◌≢◌, refl, ap, sym, subst, ◌∙◌, arith, true, false, none, some,
  Option-cases, inl, inr, leb, ◌==◌, get_or, set, max,
}
use yacuri.Kernel.Allocator.Layout.{Layout}
use yacuri.Kernel.Allocator.FixedSize.{
  Heap, block_sizes, list_index, block_size, block_layout, put, FixedSizeBlockAllocator,
  fallback_alloc, alloc_block, alloc_in, alloc, dealloc_in, dealloc, null_or, node_size,
}
use yacuri.Kernel.Allocator.FixedSize.Owners.{
  HeapLaws, Owner, caller, rounded_at, rounded, gave_for, returned_at, returned,
}
use yacuri.Kernel.Allocator.FixedSize.Chains.{position-fits, Chain, Chain-head}
use yacuri.Kernel.Allocator.FixedSize.Steps.{
  Valid, pop-Valid, fallback-Valid, push-Valid, give_back-Valid,
}

module _ (heap : Heap) where
  pub alloc-from_list :
      (layout : Layout) (allocator : FixedSizeBlockAllocator heap) (i p : ℕ)
      → list_index layout ≡ some i
      → get_or allocator.list_heads i none ≡ some p
      → alloc heap layout allocator ≡ (
        p,
        record allocator {
          list_heads = set allocator.list_heads i (allocator.nodes p);
          nodes = put p none allocator.nodes;
        },
      )
  unfolding alloc alloc_in alloc_block
  alloc-from_list layout allocator i p found first =
      ap (λ o. alloc_in heap layout o allocator) found
      ∙ ap (λ h. alloc_block heap i h allocator) first

  abbrev pub from_heap : Layout → FixedSizeBlockAllocator heap → ℕ × FixedSizeBlockAllocator heap
  from_heap layout allocator =
      let got = heap.allocate_first_fit layout allocator.fallback_allocator in
      (null_or heap got.0, record allocator { fallback_allocator = got.1 })

  pub alloc-empty_list :
      (layout : Layout) (allocator : FixedSizeBlockAllocator heap) (i : ℕ)
      → list_index layout ≡ some i
      → get_or allocator.list_heads i none ≡ none
      → alloc heap layout allocator ≡ from_heap (rounded layout) allocator
  unfolding alloc alloc_in alloc_block fallback_alloc
  alloc-empty_list layout allocator i found empty =
      ap (λ o. alloc_in heap layout o allocator) found
      ∙ ap (λ h. alloc_block heap i h allocator) empty
      ∙ ap (λ o. from_heap (rounded_at layout o) allocator) (sym found)

  pub alloc-large :
      (layout : Layout) (allocator : FixedSizeBlockAllocator heap)
      → list_index layout ≡ none
      → alloc heap layout allocator ≡ from_heap (rounded layout) allocator
  unfolding alloc alloc_in fallback_alloc
  alloc-large layout allocator found =
      ap (λ o. alloc_in heap layout o allocator) found
      ∙ ap (λ o. from_heap (rounded_at layout o) allocator) (sym found)

module _ (heap : Heap) (laws : HeapLaws heap) where
  -- A free block is not at the null pointer.
  not_null :
      (allocator : FixedSizeBlockAllocator heap) (owner : ℕ → Owner) (i p : ℕ)
      → get_or allocator.list_heads i none ≡ some p
      → Valid heap laws allocator owner
      → p ≢ 0
  not_null allocator owner i p first valid =
      let (blocks, chain) = valid.chains i in
      let (rest, owned, fresh, behind) =
        Chain-head allocator.nodes owner i p blocks
          (subst (λ h. Chain allocator.nodes owner i h blocks) first chain) in
      laws.not_null allocator.fallback_allocator (λ a. gave_for (owner a)) p (block_layout i)
        valid.gave (ap gave_for owned)

  -- What an allocation leaves.
  abbrev pub Leaves : Layout → (ℕ → Owner) → ℕ × FixedSizeBlockAllocator heap → Type 0
  Leaves layout owner got =
      (got.0 ≢ 0 → Valid heap laws got.1 (put got.0 (caller layout) owner))
      × (got.0 ≡ 0 → Valid heap laws got.1 owner)

  pub alloc-Leaves :
      (layout : Layout) (allocator : FixedSizeBlockAllocator heap) (owner : ℕ → Owner)
      → Valid heap laws allocator owner
      → Leaves layout owner (alloc heap layout allocator)
  alloc-Leaves layout allocator owner valid =
      let fallback : Leaves layout owner (from_heap heap (rounded layout) allocator) =
        fallback-Valid heap laws allocator owner layout
          (heap.allocate_first_fit (rounded layout) allocator.fallback_allocator) refl valid in
      elim (Option-cases (list_index layout)) [
        | inl large ↦
            subst (Leaves layout owner) (sym (alloc-large heap layout allocator large)) fallback
        | inr (i, found) ↦ elim (Option-cases (get_or allocator.list_heads i none)) [
          | inl empty ↦
              subst (Leaves layout owner)
                (sym (alloc-empty_list heap layout allocator i found empty)) fallback
          | inr (p, first) ↦
              subst (Leaves layout owner)
                (sym (alloc-from_list heap layout allocator i p found first))
                (
                  λ given. pop-Valid heap laws allocator owner i p layout found first valid,
                  λ null. absurd (not_null allocator owner i p first valid null),
                )
        ]
      ]

  dealloc_in-large :
      (p : ℕ) (layout : Layout) (allocator : FixedSizeBlockAllocator heap)
      → p ≢ 0
      → dealloc_in heap p layout none allocator
        ≡ some (record allocator {
          fallback_allocator = heap.deallocate p layout allocator.fallback_allocator;
        })
  unfolding dealloc_in
  dealloc_in-large p layout allocator not_zero =
      let differs : (p == 0) ≡ false = ground (arith, not_zero) in rw differs refl

  -- A block of any list has room for a node, which the assertions test.
  block_size-holds_node :
      (layout : Layout) (i : ℕ) → list_index layout ≡ some i → node_size ≤ block_size i
  unfolding list_index
  block_size-holds_node layout i found =
      smallest i (position-fits block_sizes (max layout.size layout.align) i found).0
    where
      smallest : (i : ℕ) → i < 9 → 8 ≤ block_size i
      smallest zero h = omega arith
      smallest (suc zero) h = omega arith
      smallest (suc (suc zero)) h = omega arith
      smallest (suc (suc (suc zero))) h = omega arith
      smallest (suc (suc (suc (suc zero)))) h = omega arith
      smallest (suc (suc (suc (suc (suc zero))))) h = omega arith
      smallest (suc (suc (suc (suc (suc (suc zero)))))) h = omega arith
      smallest (suc (suc (suc (suc (suc (suc (suc zero))))))) h = omega arith
      smallest (suc (suc (suc (suc (suc (suc (suc (suc zero)))))))) h = omega arith
      smallest (suc (suc (suc (suc (suc (suc (suc (suc (suc i))))))))) h = absurd (omega arith)

  dealloc_in-listed :
      (p : ℕ) (layout : Layout) (allocator : FixedSizeBlockAllocator heap) (i : ℕ)
      → node_size ≤ block_size i
      → dealloc_in heap p layout (some i) allocator
        ≡ some (record allocator {
          list_heads = set allocator.list_heads i (some p);
          nodes = put p (get_or allocator.list_heads i none) allocator.nodes;
        })
  unfolding dealloc_in
  dealloc_in-listed p layout allocator i room =
      let fits : leb node_size (block_size i) ≡ true = ground (arith, room) in rw fits refl

  -- A caller's block can always be given back: `dealloc` does not panic, and leaves free lists and
  -- heap in order.
  pub dealloc-Valid :
      (p : ℕ) (layout : Layout) (allocator : FixedSizeBlockAllocator heap) (owner : ℕ → Owner)
      → owner p ≡ caller layout
      → Valid heap laws allocator owner
      → (next : FixedSizeBlockAllocator heap) × (dealloc heap p layout allocator ≡ some next)
        × Valid heap laws next (put p (returned layout) owner)
  unfolding dealloc
  dealloc-Valid p layout allocator owner owned valid = elim (Option-cases (list_index layout)) [
    | inl large ↦
        let given : gave_for (owner p) ≡ some (rounded layout) = ap gave_for owned in
        let not_zero : p ≢ 0 =
          laws.not_null allocator.fallback_allocator (λ a. gave_for (owner a)) p (rounded layout)
            valid.gave given in
        let next : FixedSizeBlockAllocator heap = record allocator {
          fallback_allocator = heap.deallocate p layout allocator.fallback_allocator;
        } in
        (
          next,
          ap (λ o. dealloc_in heap p layout o allocator) large
              ∙ dealloc_in-large p layout allocator not_zero,
          subst (λ o. Valid heap laws next (put p (returned_at o) owner)) (sym large)
              (give_back-Valid heap laws allocator owner p layout large owned valid),
        )
    | inr (i, found) ↦
        let next : FixedSizeBlockAllocator heap = record allocator {
          list_heads = set allocator.list_heads i (some p);
          nodes = put p (get_or allocator.list_heads i none) allocator.nodes;
        } in
        (
          next,
          ap (λ o. dealloc_in heap p layout o allocator) found
              ∙ dealloc_in-listed p layout allocator i (block_size-holds_node layout i found),
          subst (λ o. Valid heap laws next (put p (returned_at o) owner)) (sym found)
              (push-Valid heap laws allocator owner i p layout found owned valid),
        )
  ]

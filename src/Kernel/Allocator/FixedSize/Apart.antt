-- ===== src/Kernel/Allocator/FixedSize/Apart.antt =====
-- kernel/src/allocator/fixed_size_block.rs: what callers rely on.
use yacuri.Base.{
  ℕ, zero, suc, ◌+◌, ◌≤◌, ◌≡◌, ◌≢◌, refl, ap, sym, subst, ◌∙◌, arith, Option, none, some, [],
  Option-cases, inl, inr, ◌⊎◌, get_or, max, replicate,
}
use yacuri.Kernel.Allocator.Layout.{Layout}
use yacuri.Kernel.Allocator.FixedSize.{
  Heap, block_sizes, list_index, put, FixedSizeBlockAllocator, new, init, alloc, null_or,
}
use yacuri.Kernel.Allocator.FixedSize.Owners.{
  HeapLaws, Owner, heap_only, caller, free_list, rounded, rounded_at, gave_for, returned, Reached,
  begins, allocates, refuses, frees,
}
use yacuri.Kernel.Allocator.FixedSize.Chains.{position-fits, Chain, Chain-head}
use yacuri.Kernel.Allocator.FixedSize.Steps.{Valid}
use yacuri.Kernel.Allocator.FixedSize.Calls.{
  from_heap, alloc-from_list, alloc-empty_list, alloc-large, alloc-Leaves, dealloc-Valid,
}

get_or-none : (n i : ℕ) → get_or {A = Option ℕ} (replicate n none) i none ≡ none
get_or-none zero i = refl
get_or-none (suc n) zero = refl
get_or-none (suc n) (suc i) = get_or-none n i

some-injective : {A : Type 0} (a b : A) → some a ≡ some b → a ≡ b
some-injective a b e = ap (λ o. elim o [ none ↦ a | some x ↦ x ]) e

-- The layout that the heap is asked for holds the layout that a caller asks for.
rounded-size : (layout : Layout) → layout.size ≤ (rounded layout).size
unfolding list_index
rounded-size layout = elim (Option-cases (list_index layout)) [
  | inl large ↦ subst (λ o. layout.size ≤ (rounded_at layout o).size) (sym large) (omega arith)
  | inr (i, found) ↦
      subst (λ o. layout.size ≤ (rounded_at layout o).size) (sym found)
        (omega (arith, (position-fits block_sizes (max layout.size layout.align) i found).1))
]

caller-injective : (l m : Layout) → caller l ≡ caller m → l ≡ m
caller-injective l m e = ap (λ o. elim o [ heap_only ↦ l | caller x ↦ x | free_list i ↦ l ]) e

module _ (heap : Heap) (laws : HeapLaws heap) where
  init-Valid : (start size : ℕ) → Valid heap laws (init heap start size (new heap)) (λ a. heap_only)
  unfolding init
  init-Valid start size = record {
    nine = refl;
    gave = laws.begins start size;
    chains = λ i. ([], get_or-none 9 i);
  }

  pub Reached-Valid :
      (allocator : FixedSizeBlockAllocator heap) (owner : ℕ → Owner)
      → Reached heap allocator owner
      → Valid heap laws allocator owner
  Reached-Valid _ _ (begins start size) = init-Valid start size
  Reached-Valid _ _ (allocates layout allocator owner given reached) =
      (alloc-Leaves heap laws layout allocator owner (Reached-Valid allocator owner reached)).0
        given
  Reached-Valid _ _ (refuses layout allocator owner null reached) =
      (alloc-Leaves heap laws layout allocator owner (Reached-Valid allocator owner reached)).1 null
  Reached-Valid _ _ (frees p layout allocator next owner owned e reached) =
      let (next', e', valid) =
        dealloc-Valid heap laws p layout allocator owner owned
          (Reached-Valid allocator owner reached) in
      subst (λ a. Valid heap laws a (put p (returned layout) owner))
        (some-injective next' next (sym e' ∙ e)) valid

  -- In every sequence of calls, the blocks that callers hold do not overlap, in the sizes that the
  -- callers asked for.
  pub callers-apart :
      (allocator : FixedSizeBlockAllocator heap) (owner : ℕ → Owner) (p q : ℕ)
      (layout other : Layout)
      → Reached heap allocator owner
      → owner p ≡ caller layout
      → owner q ≡ caller other
      → p ≢ q
      → (p + layout.size ≤ q) ⊎ (q + other.size ≤ p)
  callers-apart allocator owner p q layout other reached holds_p holds_q differ =
      let valid = Reached-Valid allocator owner reached in
      elim (laws.apart allocator.fallback_allocator (λ a. gave_for (owner a)) p q (rounded layout)
        (rounded other) valid.gave (ap gave_for holds_p) (ap gave_for holds_q) differ) [
          | inl below ↦ inl (omega (arith, rounded-size layout))
          | inr above ↦ inr (omega (arith, rounded-size other))
        ]

  -- No caller holds the block that an allocation gives.
  abbrev Unheld : (ℕ → Owner) → ℕ × FixedSizeBlockAllocator heap → Type 0
  Unheld owner got = got.0 ≢ 0 → (layout : Layout) → owner got.0 ≢ caller layout

  from_heap-Unheld :
      (layout : Layout) (allocator : FixedSizeBlockAllocator heap) (owner : ℕ → Owner)
      (got : Option ℕ × heap.State)
      → heap.allocate_first_fit layout allocator.fallback_allocator ≡ got
      → Valid heap laws allocator owner
      → null_or heap got.0 ≢ 0
      → (other : Layout) → owner (null_or heap got.0) ≡ caller other
      → ⊥
  from_heap-Unheld layout allocator owner (none, s') e valid given other holds = absurd (given refl)
  from_heap-Unheld layout allocator owner (some p, s') e valid given other holds =
      let (nobody, gave) =
        laws.gives layout allocator.fallback_allocator s' (λ a. gave_for (owner a)) p e
          valid.gave in
      absurd (ground (arith, sym (ap gave_for holds) ∙ nobody))

  -- In every sequence of calls, a block that `alloc` gives is held by no caller before.
  pub alloc-unheld :
      (allocator : FixedSizeBlockAllocator heap) (owner : ℕ → Owner) (layout other : Layout)
      → Reached heap allocator owner
      → (alloc heap layout allocator).0 ≢ 0
      → owner (alloc heap layout allocator).0 ≢ caller other
  alloc-unheld allocator owner layout other reached given =
      let valid = Reached-Valid allocator owner reached in
      let fallback : Unheld owner (from_heap heap (rounded layout) allocator) =
        from_heap-Unheld (rounded layout) allocator owner
          (heap.allocate_first_fit (rounded layout) allocator.fallback_allocator) refl valid in
      let unheld : Unheld owner (alloc heap layout allocator) =
        elim (Option-cases (list_index layout)) [
          | inl large ↦
              subst (Unheld owner) (sym (alloc-large heap layout allocator large)) fallback
          | inr (i, found) ↦ elim (Option-cases (get_or allocator.list_heads i none)) [
            | inl empty ↦
                subst (Unheld owner) (sym (alloc-empty_list heap layout allocator i found empty))
                  fallback
            | inr (p, first) ↦
                let (blocks, chain) = valid.chains i in
                let (rest, owned, fresh, behind) =
                  Chain-head allocator.nodes owner i p blocks
                    (subst (λ h. Chain allocator.nodes owner i h blocks) first chain) in
                subst (Unheld owner) (sym (alloc-from_list heap layout allocator i p found first))
                  (λ given' l e. ground (arith, sym owned ∙ e))
          ]
        ] in
      unheld given other

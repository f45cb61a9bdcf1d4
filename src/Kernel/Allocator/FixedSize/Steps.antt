-- ===== src/Kernel/Allocator/FixedSize/Steps.antt =====
-- kernel/src/allocator/fixed_size_block.rs: every call keeps the free lists and the heap in order.
use yacuri.Base.{
  ℕ, ◌<◌, ◌≡◌, ◌≢◌, refl, ap, sym, subst, ◌∙◌, arith, Option, none, some, List, ◌∷◌, length,
  Bool-cases, inl, inr, ◌==◌, ==_iff, get_or, set, length-set, max,
}
use yacuri.Kernel.Allocator.Layout.{Layout}
use yacuri.Kernel.Allocator.FixedSize.{
  Heap, block_sizes, list_index, block_layout, put, FixedSizeBlockAllocator, null_or,
}
use yacuri.Kernel.Allocator.FixedSize.Owners.{
  HeapLaws, Owner, heap_only, caller, free_list, rounded_at, rounded, gave_for,
}
use yacuri.Kernel.Allocator.FixedSize.Chains.{
  position-fits, Chain, Chain-frame, Chain-Avoids, Chain-head, Chain-set, put_self, put-other,
}

module _ (heap : Heap) (laws : HeapLaws heap) where
  -- The nine free lists are chains of their own blocks, and the heap gave what callers and free
  -- lists have.
  pub record Valid (allocator : FixedSizeBlockAllocator heap) (owner : ℕ → Owner) : Type 0 where
    pub nine : length allocator.list_heads ≡ 9
    pub gave : laws.Gave allocator.fallback_allocator (λ a. gave_for (owner a))
    pub chains :
        (i : ℕ)
        → (blocks : List ℕ) × Chain allocator.nodes owner i
            (get_or allocator.list_heads i none)
            blocks

  -- A change of owner by which the heap's share stays as it was.
  Gave-put :
      (s : heap.State) (owner : ℕ → Owner) (p : ℕ) (to : Owner)
      → gave_for (owner p) ≡ gave_for to
      → laws.Gave s (λ a. gave_for (owner a))
      → laws.Gave s (λ a. gave_for (put p to owner a))
  Gave-put s owner p to same gave = subst (laws.Gave s) (λ i. λ a. pointwise a i) gave
    where
      pointwise : (a : ℕ) → gave_for (owner a) ≡ gave_for (put p to owner a)
      pointwise a = elim (Bool-cases (a == p)) [
        | inl here ↦ rw here (ap (λ b. gave_for (owner b)) ((==_iff a p).0 here) ∙ same)
        | inr there ↦ rw there refl
      ]

  gave_for-put :
      (s : heap.State) (owner : ℕ → Owner) (p : ℕ) (to : Owner)
      → laws.Gave s (put p (gave_for to) (λ a. gave_for (owner a)))
      → laws.Gave s (λ a. gave_for (put p to owner a))
  gave_for-put s owner p to gave = subst (laws.Gave s) (λ i. λ a. pointwise a i) gave
    where
      pointwise :
          (a : ℕ) → put p (gave_for to) (λ b. gave_for (owner b)) a ≡ gave_for (put p to owner a)
      pointwise a = elim (Bool-cases (a == p)) [
        | inl here ↦ rw here refl
        | inr there ↦ rw there refl
      ]

  -- A block outside the free lists changes hands, with the lists untouched.
  chains-put :
      (nodes : ℕ → Option ℕ) (heads : List (Option ℕ)) (owner : ℕ → Owner) (p : ℕ) (to : Owner)
      → ((i : ℕ) → owner p ≢ free_list i)
      → ((i : ℕ) → (blocks : List ℕ) × Chain nodes owner i (get_or heads i none) blocks)
      → (i : ℕ) → (blocks : List ℕ) × Chain nodes (put p to owner) i (get_or heads i none) blocks
  chains-put nodes heads owner p to not_free chains i =
      let (blocks, chain) = chains i in
      (
        blocks,
        Chain-frame p nodes nodes owner (put p to owner) (λ a other. refl) (put-other p to owner) i
            (get_or heads i none) blocks
            (Chain-Avoids p nodes owner i (get_or heads i none) blocks (not_free i) chain) chain,
      )

  heap_only-not_free : (o : Owner) → gave_for o ≡ none → (i : ℕ) → o ≢ free_list i
  heap_only-not_free heap_only h i = ground arith
  heap_only-not_free (caller layout) h i = absurd (ground (arith, h))
  heap_only-not_free (free_list j) h i = absurd (ground (arith, h))

  caller-not_free :
      (owner : ℕ → Owner) (p : ℕ) (layout : Layout)
      → owner p ≡ caller layout
      → (i : ℕ) → owner p ≢ free_list i
  caller-not_free owner p layout h i e = absurd (ground (arith, h, e))

  free_list-injective : (i j : ℕ) → free_list i ≡ free_list j → i ≡ j
  free_list-injective i j e = ground (arith, e)

  pub gave_for-listed :
      (layout : Layout) (i : ℕ)
      → list_index layout ≡ some i
      → gave_for (caller layout) ≡ some (block_layout i)
  gave_for-listed layout i found = ap (λ o. some (rounded_at layout o)) found

  rounded-unlisted : (layout : Layout) → list_index layout ≡ none → rounded layout ≡ layout
  rounded-unlisted layout found = ap (rounded_at layout) found

  pub in_range :
      (layout : Layout) (i : ℕ) (heads : List (Option ℕ))
      → length heads ≡ 9
      → list_index layout ≡ some i
      → i < length heads
  unfolding list_index
  in_range layout i heads nine found =
      omega (arith, (position-fits block_sizes (max layout.size layout.align) i found).0)

  -- The first block of a list goes to a caller.
  pub pop-Valid :
      (allocator : FixedSizeBlockAllocator heap) (owner : ℕ → Owner) (i p : ℕ) (layout : Layout)
      → list_index layout ≡ some i
      → get_or allocator.list_heads i none ≡ some p
      → Valid allocator owner
      → Valid
          (record allocator {
            list_heads = set allocator.list_heads i (allocator.nodes p);
            nodes = put p none allocator.nodes;
          })
          (put p (caller layout) owner)
  pop-Valid allocator owner i p layout found first valid =
      let (blocks, chain) = valid.chains i in
      let (rest, owned, fresh, behind) =
        Chain-head allocator.nodes owner i p blocks
          (subst (λ h. Chain allocator.nodes owner i h blocks) first chain) in
      record {
        nine = length-set allocator.list_heads i (allocator.nodes p) ∙ valid.nine;
        gave =
            Gave-put allocator.fallback_allocator owner p (caller layout)
              (ap gave_for owned ∙ sym (gave_for-listed layout i found)) valid.gave;
        chains =
            Chain-set p allocator.nodes (put p none allocator.nodes) owner
              (put p (caller layout) owner) (put-other p none allocator.nodes)
              (put-other p (caller layout) owner) allocator.list_heads i (allocator.nodes p) rest
              (in_range layout i allocator.list_heads valid.nine found)
              (λ j apart e. apart (free_list-injective i j (sym owned ∙ e)))
              (Chain-frame p allocator.nodes (put p none allocator.nodes) owner
                (put p (caller layout) owner) (put-other p none allocator.nodes)
                (put-other p (caller layout) owner) i (allocator.nodes p) rest fresh behind)
              valid.chains;
      }

  -- The heap gives a block to a caller, or nothing.
  pub fallback-Valid :
      (allocator : FixedSizeBlockAllocator heap) (owner : ℕ → Owner) (layout : Layout)
      (got : Option ℕ × heap.State)
      → heap.allocate_first_fit (rounded layout) allocator.fallback_allocator ≡ got
      → Valid allocator owner
      → (null_or heap got.0 ≢ 0
          → Valid
              (record allocator { fallback_allocator = got.1 })
              (put (null_or heap got.0) (caller layout) owner))
        × (null_or heap got.0 ≡ 0 → Valid (record allocator { fallback_allocator = got.1 }) owner)
  fallback-Valid allocator owner layout (none, s') e valid = (
    λ given. absurd (given refl),
    λ null. record {
      nine = valid.nine;
      gave =
          laws.refuses (rounded layout) allocator.fallback_allocator s' (λ a. gave_for (owner a)) e
            valid.gave;
      chains = valid.chains;
    },
  )
  fallback-Valid allocator owner layout (some p, s') e valid =
      let (nobody, gave) =
        laws.gives (rounded layout) allocator.fallback_allocator s' (λ a. gave_for (owner a)) p e
          valid.gave in
      (
        λ given. record {
          nine = valid.nine;
          gave = gave_for-put s' owner p (caller layout) gave;
          chains =
              chains-put allocator.nodes allocator.list_heads owner p (caller layout)
                (heap_only-not_free (owner p) nobody) valid.chains;
        },
        λ null. absurd (
            laws.not_null s' (put p (some (rounded layout)) (λ a. gave_for (owner a))) p
              (rounded layout) gave (put_self p (some (rounded layout)) (λ a. gave_for (owner a)))
              null),
      )

  -- A caller's block goes to the list of its layout.
  pub push-Valid :
      (allocator : FixedSizeBlockAllocator heap) (owner : ℕ → Owner) (i p : ℕ) (layout : Layout)
      → list_index layout ≡ some i
      → owner p ≡ caller layout
      → Valid allocator owner
      → Valid
          (record allocator {
            list_heads = set allocator.list_heads i (some p);
            nodes = put p (get_or allocator.list_heads i none) allocator.nodes;
          })
          (put p (free_list i) owner)
  push-Valid allocator owner i p layout found owned valid =
      let old = get_or allocator.list_heads i none in
      let (blocks, chain) = valid.chains i in
      let not_free = caller-not_free owner p layout owned in
      let fresh = Chain-Avoids p allocator.nodes owner i old blocks (not_free i) chain in
      let nodes' = put p old allocator.nodes in
      let owner' = put p (free_list i) owner in
      let kept =
        Chain-frame p allocator.nodes nodes' owner owner' (put-other p old allocator.nodes)
          (put-other p (free_list i) owner) i old blocks fresh chain in
      record {
        nine = length-set allocator.list_heads i (some p) ∙ valid.nine;
        gave =
            Gave-put allocator.fallback_allocator owner p (free_list i)
              (ap gave_for owned ∙ gave_for-listed layout i found) valid.gave;
        chains =
            Chain-set p allocator.nodes nodes' owner owner' (put-other p old allocator.nodes)
              (put-other p (free_list i) owner) allocator.list_heads i (some p) (p ∷ blocks)
              (in_range layout i allocator.list_heads valid.nine found) (λ j apart. not_free j)
              (
                refl,
                put_self p (free_list i) owner,
                fresh,
                subst (λ h. Chain nodes' owner' i h blocks) (sym (put_self p old allocator.nodes))
                    kept,
              )
              valid.chains;
      }

  -- A caller's block goes back to the heap.
  pub give_back-Valid :
      (allocator : FixedSizeBlockAllocator heap) (owner : ℕ → Owner) (p : ℕ) (layout : Layout)
      → list_index layout ≡ none
      → owner p ≡ caller layout
      → Valid allocator owner
      → Valid
          (record allocator {
            fallback_allocator = heap.deallocate p layout allocator.fallback_allocator;
          })
          (put p heap_only owner)
  give_back-Valid allocator owner p layout found owned valid =
      let asked : gave_for (owner p) ≡ some layout =
        ap gave_for owned ∙ ap some (rounded-unlisted layout found) in
      record {
        nine = valid.nine;
        gave =
            gave_for-put (heap.deallocate p layout allocator.fallback_allocator) owner p heap_only (
              laws.takes layout allocator.fallback_allocator (λ a. gave_for (owner a)) p asked
                valid.gave);
        chains =
            chains-put allocator.nodes allocator.list_heads owner p heap_only
              (caller-not_free owner p layout owned) valid.chains;
      }

-- ===== src/Kernel/Allocator/FixedSize/Aligned.antt =====
-- kernel/src/allocator/fixed_size_block.rs: the alignment of blocks.
use native.Mathlib.Nat.{pow-le-pow_right, one-le-pow, pow-suc}
use yacuri.Base.{
  ℕ, zero, suc, ◌+◌, ◌-◌, ◌*◌, ◌^◌, ◌≤◌, ◌<◌, ◌≡◌, refl, ap, sym, subst, ◌∙◌, arith, Option-cases,
  Bool-cases, ltb, inl, inr, max,
}
use yacuri.Kernel.Allocator.Layout.{Layout, IsLayout, IsAligned}
use yacuri.Kernel.Allocator.FixedSize.{
  Heap, block_sizes, list_index, block_size, FixedSizeBlockAllocator,
}
use yacuri.Kernel.Allocator.FixedSize.Owners.{
  HeapLaws, Owner, caller, rounded, rounded_at, gave_for, Reached,
}
use yacuri.Kernel.Allocator.FixedSize.Chains.{position-fits}
use yacuri.Kernel.Allocator.FixedSize.Apart.{Reached-Valid}

block_size-power : (i : ℕ) → i < 9 → block_size i ≡ 2 ^ (i + 3)
block_size-power zero h = refl
block_size-power (suc zero) h = refl
block_size-power (suc (suc zero)) h = refl
block_size-power (suc (suc (suc zero))) h = refl
block_size-power (suc (suc (suc (suc zero)))) h = refl
block_size-power (suc (suc (suc (suc (suc zero))))) h = refl
block_size-power (suc (suc (suc (suc (suc (suc zero)))))) h = refl
block_size-power (suc (suc (suc (suc (suc (suc (suc zero))))))) h = refl
block_size-power (suc (suc (suc (suc (suc (suc (suc (suc zero)))))))) h = refl
block_size-power (suc (suc (suc (suc (suc (suc (suc (suc (suc i))))))))) h = absurd (omega arith)

power-factor : (k n j : ℕ) → j ≡ k + n → (q : ℕ) × (2 ^ j ≡ q * 2 ^ k)
power-factor k zero j h = (1, ap (λ m. 2 ^ m) same ∙ omega arith)
  where
    same : j ≡ k
    same = omega arith
power-factor k (suc n) zero h = absurd (omega arith)
power-factor k (suc n) (suc j) h =
    let (q, e) = power-factor k n j (omega arith) in (q * 2, grind (arith, pow-suc 2 j, e))

-- A power of two divides every one that is not below it.
power-divides : (k j : ℕ) → 2 ^ k ≤ 2 ^ j → (q : ℕ) × (2 ^ j ≡ q * 2 ^ k)
power-divides k j h = power-factor k (j - k) j (omega (arith, smaller))
  where
    smaller : k ≤ j
    smaller = elim (Bool-cases (ltb j k)) [
      | inl larger ↦
          let double : 2 ^ suc j ≤ 2 ^ k =
            pow-le-pow_right {n = 2} (omega arith) {i = suc j} {j = k} (ground (arith, larger)) in
          absurd (omega (arith, h, double, one-le-pow j 2 (omega arith)))
      | inr not_larger ↦ ground (arith, not_larger)
    ]

IsAligned-divides :
    (align larger p : ℕ) → (q : ℕ) × (larger ≡ q * align) → IsAligned larger p → IsAligned align p
IsAligned-divides align larger p (q, e) (r, at) = (r * q, grind (arith, e, at))

rounded-align :
    (layout : Layout) → IsLayout layout → (q : ℕ) × ((rounded layout).align ≡ q * layout.align)
unfolding list_index
rounded-align layout is_layout = elim (Option-cases (list_index layout)) [
  | inl large ↦
      subst (λ o. (q : ℕ) × ((rounded_at layout o).align ≡ q * layout.align)) (sym large)
        (1, omega arith)
  | inr (i, found) ↦
      let (in_range, fits) = position-fits block_sizes (max layout.size layout.align) i found in
      let size = block_size-power i in_range in
      let (q, e) =
        power-divides is_layout.exponent (i + 3) (omega (arith, fits, size, is_layout.power)) in
      subst (λ o. (q' : ℕ) × ((rounded_at layout o).align ≡ q' * layout.align)) (sym found)
        (q, size ∙ e ∙ ap (λ n. q * n) (sym is_layout.power))
]

module _ (heap : Heap) (laws : HeapLaws heap) where
  -- In every sequence of calls, a block that a caller holds is aligned as the caller asked.
  pub callers-IsAligned :
      (allocator : FixedSizeBlockAllocator heap) (owner : ℕ → Owner) (p : ℕ) (layout : Layout)
      → Reached heap allocator owner
      → IsLayout layout
      → owner p ≡ caller layout
      → IsAligned layout.align p
  callers-IsAligned allocator owner p layout reached is_layout holds =
      let valid = Reached-Valid heap laws allocator owner reached in
      IsAligned-divides layout.align (rounded layout).align p (rounded-align layout is_layout) (
        laws.aligned allocator.fallback_allocator (λ a. gave_for (owner a)) p (rounded layout)
          valid.gave (ap gave_for holds))

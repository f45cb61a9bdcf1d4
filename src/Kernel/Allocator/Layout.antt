-- ===== src/Kernel/Allocator/Layout.antt =====
-- kernel/src/allocator/mod.rs: layouts, and the rounding of addresses up to an alignment. Addresses
-- are `usize`, with their wrap-around at 2 ^ 64 written out, as in a build without overflow checks.
use Prim.Native.Nat.{bit_and}
use yacuri.Base.{ℕ, ◌+◌, ◌-◌, ◌*◌, ◌%◌, ◌^◌, ◌≤◌, ◌<◌, ◌≡◌, arith}
use native.Mathlib.Nat.{one-le-pow, pow-le-pow_right}
use yacuri.Base.Mask.{bit_and-mask}

-- `Layout` of core::alloc
pub record Layout : Type 0 where
  pub size : ℕ
  pub align : ℕ

-- What a layout promises: its alignment is a power of two that a word holds. A block that is
-- asked for has a byte at least.
pub record IsLayout (layout : Layout) : Type 0 where
  pub some_byte : 0 < layout.size
  pub exponent : ℕ
  pub in_word : exponent < 64
  pub power : layout.align ≡ 2 ^ exponent

abbrev pub IsAligned : ℕ → ℕ → Type 0
IsAligned align address = (q : ℕ) × (address ≡ q * align)

-- `align_up`; `!x` is `2 ^ 64 - 1 - x`.
unfoldable pub align_up : ℕ → ℕ → ℕ
align_up address align = bit_and ((address + align - 1) % 2 ^ 64) (2 ^ 64 - 1 - (align - 1))

-- The least multiple of the alignment at or above the address.
pub record Aligned (align address r : ℕ) : Type 0 where
  pub multiple : IsAligned align r
  pub above : address ≤ r
  pub close : r < address + align

-- An address in the lower half of the address space, with a power of two that a word holds, is
-- rounded up to the least multiple of the power at or above it.
pub align_up-Aligned :
    (k address : ℕ) → k < 64 → address ≤ 2 ^ 63 → Aligned (2 ^ k) address (align_up address (2 ^ k))
unfolding align_up
align_up-Aligned k address small lower =
    let fits : 2 ^ k ≤ 2 ^ 63 =
      pow-le-pow_right {n = 2} (omega arith) {i = k} {j = 63} (omega arith) in
    let positive : 0 < 2 ^ k = one-le-pow k 2 (omega arith) in
    let word : (address + 2 ^ k - 1) % 2 ^ 64 ≡ address + 2 ^ k - 1 = omega arith in
    let masked =
      bit_and-mask k (64 - k) 64 ((address + 2 ^ k - 1) % 2 ^ 64) (omega arith) (omega arith) in
    record {
      multiple = masked.multiple;
      above = omega (arith, masked.close, word);
      close = omega (arith, masked.at_most, word);
    }

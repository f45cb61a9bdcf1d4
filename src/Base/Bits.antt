-- ===== src/Base/Bits.antt =====
-- `bit_and` with a mask whose binary digits are given, lowest first.
use Prim.Native.Nat.{
  ℕ, zero, suc, ◌+◌, ◌*◌, ◌/◌, ◌%◌, ◌≤◌, ◌<◌, min, bit_and, bit_or, digits, bit_and-bitwise,
}
use mathlib.Core.Path.{◌≡◌, refl, ◌∙◌}
use mathlib.Core.Bool.{Bool, true, false, ◌&&◌}
use mathlib.Core.List.{List, [], ◌∷◌}
use native.Mathlib.Omega.{arith}
use yacuri.Base.Tests.{◌==◌, ==_iff}

abbrev bit : Bool → ℕ
bit true = 1
bit false = 0

-- The digit `x` where the mask has a one.
abbrev digit : Bool → ℕ → ℕ
digit true x = x
digit false x = 0

min-bit : (a : ℕ) (d : Bool) → min (a % 2) (bit d) ≡ digit d (a % 2)
min-bit a true = omega arith
min-bit a false = omega arith

-- The number with these digits.
abbrev pub number : List Bool → ℕ
number [] = 0
number (d ∷ ds) = number ds * 2 + bit d

-- The digits of `a` at which the mask has a one.
abbrev pub masked : List Bool → ℕ → ℕ
masked [] a = 0
masked (d ∷ ds) a = masked ds (a / 2) * 2 + digit d (a % 2)

masked-zero : (ds : List Bool) → masked ds 0 ≡ 0
masked-zero [] = refl
masked-zero (true ∷ ds) = omega (arith, masked-zero ds)
masked-zero (false ∷ ds) = omega (arith, masked-zero ds)

number-half : (d : Bool) (ds : List Bool) → number (d ∷ ds) / 2 ≡ number ds
number-half true ds = omega arith
number-half false ds = omega arith

number-odd : (d : Bool) (ds : List Bool) → number (d ∷ ds) % 2 ≡ bit d
number-odd true ds = omega arith
number-odd false ds = omega arith

-- `n` bounds the digits of `a` that are left.
digits-number :
    (n a : ℕ) (ds : List Bool) → a ≤ n → digits (λ b. zero) min n a (number ds) ≡ masked ds a
digits-number zero zero ds h = omega (arith, masked-zero ds)
digits-number zero (suc a) ds h = absurd (omega arith)
digits-number (suc n) zero ds h = omega (arith, masked-zero ds)
digits-number (suc n) (suc a) [] h = omega (arith, digits-number n (suc a / 2) [] (omega arith))
digits-number (suc n) (suc a) (d ∷ ds) h = rw (
  number-half d ds,
  number-odd d ds,
  digits-number n (suc a / 2) ds (omega arith),
  min-bit (suc a) d,
)

pub bit_and-number : (a : ℕ) (ds : List Bool) → bit_and a (number ds) ≡ masked ds a
bit_and-number a ds = bit_and-bitwise a (number ds) ∙ digits-number a a ds (omega arith)

abbrev pub ones : ℕ → List Bool → List Bool
ones zero ds = ds
ones (suc n) ds = true ∷ ones n ds

abbrev pub zeros : ℕ → List Bool → List Bool
zeros zero ds = ds
zeros (suc n) ds = false ∷ zeros n ds

-- x & 255
pub bit_and-byte : (x : ℕ) → bit_and x 255 ≡ x % 256
bit_and-byte x = omega (arith, bit_and-number x (ones 8 []))

-- x & 511
pub bit_and-sector : (x : ℕ) → bit_and x 511 ≡ x % 512
bit_and-sector x = omega (arith, bit_and-number x (ones 9 []))

-- x & 0xFF00, for a 16-bit word
pub bit_and-high_byte : (x : ℕ) → x < 65536 → bit_and x 0xFF00 ≡ x / 256 * 256
bit_and-high_byte x h = omega (arith, bit_and-number x (zeros 8 (ones 8 [])))

-- x & 15
pub bit_and-nibble : (x : ℕ) → bit_and x 15 ≡ x % 16
bit_and-nibble x = omega (arith, bit_and-number x (ones 4 []))

-- Over a small range, a check of every value by evaluation.
every_below : ℕ → (ℕ → Bool) → Bool
every_below zero test = true
every_below (suc n) test = test n && every_below n test

every_below-at :
    (n : ℕ) (test : ℕ → Bool) (x : ℕ) → x < n → every_below n test ≡ true → test x ≡ true
unfolding every_below
every_below-at zero test x lt h = absurd (omega arith)
every_below-at (suc n) test x lt h = ground (arith, every_below-at n test x)

drive_table : every_below 16 (λ x. bit_or 0xF0 x == 0xF0 + x) ≡ true
unfolding every_below
drive_table = refl

-- 0xF0 | x, for a nibble
pub bit_or-nibble : (x : ℕ) → x < 16 → bit_or 0xF0 x ≡ 0xF0 + x
bit_or-nibble x h =
    (==_iff (bit_or 0xF0 x) (0xF0 + x)).0
      (every_below-at 16 (λ x. bit_or 0xF0 x == 0xF0 + x) x h drive_table)

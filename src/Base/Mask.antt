-- ===== src/Base/Mask.antt =====
-- `bit_and` with the complement of `2 ^ k - 1` in a machine word.
use Prim.Native.Nat.{ℕ, zero, suc, ◌+◌, ◌-◌, ◌*◌, ◌/◌, ◌^◌, ◌≤◌, ◌<◌, bit_and}
use mathlib.Core.Path.{◌≡◌, refl, ◌∙◌, sym, ap, subst}
use mathlib.Core.Bool.{Bool}
use mathlib.Core.List.{List, []}
use native.Mathlib.Omega.{arith}
use native.Mathlib.Nat.{pow-suc, one-le-pow}
use yacuri.Base.Bits.{number, masked, ones, zeros, bit_and-number}

abbrev halved : ℕ → ℕ → ℕ
halved zero a = a
halved (suc k) a = halved k (a / 2)

abbrev doubled : ℕ → ℕ → ℕ
doubled zero a = a
doubled (suc k) a = doubled k a * 2

doubled_lem : (k a : ℕ) → doubled k a ≡ a * 2 ^ k
doubled_lem zero a = omega arith
doubled_lem (suc k) a = grind (arith, doubled_lem k a, pow-suc 2 k)

doubled-pow : (k m w : ℕ) → w ≡ k + m → doubled k (2 ^ m) ≡ 2 ^ w
doubled-pow zero m w h = ap (λ n. 2 ^ n) (omega arith)
doubled-pow (suc k) m zero h = absurd (omega arith)
doubled-pow (suc k) m (suc w) h = omega (arith, doubled-pow k m w (omega arith))

number-ones : (m : ℕ) → number (ones m []) + 1 ≡ 2 ^ m
number-ones zero = omega arith
number-ones (suc m) = omega (arith, number-ones m)

number-mask : (k m : ℕ) → number (zeros k (ones m [])) + 2 ^ k ≡ doubled k (2 ^ m)
number-mask zero m = omega (arith, number-ones m)
number-mask (suc k) m = omega (arith, number-mask k m)

masked-zeros :
    (k a : ℕ) (ds : List Bool) → masked (zeros k ds) a ≡ doubled k (masked ds (halved k a))
masked-zeros zero a ds = refl
masked-zeros (suc k) a ds = omega (arith, masked-zeros k (a / 2) ds)

masked-ones : (m a : ℕ) → a < 2 ^ m → masked (ones m []) a ≡ a
masked-ones zero a h = omega arith
masked-ones (suc m) a h = omega (arith, masked-ones m (a / 2) (omega arith))

halved_lt : (k m a : ℕ) → a < doubled k (2 ^ m) → halved k a < 2 ^ m
halved_lt zero m a h = h
halved_lt (suc k) m a h = halved_lt k m (a / 2) (omega arith)

doubled-halved_le : (k a : ℕ) → doubled k (halved k a) ≤ a
doubled-halved_le zero a = omega arith
doubled-halved_le (suc k) a = omega (arith, doubled-halved_le k (a / 2))

doubled-halved_gt : (k a : ℕ) → a < doubled k (halved k a) + 2 ^ k
doubled-halved_gt zero a = omega arith
doubled-halved_gt (suc k) a = omega (arith, doubled-halved_gt k (a / 2))

-- What x & !(2 ^ k - 1) is: the multiple of 2 ^ k at or just below x.
pub record Masked (k x r : ℕ) : Type 0 where
  pub multiple : (q : ℕ) × (r ≡ q * 2 ^ k)
  pub at_most : r ≤ x
  pub close : x < r + 2 ^ k

-- In words of w bits, for k ≤ w.
pub bit_and-mask :
    (k m w x : ℕ) → w ≡ k + m → x < 2 ^ w → Masked k x (bit_and x (2 ^ w - 1 - (2 ^ k - 1)))
bit_and-mask k m w x split h = subst (Masked k x) (sym equal) record {
  multiple = (halved k x, doubled_lem k (halved k x));
  at_most = doubled-halved_le k x;
  close = doubled-halved_gt k x;
}
  where
    word : doubled k (2 ^ m) ≡ 2 ^ w
    word = doubled-pow k m w split

    mask : 2 ^ w - 1 - (2 ^ k - 1) ≡ number (zeros k (ones m []))
    mask = omega (arith, number-mask k m, word, one-le-pow k 2 (omega arith))

    equal : bit_and x (2 ^ w - 1 - (2 ^ k - 1)) ≡ doubled k (halved k x)
    equal =
        ap (bit_and x) mask
        ∙ bit_and-number x (zeros k (ones m []))
        ∙ masked-zeros k x (ones m [])
        ∙ ap (doubled k) (masked-ones m (halved k x) (halved_lt k m x (omega (arith, word))))

-- ===== src/Base/Word/Mask.antt =====
-- `x & (2 ^ k - 1)` is the remainder of `x` by `2 ^ k`.
use Prim.Native.Nat.{
  ℕ, zero, suc, ◌+◌, ◌-◌, ◌*◌, ◌/◌, ◌%◌, ◌^◌, ◌≤◌, min, digits, bit_and, bit_and-bitwise,
}
use mathlib.Core.Path.{◌≡◌, refl, ap}
use native.Mathlib.Nat.{pow-suc, one-le-pow}
use native.Mathlib.Omega.{arith}

-- The recursion behind `bit_and`, on a bound for the left number.
abbrev conj : ℕ → ℕ → ℕ → ℕ
conj bound a m = digits (λ _. zero) min bound a m

conj_bound : (u v a m : ℕ) → a ≤ u → a ≤ v → conj u a m ≡ conj v a m
conj_bound zero zero a m hu hv = refl
conj_bound zero (suc v) zero m hu hv = refl
conj_bound zero (suc v) (suc a) m hu hv = absurd (omega arith)
conj_bound (suc u) zero zero m hu hv = refl
conj_bound (suc u) zero (suc a) m hu hv = absurd (omega arith)
conj_bound (suc u) (suc v) zero m hu hv = refl
conj_bound (suc u) (suc v) (suc a) m hu hv =
    omega (arith, conj_bound u v (suc a / 2) (m / 2) (omega arith) (omega arith))

bit_and-zero_left : (m : ℕ) → bit_and 0 m ≡ 0
bit_and-zero_left m = bit_and-bitwise 0 m

-- The lowest digit splits off on both sides.
bit_and-halves : (a m : ℕ) → bit_and a m ≡ 2 * bit_and (a / 2) (m / 2) + min (a % 2) (m % 2)
bit_and-halves zero m = omega (arith, bit_and-zero_left m, bit_and-zero_left (m / 2))
bit_and-halves (suc a) m = omega (
  arith,
  bit_and-bitwise (suc a) m,
  bit_and-bitwise (suc a / 2) (m / 2),
  conj_bound a (suc a / 2) (suc a / 2) (m / 2) (omega arith) (omega arith),
)

bit_and-zero_right : (u a : ℕ) → a ≤ u → bit_and a 0 ≡ 0
bit_and-zero_right u zero h = bit_and-zero_left 0
bit_and-zero_right zero (suc a) h = absurd (omega arith)
bit_and-zero_right (suc u) (suc a) h =
    omega (arith, bit_and-halves (suc a) 0, bit_and-zero_right u (suc a / 2) (omega arith))

-- A remainder by twice `p` from that of the half by `p`.
mod-double : (a p : ℕ) → 1 ≤ p → a % (p * 2) ≡ 2 * (a / 2 % p) + a % 2
mod-double a p h = grind arith

-- A mask of ones below `p * 2`, from that below `p`.
mask_step :
    (a p : ℕ) → 1 ≤ p → bit_and (a / 2) (p - 1) ≡ a / 2 % p → bit_and a (p * 2 - 1) ≡ a % (p * 2)
mask_step a p h ih =
    let half : (p * 2 - 1) / 2 ≡ p - 1 = omega arith in
    omega (arith, bit_and-halves a (p * 2 - 1), ap (bit_and (a / 2)) half, ih, mod-double a p h)

pub bit_and_mask : (k a : ℕ) → bit_and a (2 ^ k - 1) ≡ a % 2 ^ k
bit_and_mask zero a = omega (arith, bit_and-zero_right a a (omega arith))
bit_and_mask (suc k) a =
    rw (pow-suc 2 k) (mask_step a (2 ^ k) (one-le-pow k 2 (omega arith)) (bit_and_mask k (a / 2)))

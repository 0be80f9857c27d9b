-- ===== src/Base/Word.antt =====
-- `uint32_t` arithmetic as native numbers below 2 ^ 32, with the wrap written out, and masks.
mod Mask
use Mask.{bit_and_mask}
use Prim.Native.Nat.{ℕ, zero, suc, ◌+◌, ◌-◌, ◌*◌, ◌%◌, ◌^◌, ◌≤◌, ◌<◌, ◌∣◌, bit_and}
use mathlib.Core.Path.{◌≡◌, subst}
use native.Mathlib.Nat.{
  mod-mod_of_dvd, pow-suc, dvd-mul_left, one-le-pow, pow-le-pow_right, lt_of_le_of_lt, add-zero,
  add-suc,
}
use native.Mathlib.Omega.{arith}

abbrev pub u32_mod : ℕ
u32_mod = 2 ^ 32

abbrev pub add32 : ℕ → ℕ → ℕ
add32 a b = (a + b) % u32_mod

abbrev pub sub32 : ℕ → ℕ → ℕ
sub32 a b = (a + u32_mod - b) % u32_mod

-- A power of two that a positive `int` can hold.
pub record IsPow2 (n : ℕ) : Type 0 where
  pub exponent : ℕ
  pub small : exponent ≤ 30
  pub power : n ≡ 2 ^ exponent

pub IsPow2-pos : {n : ℕ} → IsPow2 n → 1 ≤ n
IsPow2-pos h = rw h.power (one-le-pow h.exponent 2 (omega arith))

pub IsPow2-lt : {n : ℕ} → IsPow2 n → n < 2 ^ 31
IsPow2-lt h =
    rw h.power (lt_of_le_of_lt (pow-le-pow_right {n = 2} (omega arith) h.small) (omega arith))

-- 2 ^ 32 is a multiple of a smaller power of two.
pow-split : (k d : ℕ) → 2 ^ (k + d) ≡ 2 ^ d * 2 ^ k
pow-split k zero = rw (add-zero k) (omega arith)
pow-split k (suc d) = rw (add-suc k d, pow-suc 2 (k + d), pow-suc 2 d, pow-split k d) (omega arith)

IsPow2-dvd : {n : ℕ} → IsPow2 n → n ∣ u32_mod
IsPow2-dvd h =
    let e : exponent + (32 - exponent) ≡ 32 = omega (arith, h.small) in
    rw h.power (
      subst (λ t. 2 ^ exponent ∣ 2 ^ t) e
        (rw (pow-split exponent (32 - exponent))
          (dvd-mul_left (2 ^ exponent) (2 ^ (32 - exponent)))))
  where
    open h use {exponent}

-- `x & (n - 1)` is an index below `n`.
pub mask-mod : {n : ℕ} → IsPow2 n → (x : ℕ) → bit_and x (n - 1) ≡ x % n
mask-mod h x = rw h.power (bit_and_mask h.exponent x)

-- The wrap of the counters does not move an index.
pub mod-u32 : {n : ℕ} → IsPow2 n → (x : ℕ) → x % u32_mod % n ≡ x % n
mod-u32 {n} h x = mod-mod_of_dvd n x (IsPow2-dvd h)

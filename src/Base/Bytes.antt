-- ===== src/Base/Bytes.antt =====
-- A `uint32_t` in memory: four bytes, the lowest first.
use Prim.Native.Nat.{ℕ, ◌+◌, ◌*◌, ◌/◌, ◌%◌, ◌^◌, ◌<◌}
use mathlib.Core.Path.{◌≡◌, refl, ap₂}
use mathlib.Core.Logic.{◌≢◌, inl, inr}
use mathlib.Core.Bool.{Bool, true, false, ◌&&◌}
use mathlib.Core.List.{List, [], ◌∷◌}
use native.Mathlib.Omega.{arith}
use gaia_net.Base.Tests.{◌==◌, Bool-cases}
use gaia_net.Base.Lists.{length, get_or}

unfoldable pub encode32 : ℕ → List ℕ
encode32 n = (n % 256) ∷ (n / 256 % 256) ∷ (n / 65536 % 256) ∷ (n / 16777216 % 256) ∷ []

unfoldable pub decode32 : List ℕ → ℕ
decode32 bs = get_or bs 0 0 + 256 * get_or bs 1 0 + 65536 * get_or bs 2 0 + 16777216 * get_or bs 3 0

pub length-encode32 : (n : ℕ) → length (encode32 n) ≡ 4
unfolding encode32
length-encode32 n = refl

pub decode32-encode32 : (n : ℕ) → n < 2 ^ 32 → decode32 (encode32 n) ≡ n
unfolding encode32 decode32
decode32-encode32 n h = omega arith

-- Equality of two strings.
unfoldable pub same_bytes : List ℕ → List ℕ → Bool
same_bytes [] [] = true
same_bytes [] (y ∷ ys) = false
same_bytes (x ∷ xs) [] = false
same_bytes (x ∷ xs) (y ∷ ys) = x == y && same_bytes xs ys

pub same_bytes_self : (xs : List ℕ) → same_bytes xs xs ≡ true
unfolding same_bytes
same_bytes_self [] = refl
same_bytes_self (x ∷ xs) = ground (arith, same_bytes_self xs)

pub same_bytes→eq : (xs ys : List ℕ) → same_bytes xs ys ≡ true → xs ≡ ys
unfolding same_bytes
same_bytes→eq [] [] h = refl
same_bytes→eq [] (y ∷ ys) h = absurd (ground arith)
same_bytes→eq (x ∷ xs) [] h = absurd (ground arith)
same_bytes→eq (x ∷ xs) (y ∷ ys) h =
    let heads : x ≡ y = ground arith in ap₂ ◌∷◌ heads (same_bytes→eq xs ys (ground arith))

pub same_bytes_other : (xs ys : List ℕ) → xs ≢ ys → same_bytes xs ys ≡ false
same_bytes_other xs ys h = elim (Bool-cases (same_bytes xs ys)) [
  | inl e ↦ absurd (h (same_bytes→eq xs ys e))
  | inr e ↦ e
]

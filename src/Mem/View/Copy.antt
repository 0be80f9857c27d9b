-- ===== src/Mem/View/Copy.antt =====
-- What a byte of memory is after a copy.
use gaia_net.Base.{
  ℕ, zero, suc, ◌+◌, ◌≤◌, ◌<◌, ◌≡◌, refl, ap, ◌⊎◌, inr, List, [], ◌∷◌, arith, length, get_or,
}
use gaia_net.Mem.View.{memcpy_at}

pub length-memcpy_at :
    (dst : List ℕ) (off : ℕ) (src : List ℕ) → length (memcpy_at dst off src) ≡ length dst
unfolding memcpy_at
length-memcpy_at dst off [] = refl
length-memcpy_at [] off (x ∷ xs) = refl
length-memcpy_at (d ∷ dst) zero (x ∷ xs) = ap suc (length-memcpy_at dst 0 xs)
length-memcpy_at (d ∷ dst) (suc off) (x ∷ xs) = ap suc (length-memcpy_at dst off (x ∷ xs))

-- A byte inside the copied block, at index `j`.
pub get_or-memcpy_at_in :
    (dst : List ℕ) (off : ℕ) (src : List ℕ) (j i : ℕ)
    → j ≡ off + i
    → i < length src
    → j < length dst
    → get_or (memcpy_at dst off src) j 0 ≡ get_or src i 0
unfolding memcpy_at
get_or-memcpy_at_in dst off [] j i e h k = absurd (omega arith)
get_or-memcpy_at_in [] off (x ∷ xs) j i e h k = absurd (omega arith)
get_or-memcpy_at_in (d ∷ dst) zero (x ∷ xs) zero zero e h k = refl
get_or-memcpy_at_in (d ∷ dst) zero (x ∷ xs) zero (suc i) e h k = absurd (omega arith)
get_or-memcpy_at_in (d ∷ dst) zero (x ∷ xs) (suc j) zero e h k = absurd (omega arith)
get_or-memcpy_at_in (d ∷ dst) zero (x ∷ xs) (suc j) (suc i) e h k =
    get_or-memcpy_at_in dst 0 xs j i (omega arith) (omega arith) (omega arith)
get_or-memcpy_at_in (d ∷ dst) (suc off) (x ∷ xs) zero i e h k = absurd (omega arith)
get_or-memcpy_at_in (d ∷ dst) (suc off) (x ∷ xs) (suc j) i e h k =
    get_or-memcpy_at_in dst off (x ∷ xs) j i (omega arith) (omega arith) (omega arith)

-- A byte before or behind the block stays.
pub get_or-memcpy_at_out :
    (dst : List ℕ) (off : ℕ) (src : List ℕ) (j : ℕ)
    → (j < off) ⊎ (off + length src ≤ j)
    → get_or (memcpy_at dst off src) j 0 ≡ get_or dst j 0
unfolding memcpy_at
get_or-memcpy_at_out dst off [] j h = refl
get_or-memcpy_at_out [] off (x ∷ xs) j h = refl
get_or-memcpy_at_out (d ∷ dst) zero (x ∷ xs) zero h = absurd (omega arith)
get_or-memcpy_at_out (d ∷ dst) zero (x ∷ xs) (suc j) h =
    get_or-memcpy_at_out dst 0 xs j (inr (omega arith))
get_or-memcpy_at_out (d ∷ dst) (suc off) (x ∷ xs) zero h = refl
get_or-memcpy_at_out (d ∷ dst) (suc off) (x ∷ xs) (suc j) h =
    get_or-memcpy_at_out dst off (x ∷ xs) j (omega arith)

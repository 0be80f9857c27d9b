-- ===== src/Base/Table.antt =====
-- Lists given by a function of the index, and equality of lists entry by entry.
use Prim.Native.Nat.{ℕ, zero, suc, ◌+◌, ◌-◌, ◌≤◌, ◌<◌}
use mathlib.Core.Path.{◌≡◌, refl, ap, ap₂, ◌∙◌}
use mathlib.Core.List.{List, [], ◌∷◌, ◌++◌}
use native.Mathlib.Omega.{arith}
use gaia_net.Base.Lists.{length, get_or, take, drop}

module _ {ℓ} {A : Type ℓ} where
  abbrev pub tabulate : ℕ → (ℕ → A) → List A
  tabulate zero f = []
  tabulate (suc n) f = f 0 ∷ tabulate n (λ i. f (suc i))

  pub tabulate_ext :
      (n : ℕ) (f g : ℕ → A) → ((i : ℕ) → i < n → f i ≡ g i) → tabulate n f ≡ tabulate n g
  tabulate_ext zero f g h = refl
  tabulate_ext (suc n) f g h =
      ap₂ ◌∷◌ (h 0 (omega arith))
        (tabulate_ext n (λ i. f (suc i)) (λ i. g (suc i)) (λ i lt. h (suc i) (omega arith)))

  pub length-tabulate : (n : ℕ) (f : ℕ → A) → length (tabulate n f) ≡ n
  length-tabulate zero f = refl
  length-tabulate (suc n) f = ap suc (length-tabulate n (λ i. f (suc i)))

  pub tabulate-add :
      (n m : ℕ) (f : ℕ → A) → tabulate (n + m) f ≡ tabulate n f ++ tabulate m (λ i. f (n + i))
  tabulate-add zero m f =
      let e : zero + m ≡ m = omega arith in
      rw e (tabulate_ext m f (λ i. f (zero + i)) (λ i lt. ap f (omega arith)))
  tabulate-add (suc n) m f =
      let e : suc n + m ≡ suc (n + m) = omega arith in
      rw e (
        rw (tabulate-add n m (λ i. f (suc i))) (
          ap (λ t. f 0 ∷ (tabulate n (λ i. f (suc i)) ++ t))
            (tabulate_ext m (λ i. f (suc (n + i))) (λ i. f (suc n + i))
              (λ i lt. ap f (omega arith)))))

  -- A list is the table of its entries.
  pub take-tabulate :
      (n : ℕ) (xs : List A) (d : A) → n ≤ length xs → take n xs ≡ tabulate n (λ i. get_or xs i d)
  take-tabulate zero xs d h = refl
  take-tabulate (suc n) [] d h = absurd (omega arith)
  take-tabulate (suc n) (x ∷ xs) d h = ap (◌∷◌ x) (take-tabulate n xs d (omega arith))

  pub take-tabulate_le : (k n : ℕ) (f : ℕ → A) → k ≤ n → take k (tabulate n f) ≡ tabulate k f
  take-tabulate_le zero n f h = refl
  take-tabulate_le (suc k) zero f h = absurd (omega arith)
  take-tabulate_le (suc k) (suc n) f h =
      ap (◌∷◌ (f 0)) (take-tabulate_le k n (λ i. f (suc i)) (omega arith))

  pub drop-tabulate_le :
      (k n : ℕ) (f : ℕ → A) → k ≤ n → drop k (tabulate n f) ≡ tabulate (n - k) (λ i. f (k + i))
  drop-tabulate_le zero n f h =
      ap (λ t. tabulate t f) (omega arith)
      ∙ tabulate_ext (n - zero) f (λ i. f (zero + i)) (λ i lt. ap f (omega arith))
  drop-tabulate_le (suc k) zero f h = absurd (omega arith)
  drop-tabulate_le (suc k) (suc n) f h =
      drop-tabulate_le k n (λ i. f (suc i)) (omega arith)
      ∙ ap (λ t. tabulate t (λ i. f (suc (k + i)))) (omega arith)
      ∙ tabulate_ext (suc n - suc k) _ (λ i. f (suc k + i)) (λ i lt. ap f (omega arith))

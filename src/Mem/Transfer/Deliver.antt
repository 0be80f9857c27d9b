-- ===== src/Mem/Transfer/Deliver.antt =====
-- Every run of a transfer ends, and ends well.
use gaia_net.Base.{ℕ, zero, suc, ◌<◌, ◌≡◌, refl, sym, subst, ◌⊎◌, inl, inr, arith}
use gaia_net.Mem.Transfer.{Link, Step, Steps, here, next}
use gaia_net.Mem.Transfer.Inv.{Inv, Step-Inv, progress, Finished, over}

module _ {ℓ κ} {A : Type ℓ} {B : Type κ} (b : B) where
  -- What can be said of a state that `n` steps reach from one with `m` calls to make.
  abbrev pub Outcome : ℕ → ℕ → Link A B → Type (ℓ ⊔ κ)
  Outcome m n t = ((n < m) × ((u : Link A B) × Step t u)) ⊎ ((n ≡ m) × Finished b t)

  now : (m : ℕ) {s : Link A B} → Inv b m s → Outcome m zero s
  now zero inv = inr (refl, over b inv)
  now (suc m) inv = inl (omega arith, progress b m inv)

  later : (m n : ℕ) {t : Link A B} → Outcome m n t → Outcome (suc m) (suc n) t
  later m n (inl (h, s)) = inl (omega arith, s)
  later m n (inr (h, f)) = inr (omega arith, f)

  pub steps_outcome : (m n : ℕ) {s t : Link A B} → Inv b m s → Steps n s t → Outcome m n t
  steps_outcome m zero inv here = now m inv
  steps_outcome m (suc n) {t = u} inv (next step rest) =
      let (m', e, inv') = Step-Inv b m inv step in
      subst (λ k. Outcome k (suc n) u) (sym e) (later m' n (steps_outcome m' n inv' rest))

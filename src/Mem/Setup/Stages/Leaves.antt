-- ===== src/Mem/Setup/Stages/Leaves.antt =====
-- No step of one side moves the other one.
use gaia_net.Base.{
  ℕ, ◌≡◌, inl, inr, refl, sym, subst, Bool, true, false, Option, none, some, Option-cases,
}
use gaia_net.Mem.View.{View}
use gaia_net.Mem.Setup.Stages.{
  Side, Creator, clears, locks, opens, inits, frees, up, Attacher, looks, queues, attaches,
  releases, joined, World, Turn, waiting, failed, goes, open_or_make, when_free, create, look,
  on_attach, on_object, attach,
}
use gaia_net.Mem.View.{attach_init}

-- What a turn that goes on leaves.
abbrev pub Leaves : (World → Type 0) → Turn → Type 0
Leaves P waiting = Unit {0}
Leaves P failed = Unit {0}
Leaves P (goes w) = P w

when_free-Leaves : (P : World → Type 0) (b : Bool) (w : World) → P w → Leaves P (when_free b w)
when_free-Leaves P true w p = tt
when_free-Leaves P false w p = p

module _ (size : ℕ) (cv : Bool) (w : World) where
  pub create-Leaves : (c : Creator) → Leaves (λ w'. w'.attacher ≡ w.attacher) (create size cv c w)
  create-Leaves (clears r) = refl
  create-Leaves (locks r) = when_free-Leaves (λ w'. w'.attacher ≡ w.attacher) (w.locked r) _ refl
  create-Leaves (opens r) = elim (Option-cases (w.names r)) [
    | inl e ↦ subst (λ o. (open_or_make o w r).attacher ≡ w.attacher) (sym e) refl
    | inr (k, e) ↦ subst (λ o. (open_or_make o w r).attacher ≡ w.attacher) (sym e) refl
  ]
  create-Leaves (inits r id) = refl
  create-Leaves (frees r) = refl
  create-Leaves up = tt

  look-Leaves : (o : Option ℕ) (r : Side) → Leaves (λ w'. w'.creator ≡ w.creator) (look o w r)
  look-Leaves none r = tt
  look-Leaves (some id) r = refl

  on_attach-Leaves :
      (o : Option View) (r : Side) (id : ℕ)
      → Leaves (λ w'. w'.creator ≡ w.creator) (on_attach o w r id)
  on_attach-Leaves none r id = tt
  on_attach-Leaves (some v) r id = refl

  on_object-Leaves :
      (o : Option View) (r : Side) (id : ℕ)
      → Leaves (λ w'. w'.creator ≡ w.creator) (on_object cv o w r id)
  on_object-Leaves none r id = tt
  on_object-Leaves (some v) r id = on_attach-Leaves (attach_init v cv) r id

  pub attach-Leaves : (a : Attacher) → Leaves (λ w'. w'.creator ≡ w.creator) (attach size cv a w)
  attach-Leaves (looks r) = look-Leaves (w.names r) r
  attach-Leaves (queues r id) = when_free-Leaves (λ w'. w'.creator ≡ w.creator) (w.locked r) _ refl
  attach-Leaves (attaches r id) = on_object-Leaves (w.objects id) r id
  attach-Leaves (releases r) = refl
  attach-Leaves joined = tt

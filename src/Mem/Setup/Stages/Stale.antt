-- ===== src/Mem/Setup/Stages/Stale.antt =====
-- What an object that an earlier channel has left does to the set-up of src/memchannel.cpp.
use gaia_net.Base.{ℕ, ◌≡◌, refl, ap, ◌∙◌, Bool, none, some}
use gaia_net.Mem.Setup.Pairing.{shared, attach_init_lem}
use gaia_net.Mem.Setup.Stages.{
  Side, send_ring, recv_ring, up, attaches, releases, joined, World, set, put, creator_turn,
  on_attach, on_object, attach, attacher_turn, Step, creator_steps, attacher_steps, Steps, here,
  next, begin,
}
use gaia_net.Mem.Setup.Stages.Inv.{new}

-- The channel before had made the object 0, which nobody has attached to, under the name of `recv_ring`.
abbrev pub left_over : ℕ → Bool → World
left_over size cv = begin (set recv_ring (some 0) (λ r. none)) (λ id. some (new size cv)) 1

-- Both sides are through, on different objects for `recv_ring`: 2, which has no name and is not attached to, and 0.
pub record Crossed (size : ℕ) (cv : Bool) (w : World) : Type 0 where
  pub creator_up : w.creator ≡ up
  pub attacher_joined : w.attacher ≡ joined
  pub made : w.made recv_ring ≡ some 2
  pub got : w.got recv_ring ≡ some 0
  pub name : w.names recv_ring ≡ none
  pub new_object : w.objects 2 ≡ some (new size cv)
  pub attached : w.objects 0 ≡ some (shared size cv)

module _ (size : ℕ) (cv : Bool) where
  attach_step :
      (w : World) (r : Side) (id : ℕ)
      → w.attacher ≡ attaches r id
      → w.objects id ≡ some (new size cv)
      → Step size cv w (record w {
        objects = put id (some (shared size cv)) w.objects;
        names = set r none w.names;
        got = set r (some id) w.got;
        attacher = releases r;
      })
  unfolding attacher_turn
  attach_step w r id e o = attacher_steps (
      ap (λ a. attach size cv a w) e
      ∙ ap (λ v. on_object cv v w r id) o
      ∙ ap (λ v. on_attach v w r id) (attach_init_lem size cv))

-- When the name leads to an object of an earlier channel that nobody has attached to, both sides can
-- get through their set-up without a failing assertion and with different objects for one ring.
pub sides_cross :
    (size : ℕ) (cv : Bool)
    → (w : World) × Steps size cv 18 (left_over size cv) w × Crossed size cv w
unfolding creator_turn attacher_turn
sides_cross size cv =
    let opened = next here (attacher_steps refl) in
    let cleared = next (next opened (creator_steps refl)) (creator_steps refl) in
    let one =
      next
        (next (next (next cleared (creator_steps refl)) (creator_steps refl)) (creator_steps refl))
        (creator_steps refl) in
    let two =
      next (next (next (next one (creator_steps refl)) (creator_steps refl)) (creator_steps refl))
        (creator_steps refl) in
    let crossed =
      next (next (next two (attacher_steps refl)) (attach_step size cv _ recv_ring 0 refl refl))
        (attacher_steps refl) in
    let met =
      next
        (next (next (next crossed (attacher_steps refl)) (attacher_steps refl))
          (attach_step size cv _ send_ring 1 refl refl))
        (attacher_steps refl) in
    (
      _,
      met,
      record {
        creator_up = refl;
        attacher_joined = refl;
        made = refl;
        got = refl;
        name = refl;
        new_object = refl;
        attached = refl;
      },
    )

-- ===== src/Mem/Setup/Stages/Meets.antt =====
-- That both sides meet on the same two rings, however their steps interleave.
use gaia_net.Base.{
  ℕ, ◌+◌, ◌<◌, ◌≡◌, ◌≢◌, ◌⊎◌, inl, inr, refl, ap, sym, ◌∙◌, subst, Bool, false, Option, none, some,
  arith, zero, suc,
}
use gaia_net.Mem.View.{View}
use gaia_net.Mem.Setup.Pairing.{shared}
use gaia_net.Mem.Setup.Stages.{
  Side, send_ring, recv_ring, Creator, clears, locks, opens, inits, frees, up, Attacher, looks,
  queues, attaches, releases, joined, World, Turn, waiting, failed, goes, creator_turn,
  attacher_turn, Step, creator_steps, attacher_steps, Steps, here, next, begin,
}
use gaia_net.Mem.Setup.Stages.Inv.{Inv, creator_left, attacher_left}
use gaia_net.Mem.Setup.Stages.Creates.{CreatorSound, create-Sound}
use gaia_net.Mem.Setup.Stages.Attaches.{AttacherSound, attach-Sound}
use gaia_net.Mem.Setup.Stages.Leaves.{Leaves, create-Leaves, attach-Leaves}

pos_cases : (n : ℕ) → (n ≡ 0) ⊎ (0 < n)
pos_cases zero = inl refl
pos_cases (suc n) = inr (omega arith)

each_side : (P : Side → Type 0) → P send_ring → P recv_ring → (r : Side) → P r
each_side P p q send_ring = p
each_side P p q recv_ring = q

-- Both sides are through, on the same two objects, which hold one empty ring each; the names are gone
-- and the locks are free.
pub record Met (size : ℕ) (cv : Bool) (base : ℕ) (w : World) : Type 0 where
  pub creator_up : w.creator ≡ up
  pub attacher_joined : w.attacher ≡ joined
  pub send_made : w.made send_ring ≡ some base
  pub send_got : w.got send_ring ≡ some base
  pub recv_made : w.made recv_ring ≡ some (base + 1)
  pub recv_got : w.got recv_ring ≡ some (base + 1)
  pub send_object : w.objects base ≡ some (shared size cv)
  pub recv_object : w.objects (base + 1) ≡ some (shared size cv)
  pub no_names : (r : Side) → w.names r ≡ none
  pub unlocked : (r : Side) → w.locked r ≡ false

left_up : (c : Creator) → creator_left c ≡ 0 → c ≡ up
left_up (clears send_ring) e = absurd (omega (arith, e))
left_up (clears recv_ring) e = absurd (omega (arith, e))
left_up (locks send_ring) e = absurd (omega (arith, e))
left_up (locks recv_ring) e = absurd (omega (arith, e))
left_up (opens send_ring) e = absurd (omega (arith, e))
left_up (opens recv_ring) e = absurd (omega (arith, e))
left_up (inits send_ring id) e = absurd (omega (arith, e))
left_up (inits recv_ring id) e = absurd (omega (arith, e))
left_up (frees send_ring) e = absurd (omega (arith, e))
left_up (frees recv_ring) e = absurd (omega (arith, e))
left_up up e = refl

left_joined : (a : Attacher) → attacher_left a ≡ 0 → a ≡ joined
left_joined (looks send_ring) e = absurd (omega (arith, e))
left_joined (looks recv_ring) e = absurd (omega (arith, e))
left_joined (queues send_ring id) e = absurd (omega (arith, e))
left_joined (queues recv_ring id) e = absurd (omega (arith, e))
left_joined (attaches send_ring id) e = absurd (omega (arith, e))
left_joined (attaches recv_ring id) e = absurd (omega (arith, e))
left_joined (releases send_ring) e = absurd (omega (arith, e))
left_joined (releases recv_ring) e = absurd (omega (arith, e))
left_joined joined e = refl

module _ (size : ℕ) (cv : Bool) (base : ℕ) where
  -- The invariant, and the steps taken and left.
  abbrev On : ℕ → World → Type 0
  On n w =
      Inv size cv base w.creator w.attacher w
      × (n + creator_left w.creator + attacher_left w.attacher ≡ 18)

  Step-On : (n : ℕ) (w w' : World) → On n w → Step size cv w w' → On (n + 1) w'
  unfolding creator_turn attacher_turn
  Step-On n w w' (v, count) (creator_steps e) =
      let sound =
        subst (CreatorSound size cv base (creator_left w.creator) w.attacher) e
          (create-Sound size cv base w.attacher w w.creator v) in
      let stays : w'.attacher ≡ w.attacher =
        subst (Leaves (λ x. x.attacher ≡ w.attacher)) e (create-Leaves size cv w w.creator) in
      (
        subst (λ a. Inv size cv base w'.creator a w') (sym stays) sound.0,
        ap (λ a. n + 1 + creator_left w'.creator + attacher_left a) stays
            ∙ omega (arith, count, sound.1),
      )
  Step-On n w w' (v, count) (attacher_steps e) =
      let sound =
        subst (AttacherSound size cv base w.creator (attacher_left w.attacher)) e
          (attach-Sound size cv base w.creator w w.attacher v) in
      let stays : w'.creator ≡ w.creator =
        subst (Leaves (λ x. x.creator ≡ w.creator)) e (attach-Leaves size cv w w.attacher) in
      (
        subst (λ c. Inv size cv base c w'.attacher w') (sym stays) sound.0,
        ap (λ c. n + 1 + creator_left c + attacher_left w'.attacher) stays
            ∙ omega (arith, count, sound.1),
      )

  Steps-On : (n : ℕ) (w w' : World) → On 0 w → Steps size cv n w w' → On n w'
  Steps-On n w w' o here = o
  Steps-On n w w' o (next steps step) = Step-On _ _ _ (Steps-On _ _ _ o steps) step

  Inv-Met :
      (w : World)
      → Inv size cv base up joined w
      → w.creator ≡ up
      → w.attacher ≡ joined
      → Met size cv base w
  Inv-Met w v e e' = record {
    creator_up = e;
    attacher_joined = e';
    send_made = v.at_send.3;
    send_got = v.at_send.4;
    recv_made = v.at_recv.3;
    recv_got = v.at_recv.4;
    send_object = v.at_send.1;
    recv_object = v.at_recv.1;
    no_names = each_side (λ r. w.names r ≡ none) v.at_send.0 v.at_recv.0;
    unlocked = each_side (λ r. w.locked r ≡ false) v.at_send.2 v.at_recv.2;
  }

  -- No turn of the constructor fails, and it waits only at its end.
  Creator-turn :
      (n : ℕ) (w : World)
      → On n w
      → CreatorSound size cv base (creator_left w.creator) w.attacher (creator_turn size cv w)
  unfolding creator_turn
  Creator-turn n w (v, count) = create-Sound size cv base w.attacher w w.creator v

  Attacher-turn :
      (n : ℕ) (w : World)
      → On n w
      → AttacherSound size cv base w.creator (attacher_left w.attacher) (attacher_turn size cv w)
  unfolding attacher_turn
  Attacher-turn n w (v, count) = attach-Sound size cv base w.creator w w.attacher v

  creator_goes :
      (left : ℕ) (a : Attacher) (t : Turn)
      → CreatorSound size cv base left a t
      → 0 < left
      → (w' : World) × (t ≡ goes w')
  creator_goes left a waiting s l = absurd (omega (arith, s, l))
  creator_goes left a failed s l = absurd s
  creator_goes left a (goes w') s l = (w', refl)

  attacher_goes :
      (c : Creator) (left : ℕ) (t : Turn)
      → AttacherSound size cv base c left t
      → 0 < left
      → creator_left c ≡ 0
      → (w' : World) × (t ≡ goes w')
  attacher_goes c left waiting (inl e) l z = absurd (omega (arith, e, l))
  attacher_goes c left waiting (inr e) l z = absurd (omega (arith, e, z))
  attacher_goes c left failed s l z = absurd s
  attacher_goes c left (goes w') s l z = (w', refl)

  creator_not_failed :
      (left : ℕ) (a : Attacher) (t : Turn) → CreatorSound size cv base left a t → t ≢ failed
  creator_not_failed left a waiting s = λ e. cc
  creator_not_failed left a failed s = absurd s
  creator_not_failed left a (goes w) s = λ e. cc

  attacher_not_failed :
      (c : Creator) (left : ℕ) (t : Turn) → AttacherSound size cv base c left t → t ≢ failed
  attacher_not_failed c left waiting s = λ e. cc
  attacher_not_failed c left failed s = absurd s
  attacher_not_failed c left (goes w) s = λ e. cc

  -- One of the two goes on, or both are through.
  On-turn :
      (n : ℕ) (w : World)
      → On n w
      → ((n < 18) × (w' : World) × Step size cv w w') ⊎ ((n ≡ 18) × Met size cv base w)
  On-turn n w o = elim (pos_cases (creator_left w.creator)) [
    | inl c_none ↦ elim (pos_cases (attacher_left w.attacher)) [
      | inl a_none ↦
          let u = left_up w.creator c_none in
          let j = left_joined w.attacher a_none in
          inr (
            omega (arith, o.1, c_none, a_none),
            Inv-Met w
                (subst (λ a. Inv size cv base up a w) j
                  (subst (λ c. Inv size cv base c w.attacher w) u o.0))
                u j,
          )
      | inr a_some ↦
          let (w', e) = attacher_goes w.creator _ _ (Attacher-turn n w o) a_some c_none in
          inl (omega (arith, o.1, a_some), w', attacher_steps e)
    ]
    | inr c_some ↦
        let (w', e) = creator_goes _ w.attacher _ (Creator-turn n w o) c_some in
        inl (omega (arith, o.1, c_some), w', creator_steps e)
  ]

-- When neither ring has a name, the two sides set up their channel in every order of their steps: no
-- assertion fails, and until 18 steps are taken some side can take one; after the 18th both are through, on the
-- same two objects.
pub sides_meet :
    (size : ℕ) (cv : Bool) (names : Side → Option ℕ) (objects : ℕ → Option View) (fresh n : ℕ)
    (w : World)
    → names send_ring ≡ none
    → names recv_ring ≡ none
    → Steps size cv n (begin names objects fresh) w
    → (creator_turn size cv w ≢ failed)
      × (attacher_turn size cv w ≢ failed)
      × (((n < 18) × (w' : World) × Step size cv w w') ⊎ ((n ≡ 18) × Met size cv fresh w))
sides_meet size cv names objects fresh n w e e' steps =
    let o =
      Steps-On size cv fresh n _ w
        (
          record {
            at_send = (e, refl, refl, refl);
            at_recv = (e', refl, refl, refl);
            free_from = omega arith;
            creator_knows = tt;
            attacher_knows = tt;
          },
          refl,
        )
        steps in
    (
      creator_not_failed size cv fresh _ _ _ (Creator-turn size cv fresh n w o),
      attacher_not_failed size cv fresh _ _ _ (Attacher-turn size cv fresh n w o),
      On-turn size cv fresh n w o,
    )

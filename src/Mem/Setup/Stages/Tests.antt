-- ===== src/Mem/Setup/Stages/Tests.antt =====
-- Runs of the two sides.
use gaia_net.Base.{ℕ, ◌<◌, ◌≡◌, ◌≢◌, ◌⊎◌, refl, true, false, none}
use gaia_net.Mem.Setup.Stages.{
  send_ring, recv_ring, opens, World, set, failed, creator_turn, attacher_turn, Step, creator_steps,
  Steps, here, next, begin,
}
use gaia_net.Mem.Setup.Stages.Meets.{Met, sides_meet}
use gaia_net.Mem.Setup.Stages.Stale.{left_over, Crossed, sides_cross}

-- After the names are cleared and the first lock is taken.
abbrev third : World
third = record (begin (λ r. none) (λ id. none) 5) {
  names = set recv_ring none (set send_ring none (λ r. none));
  locked = set send_ring true (λ r. false);
  creator = opens send_ring;
}

abbrev steps_made : ℕ
steps_made = 3

three : Steps 16 true steps_made (begin (λ r. none) (λ id. none) 5) third
unfolding creator_turn
three = next (next (next here (creator_steps refl)) (creator_steps refl)) (creator_steps refl)

sides_meet_example :
    (creator_turn 16 true third ≢ failed)
    × (attacher_turn 16 true third ≢ failed)
    × (((steps_made < 18) × (w' : World) × Step 16 true third w')
        ⊎ ((steps_made ≡ 18) × Met 16 true 5 third))
sides_meet_example = sides_meet 16 true (λ r. none) (λ id. none) 5 steps_made third refl refl three

sides_cross_example : (w : World) × Steps 16 true 18 (left_over 16 true) w × Crossed 16 true w
sides_cross_example = sides_cross 16 true

-- ===== src/Keys/Tests.antt =====
-- Names of two small parties.
use gaia_net.Base.{ℕ, ◌≡◌, ◌*◌, ◌+◌, List, [], ◌∷◌, arith}
use gaia_net.Keys.{recv_key, object_key}
use gaia_net.Keys.Distinct.{recv_key_collides}

abbrev task : List ℕ
task = b't' ∷ b'_' ∷ b'7' ∷ []

recv_key_collides_example :
    (recv_key (1 * 10 + 2) 3 task ≡ recv_key 1 (2 * 10 + 3) task)
    × (object_key (1 * 10 + 2) 3 ≡ object_key 1 (2 * 10 + 3))
recv_key_collides_example =
    recv_key_collides 1 2 3 task (omega arith) (omega arith) (omega arith) (omega arith)

-- ===== src/Redis/Tests.antt =====
-- A connection over a host and a port.
use gaia_net.Base.{false, ℕ, ◌≡◌, ◌↔◌, List, [], ◌∷◌, Option, none, some}
use gaia_net.Base.Int.{ℤ, pos}
use gaia_net.Redis.{Env, redis_with, RedisClient, null_used, threw, made, by_redis, new}
use gaia_net.Redis.Selection.{at_port, Selects, Lacks, Unparsed}
use gaia_net.Redis.Choice.{new-Selects}

-- What the libraries answer in these tests.
abbrev number : List ℕ → ℤ
number text = pos 6379

abbrev no_nodes : List ℕ → Option (List (List ℕ × ℤ))
no_nodes text = none

abbrev single : Env
single = record {
  cluster_mode = none;
  use_three_factors = some (49 ∷ []);
  cluster_host = none;
  cluster_password = none;
  cluster_port = none;
  sentinel_password = none;
  sentinel_master = none;
  cluster_nodes = none;
  redis_host = some (104 ∷ []);
  redis_password = none;
  redis_port = some (54 ∷ 51 ∷ 55 ∷ 57 ∷ []);
}

abbrev client : RedisClient
client = by_redis false (redis_with (at_port (104 ∷ []) (pos 6379) none))

new-Selects_example :
    ((c : RedisClient)
      → (new number no_nodes single [] ≡ made c) ↔ Selects number no_nodes single [] c)
    × ((new number no_nodes single [] ≡ null_used) ↔ Lacks number no_nodes single)
    × ((new number no_nodes single [] ≡ threw) ↔ Unparsed number no_nodes single)
new-Selects_example = new-Selects number no_nodes single []

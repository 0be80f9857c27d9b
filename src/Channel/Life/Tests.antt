-- ===== src/Channel/Life/Tests.antt =====
-- Channels that lose their server.
use gaia_net.Base.{ℕ, zero, suc, ◌≡◌, refl, true, false, List, [], ◌∷◌}
use gaia_net.Channel.Life.{
  Config, World, unset, to, Life, undefined, throws, returns, mark, construct, create_channel, Try,
  succeeds, renews, Call, sends, receives, finishes, call, destruct,
}
use gaia_net.Channel.Life.Dangling.{without_redis, receiver_dangles}

abbrev reached : World
reached address args time = true

abbrev lost : World
lost address args time = false

-- The first attempt asks for a new client.
abbrev broken : World → ℕ → Try
broken w zero = renews w
broken w (suc i) = succeeds

abbrev server : List ℕ
server = 115 ∷ []

abbrev local : List ℕ
local = 114 ∷ []

abbrev over_redis : Config
over_redis = record {
  server_address = server;
  redis_address = local;
  connect_wait_time = 60000;
  use_redis = true;
  test_compress = false;
}

abbrev first_client : Life
first_client = record {
  config = over_redis;
  client = to 0;
  rcv_client = unset;
  live = mark 0 true (λ i. false);
  made = 1;
}

abbrev calls : List Call
calls = sends (broken reached) ∷ receives (broken lost) ∷ finishes ∷ []

abbrev two_clients : Life
two_clients = record {
  config = without_redis server local 60000 false;
  client = to 0;
  rcv_client = to 1;
  live = mark 1 true (mark 0 true (λ i. false));
  made = 2;
}

made_pair : construct reached (without_redis server local 60000 false) ≡ returns two_clients
unfolding construct create_channel
made_pair = refl

receiver_dangles_example :
    (l' : Life) × (call (sends (broken lost)) two_clients ≡ throws l')
    × ((more : ℕ → Try) → call (sends more) l' ≡ undefined)
    × (destruct l' ≡ undefined)
receiver_dangles_example =
    receiver_dangles server local 60000 false reached lost (broken lost) two_clients made_pair refl
      refl

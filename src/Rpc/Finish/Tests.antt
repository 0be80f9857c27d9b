-- ===== src/Rpc/Finish/Tests.antt =====
-- Clients that finish.
use gaia_net.Base.{ℕ, ◌≡◌, ◌↔◌, refl, true, false, List, [], ◌∷◌, Option, none, some, ltb}
use gaia_net.Base.Int.{ℤ, pos}
use gaia_net.IChannel.{IChannel}
use gaia_net.Redis.{Env, Handle, redis_at, by_redis, ping}
use gaia_net.Redis
use gaia_net.Rpc.Client.{Client, v1, v2, new, init_sender}
use gaia_net.Rpc.Metadata.{usage_name}
use gaia_net.Rpc.Pipe.{successor}
use gaia_net.Rpc.Finish.{Connection, open_redis, opened, close_redis, finish, crash}
use gaia_net.Rpc.Finish.Reports.{
  all_to, commands, Streamless, Reported, finish-Streamless, finish-Reported,
}

abbrev net : IChannel
net = record {
  channel_id = b't' ∷ [];
  from_party = 1;
  to_party = 2;
  bytes_send = 1205;
  bytes_recv = 17;
  packet_send = 2;
  packet_recv = 1;
}

abbrev nothing_set : Env
nothing_set = record {
  cluster_mode = none;
  use_three_factors = none;
  cluster_host = none;
  cluster_password = none;
  cluster_port = none;
  sentinel_password = none;
  sentinel_master = none;
  cluster_nodes = none;
  redis_host = none;
  redis_password = none;
  redis_port = none;
}

-- What the libraries answer in these tests.
abbrev number : List ℕ → ℤ
number text = pos 0

abbrev no_nodes : List ℕ → Option (List (List ℕ × ℤ))
no_nodes text = none

abbrev address : List ℕ
address = b'r' ∷ []

abbrev connection : Connection
connection = record {
  redis_timeout = pos 120;
  redis_client = some (by_redis false (redis_at address));
  pinged = some (ping (by_redis false (redis_at address)));
}

open_example : open_redis number no_nodes none nothing_set address true ≡ opened connection
unfolding open_redis Redis.new
open_example = refl

-- The successor of a client of the first version.
abbrev successor_v1 : Client
successor_v1 = (successor (record (new 1 2 true) { rpc_version = v1; stream_open = true }) []).1

finish-Streamless_example :
    (finish successor_v1 connection (λ n. true) net [] ≡ crash) ↔ Streamless successor_v1
finish-Streamless_example = finish-Streamless successor_v1 connection (λ n. true) net []

-- A client of the second version, on its stream.
abbrev sender : Client
sender = init_sender (record (new 1 2 true) { rpc_version = v2 })

sender_streams : ¬ Streamless sender
unfolding init_sender new
sender_streams (version, shut) = absurd (let h = shut in cc)

uses_redis : sender.use_redis ≡ true
unfolding init_sender new
uses_redis = refl

-- Redis fails at the third call.
finish-Reported_example :
    (h : Handle) × (close_redis true connection ≡ some h)
    × Reported sender connection
        (λ n. ltb n 2)
        net
        ((usage_name, b'q' ∷ []) ∷ [])
        (all_to h (commands sender net ((usage_name, b'q' ∷ []) ∷ [])))
finish-Reported_example =
    finish-Reported number no_nodes none nothing_set address sender connection (λ n. ltb n 2) net
      ((usage_name, b'q' ∷ []) ∷ []) open_example uses_redis sender_streams

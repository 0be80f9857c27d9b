-- ===== src/Rpc/Finish.antt =====
-- The end of a client, src/grpc_client.cpp: `finish`, which closes the stream and reports the traffic to
-- redis, and before it the making of the redis connection in the constructor, and the destructor.
pub mod Usage
pub mod Reports
mod Tests
use gaia_net.Base.{
  ℕ, suc, ◌+◌, ◌*◌, Bool, true, false, not, List, [], ◌∷◌, ◌++◌, Option, none, some, if◌then◌else◌,
}
use gaia_net.Base.Bytes.{same_bytes}
use gaia_net.Base.Int.{ℤ, pos, eqb_ℤ}
use gaia_net.Base.Decimal.{to_string}
use gaia_net.IChannel.{IChannel}
use gaia_net.Redis.{
  RedisClient, Made, null_used, threw, made, Handle, Called, ping, hset_range, hset_item, expire,
  lpush, deleted,
}
use gaia_net.Redis
use gaia_net.Rpc.Recv.{RecvThreadStatus}
use gaia_net.Rpc.Client.{Client, not_inited, v1, v2}
use gaia_net.Rpc.Metadata.{Entry, usage_name}

-- The redis part of a client: the timeout of `brpop`, and the redis client where one is used.
pub record Connection : Type 0 where
  pub redis_timeout : ℤ
  pub redis_client : Option RedisClient
  pub pinged : Option Called

-- What the constructor comes to.
pub data Opened : Type 0 where
  crashes : Opened
  throws : Opened
  opened : Connection → Opened

-- "mesh-urn".
abbrev pub urn_name : List ℕ
urn_name = b'm' ∷ b'e' ∷ b's' ∷ b'h' ∷ b'-' ∷ b'u' ∷ b'r' ∷ b'n' ∷ []

-- CPP_REDIS_TIMEOUT, or REDIS_BRPOP_TIMEOUT.
abbrev pub timeout_of : (List ℕ → ℤ) → Option (List ℕ) → ℤ
timeout_of atoi none = pos 120
timeout_of atoi (some text) = atoi text

abbrev pub on_made : ℤ → Made → Opened
on_made timeout null_used = crashes
on_made timeout threw = throws
on_made timeout (made r) =
    opened (record { redis_timeout = timeout; redis_client = some r; pinged = some (ping r) })

-- The body of the constructor. An error of `ping` is caught.
unfoldable pub open_redis :
    (List ℕ → ℤ)
    → (List ℕ → Option (List (List ℕ × ℤ)))
    → Option (List ℕ)
    → Redis.Env
    → List ℕ
    → Bool
    → Opened
open_redis atoi parse_nodes timeout_text env redis_address use_redis =
    let timeout : ℤ = timeout_of atoi timeout_text in
    if use_redis
    then on_made timeout (Redis.new atoi parse_nodes env redis_address)
    else opened (record { redis_timeout = timeout; redis_client = none; pinged = none })

-- The destructor: what it deletes.
abbrev pub deletes : Option RedisClient → Option Handle
deletes none = none
deletes (some r) = deleted r

unfoldable pub close_redis : Bool → Connection → Option Handle
close_redis use_redis c = if use_redis then deletes c.redis_client else none

-- `find` of a map of strings.
abbrev pub find : List ℕ → List Entry → Option (List ℕ)
find key [] = none
find key ((k, v) ∷ rest) = if same_bytes k key then some v else find key rest

-- The names of the four fields.
abbrev pub recv_bytes : List ℕ
recv_bytes = b'r' ∷ b'e' ∷ b'c' ∷ b'v' ∷ b'_' ∷ b'b' ∷ b'y' ∷ b't' ∷ b'e' ∷ b's' ∷ []

abbrev pub recv_packet : List ℕ
recv_packet = b'r' ∷ b'e' ∷ b'c' ∷ b'v' ∷ b'_' ∷ b'p' ∷ b'a' ∷ b'c' ∷ b'k' ∷ b'e' ∷ b't' ∷ []

abbrev pub send_bytes : List ℕ
send_bytes = b's' ∷ b'e' ∷ b'n' ∷ b'd' ∷ b'_' ∷ b'b' ∷ b'y' ∷ b't' ∷ b'e' ∷ b's' ∷ []

abbrev pub send_packet : List ℕ
send_packet = b's' ∷ b'e' ∷ b'n' ∷ b'd' ∷ b'_' ∷ b'p' ∷ b'a' ∷ b'c' ∷ b'k' ∷ b'e' ∷ b't' ∷ []

-- "net_usage_" taskid "_" partyid "_" to_partyid.
unfoldable pub usage_key : List ℕ → ℕ → ℕ → List ℕ
usage_key taskid partyid to_partyid =
    (b'n' ∷ b'e' ∷ b't' ∷ b'_' ∷ b'u' ∷ b's' ∷ b'a' ∷ b'g' ∷ b'e' ∷ b'_' ∷ [])
    ++ ((taskid ++ b'_' ∷ to_string partyid) ++ b'_' ∷ to_string to_partyid)

unfoldable pub usage_fields : IChannel → List Entry
usage_fields net =
    (recv_bytes, to_string net.bytes_recv)
    ∷ (recv_packet, to_string net.packet_recv)
    ∷ (send_bytes, to_string net.bytes_send)
    ∷ (send_packet, to_string net.packet_send)
    ∷ []

abbrev pub week : ℕ
week = 3600 * 24 * 7

-- The field for the mesh, where the channel was given one.
abbrev pub mesh_calls : Option (List ℕ) → RedisClient → List ℕ → List Called
mesh_calls none r key = []
mesh_calls (some urn) r key = hset_item r key (urn_name, urn) ∷ []

-- The notification, where the channel was given a list for it.
abbrev pub notify_calls : Option (List ℕ) → RedisClient → List ℕ → List Entry → List Called
notify_calls none r key meta = []
notify_calls (some notify_key) r key meta =
    mesh_calls (find urn_name meta) r key ++ lpush r notify_key key ∷ expire r notify_key week ∷ []

-- The calls of the block, in order.
unfoldable pub report : RedisClient → Client → IChannel → List Entry → List Called
report r c net meta =
    let key = usage_key net.channel_id c.partyid c.to_partyid in
    hset_range r key (usage_fields net)
    ∷ expire r key week
    ∷ notify_calls (find usage_name meta) r key meta

-- An error of redis ends the block: no call is made after the first that fails. `answer n` says whether
-- the call of number `n` goes well.
unfoldable pub issued : (ℕ → Bool) → List Called → List Called
issued answer [] = []
issued answer (call ∷ rest) =
    let others = issued (λ n. answer (suc n)) rest in if answer 0 then call ∷ others else call ∷ []

-- Closing the stream: a stream pointer that was never set is used, or the call goes on, with the
-- thread joined or not.
pub data Closed : Type 0 where
  unset_stream : Closed
  closed : Bool → Closed

abbrev pub with_stream : Bool → Bool → Closed
with_stream live joins = if live then closed joins else unset_stream

abbrev pub started : RecvThreadStatus → Bool
started RecvThreadStatus.not_inited = false
started RecvThreadStatus.started = true
started RecvThreadStatus.finished = true

unfoldable pub close_stream : Client → Closed
close_stream c =
    if eqb_ℤ c.rpc_version not_inited
    then closed false
    else if eqb_ℤ c.rpc_version v1
    then with_stream c.stream_open false
    else if eqb_ℤ c.rpc_version v2
    then with_stream c.stream_open (started c.recv_thread_status)
    else closed false

-- What `finish` comes to: a crash, or whether it has joined the thread, and its calls of redis.
pub data Finished : Type 0 where
  crash : Finished
  done : Bool → List Called → Finished

-- The redis block.
abbrev pub report_calls :
    Bool → Option RedisClient → (ℕ → Bool) → Client → IChannel → List Entry → List Called
report_calls false r answer c net meta = []
report_calls true none answer c net meta = Called.unset ∷ []
report_calls true (some r) answer c net meta = issued answer (report r c net meta)

abbrev pub on_closed : Closed → List Called → Finished
on_closed unset_stream calls = crash
on_closed (closed joined) calls = done joined calls

-- `finish`, without the wait for the shutdown at its end.
unfoldable pub finish : Client → Connection → (ℕ → Bool) → IChannel → List Entry → Finished
finish c connection answer net meta =
    on_closed (close_stream c) (report_calls c.use_redis connection.redis_client answer c net meta)

-- ===== src/Channel/Life.antt =====
-- The clients that a channel makes and deletes, src/channel.cpp: the constructor with `create_channel`,
-- `destroy_channel`, the destructor, `client_finish`, and what the calls do to the two pointers. What the
-- clients answer is an argument.
pub mod Owned
pub mod Release
pub mod Dangling
mod Tests
use gaia_net.Base.{
  ℕ, zero, suc, ◌+◌, ◌*◌, ◌==◌, Bool, true, false, List, [], ◌∷◌, ◌++◌, if◌then◌else◌,
}
use gaia_net.Base.Int.{ℤ, pos, negsuc}
use gaia_net.Channel.{attempts_max}

-- The arguments of a gRPC channel.
pub data Setting : Type 0 where
  max_receive_message_length : ℤ → Setting
  max_send_message_length : ℤ → Setting
  initial_reconnect_backoff_ms : ℤ → Setting
  min_reconnect_backoff_ms : ℤ → Setting
  max_reconnect_backoff_ms : ℤ → Setting
  keepalive_time_ms : ℤ → Setting
  keepalive_timeout_ms : ℤ → Setting
  max_pings_without_data : ℤ → Setting
  compression_gzip : Setting

abbrev pub channel_args : Bool → List Setting
channel_args test_compress =
    max_receive_message_length (negsuc 0)
    ∷ max_send_message_length (negsuc 0)
    ∷ initial_reconnect_backoff_ms (pos 1000)
    ∷ min_reconnect_backoff_ms (pos 1000)
    ∷ max_reconnect_backoff_ms (pos 1000)
    ∷ keepalive_time_ms (pos (35 * 1000))
    ∷ keepalive_timeout_ms (pos (10 * 1000))
    ∷ max_pings_without_data (pos 0)
    ∷ (if test_compress then compression_gzip ∷ [] else [])

-- The members that do not change, and whether TEST_GRPC_COMPRESS is set.
pub record Config : Type 0 where
  pub server_address : List ℕ
  pub redis_address : List ℕ
  pub connect_wait_time : ℕ
  pub use_redis : Bool
  pub test_compress : Bool

-- Whether a server is reached: its address, the arguments and the time to wait.
abbrev pub World : Type 0
World = List ℕ → List Setting → ℕ → Bool

-- A pointer that was never set, a null pointer, or one to a client.
pub data Pointer : Type 0 where
  unset : Pointer
  null : Pointer
  to : ℕ → Pointer

-- Clients are numbered as they are made. `live`: made and not deleted.
pub record Life : Type 0 where
  pub config : Config
  pub client : Pointer
  pub rcv_client : Pointer
  pub live : ℕ → Bool
  pub made : ℕ

-- A pointer that leads to no client is used, or the code throws or returns.
pub data Outcome : Type 0 where
  undefined : Outcome
  throws : Life → Outcome
  returns : Life → Outcome

abbrev pub and_then : Outcome → (Life → Outcome) → Outcome
and_then undefined go = undefined
and_then (throws l) go = throws l
and_then (returns l) go = go l

abbrev pub mark : ℕ → Bool → (ℕ → Bool) → ℕ → Bool
mark i b live k = if k == i then b else live k

-- A call of a member function.
abbrev pub use_client : Pointer → Life → Outcome
use_client unset l = undefined
use_client null l = undefined
use_client (to i) l = if l.live i then returns l else undefined

-- `delete`.
abbrev pub remove : Pointer → Life → Outcome
remove unset l = undefined
remove null l = returns l
remove (to i) l = if l.live i then returns (record l { live = mark i false l.live }) else undefined

-- The second client, of which a failed connection is only logged.
abbrev pub make_receiver : Bool → Life → Outcome
make_receiver true l = returns l
make_receiver false l =
    returns (record l { rcv_client = to l.made; live = mark l.made true l.live; made = l.made + 1 })

abbrev pub on_connected : Bool → Life → Outcome
on_connected false l = throws l
on_connected true l =
    make_receiver l.config.use_redis
      (record l { client = to l.made; live = mark l.made true l.live; made = l.made + 1 })

unfoldable pub create_channel : World → Life → Outcome
create_channel w l =
    on_connected
      (w l.config.server_address (channel_args l.config.test_compress) l.config.connect_wait_time) l

-- The constructor.
unfoldable pub construct : World → Config → Outcome
construct w config =
    create_channel w
      (record { config = config; client = unset; rcv_client = unset; live = λ i. false; made = 0 })

-- `delete m_client; m_client = nullptr;`.
unfoldable pub drop_client : Life → Outcome
drop_client l = and_then (remove l.client l) (λ l'. returns (record l' { client = null }))

-- `if (m_client)` with `finish` and the deletion.
abbrev pub finish_at : Pointer → Life → Outcome
finish_at unset l = undefined
finish_at null l = returns l
finish_at (to i) l = and_then (use_client (to i) l) drop_client

unfoldable pub client_finish : Life → Outcome
client_finish l = finish_at l.client l

-- `m_rcv_client->finish(); delete m_rcv_client;`, which leaves the pointer as it is.
abbrev pub destroy_receiver : Bool → Life → Outcome
destroy_receiver true l = returns l
destroy_receiver false l = and_then (use_client l.rcv_client l) (remove l.rcv_client)

unfoldable pub destroy_channel : Life → Outcome
destroy_channel l = and_then (destroy_receiver l.config.use_redis l) client_finish

-- The replacement of a client after an attempt that failed; `set_continue_status` at its end.
unfoldable pub renew : World → Life → Outcome
renew w l =
    and_then (and_then (and_then (use_client l.client l) drop_client) destroy_channel)
      (λ l'. and_then (create_channel w l') (λ l''. use_client l''.client l''))

-- How the client answers an attempt: it is done, it gives up with an exception or false, or it asks for a
-- new client, for which servers are reached as the world says.
pub data Try : Type 0 where
  succeeds : Try
  fails : Try
  renews : World → Try

abbrev pub on_try : Try → Life → (Life → Outcome) → Outcome
on_try succeeds l go = returns l
on_try fails l go = throws l
on_try (renews w) l go = and_then (renew w l) go

-- The loops of `real_send`, of `real_recv` over redis and of `flush`, with the attempts that are left.
unfoldable pub try_loop : ℕ → (ℕ → Try) → Life → Outcome
try_loop zero tries l = returns l
try_loop (suc n) tries l =
    let rest = try_loop n (λ i. tries (suc i)) in
    and_then (use_client l.client l) (λ l'. on_try (tries 0) l' rest)

pub data Call : Type 0 where
  sends : (ℕ → Try) → Call
  receives : (ℕ → Try) → Call
  flushes : (ℕ → Try) → Call
  finishes : Call

-- `real_recv`: without redis, the second client is asked, whose `Recv` returns true or throws.
abbrev pub receive : Bool → (ℕ → Try) → Life → Outcome
receive true tries l = try_loop attempts_max tries l
receive false tries l = use_client l.rcv_client l

unfoldable pub call : Call → Life → Outcome
call (sends tries) l = try_loop attempts_max tries l
call (receives tries) l = receive l.config.use_redis tries l
call (flushes tries) l = try_loop attempts_max tries l
call finishes l = client_finish l

-- `wait_flush` in the destructor.
abbrev pub wait_at : Pointer → Life → Outcome
wait_at unset l = undefined
wait_at null l = returns l
wait_at (to i) l = use_client (to i) l

-- The destructor.
unfoldable pub destruct : Life → Outcome
destruct l = and_then (wait_at l.client l) destroy_channel

-- ===== src/Rpc/Flush.antt =====
-- `RpcClient::wait_flush` of src/grpc_client.cpp, and what the acknowledging thread does to a client
-- meanwhile. Each round of the loop looks at the client, at the state of the connection and at the
-- clock once, under the mutex.
pub mod Ends
use gaia_net.Base.{
  ℕ, zero, suc, ◌+◌, ◌-◌, ◌*◌, Bool, true, false, ◌&&◌, not, List, [], ◌∷◌, Option, none, some, ltb,
  leb, if◌then◌else◌,
}
use gaia_net.Rpc.Client.{Packet, Client, on_ack, on_read_end, thread_over}

-- Acknowledgements that find a packet are taken, one after another.
abbrev pub read_acks : List ℕ → Client → Client
read_acks [] c = c
read_acks (a ∷ acks) c = elim (on_ack c a) [ none ↦ c | some c' ↦ read_acks acks c' ]

-- Whether the thread comes to one that finds no packet, with which it waits for the next `Send`; it is the first
-- that the thread takes after that.
abbrev pub left_waiting : List ℕ → Client → Bool
left_waiting [] c = false
left_waiting (a ∷ acks) c = elim (on_ack c a) [ none ↦ true | some c' ↦ left_waiting acks c' ]

-- The thread reads some acknowledgements and then may end, unless it waits. That it has begun is not noted in the
-- status, which is looked at here only for its end.
abbrev pub thread_turn : List ℕ → Bool → Client → Client
thread_turn acks read_end c =
    let c' = read_acks acks c in
    if read_end && not (left_waiting acks c) then on_read_end c' else c'

-- Before one round: what the thread does. In the round: whether the connection is ready, and the
-- milliseconds since the call.
pub record Lap : Type 0 where
  pub acks : List ℕ
  pub read_end : Bool
  pub ready : Bool
  pub elapsed : ℕ

-- `m_notack_queue.empty()`, which is also `flushed`.
abbrev pub flushed : Client → Bool
flushed c = elim c.notack_queue [ [] ↦ true | p ∷ ps ↦ false ]

-- How a round ends: with the result, and whether `*need_resend` is set; or it sleeps.
pub data Round : Type 0 where
  returns : Bool → Bool → Round
  sleeps : Round

-- The milliseconds to sleep, doubled each time and cut at the deadline.
abbrev pub next_interval : ℕ → ℕ → ℕ → ℕ
next_interval max_msec current_interval d =
    if ltb max_msec (d + current_interval * 2) then max_msec - d else current_interval * 2

unfoldable pub round : ℕ → Client → Lap → Round
round max_msec c lap =
    if flushed c
    then returns true false
    else if thread_over c.recv_thread_status
    then returns false true
    else if not lap.ready
    then returns false true
    else if leb max_msec lap.elapsed
    then returns false false
    else sleeps

abbrev pub Waited : Type 0
Waited = Bool × Bool × Client

abbrev pub on_round : Round → Client → Option Waited → Option Waited
on_round (returns flag need_resend) c go = some (flag, need_resend, c)
on_round sleeps c go = go

-- The rounds from `i` on; `none` where the fuel is used up.
unfoldable pub wait_from : ℕ → ℕ → ℕ → Client → (ℕ → Lap) → Option Waited
wait_from zero max_msec i c laps = none
wait_from (suc fuel) max_msec i c laps =
    let c' = thread_turn (laps i).acks (laps i).read_end c in
    let rest = wait_from fuel max_msec (suc i) c' laps in
    on_round (round max_msec c' (laps i)) c' rest

unfoldable pub wait_flush : ℕ → ℕ → Client → (ℕ → Lap) → Option Waited
wait_flush fuel max_msec c laps = wait_from fuel max_msec 0 c laps

-- The interval of the sleep before round `i`, which is five before the first.
abbrev pub interval : ℕ → (ℕ → Lap) → ℕ → ℕ
interval max_msec laps zero = 5
interval max_msec laps (suc i) = next_interval max_msec (interval max_msec laps i) (laps i).elapsed

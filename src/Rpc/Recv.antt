-- ===== src/Rpc/Recv.antt =====
-- `RpcClient::Recv` of src/grpc_client.cpp where it reads from redis, and
-- `init_redis_data_version`. Each turn of its loop asks redis once (`brpop` with a second to wait);
-- what the calls answer, and what another thread has done to the client by then, is a list of
-- events.
pub mod Stream
pub mod Safety
pub mod Session
use gaia_net.Base.{
  ℕ, ◌+◌, Bool, true, false, ◌&&◌, ◌||◌, not, List, [], ◌∷◌, length, take, drop, ltb, ◌==◌,
  if◌then◌else◌,
}
use gaia_net.Base.Bytes.{same_bytes}
use gaia_net.Base.Int.{ℤ, pos, negsuc, ltb_ℤ, leb_ℤ, eqb_ℤ, inc, int32_at}

-- `enum class RedisDataVersion`.
pub data RedisDataVersion : Type 0 where
  not_inited v1 v2 : RedisDataVersion

-- `enum class RecvThreadStatus`.
pub data RecvThreadStatus : Type 0 where
  not_inited started finished : RecvThreadStatus

-- What one `brpop` gives: a value, nothing in time (with the status of the acknowledging thread
-- and whether its queue is empty by then), or an `Error` that is caught.
pub data Event : Type 0 where
  item : List ℕ → Event
  nothing : RecvThreadStatus → Bool → Event
  error : Event

-- The fields that the call changes.
pub record State : Type 0 where
  pub data_version : RedisDataVersion
  pub recv_idx : ℤ

-- How the call ends. `waits`: not yet, all events are used up. `overrun`: the four bytes of the
-- index are read from a string that is shorter than them, its terminator included. `out_of_range`:
-- the exception of `substr(4)` on three bytes.
pub data Outcome : Type 0 where
  got : List ℕ → Outcome
  failed : Outcome
  need_resend : Outcome
  overrun : Outcome
  out_of_range : Outcome
  waits : Outcome

-- `data_version_magic_string`.
abbrev pub magic : List ℕ
magic =
    b'3' ∷ b'7' ∷ b'2' ∷ b'b' ∷ b'2' ∷ b'f' ∷ b'c' ∷ b'1' ∷ b'8' ∷ b'3' ∷ b'9' ∷ b'a' ∷ b'9' ∷ b'e'
    ∷ b'1' ∷ b'6' ∷ b'1' ∷ b'd' ∷ b'd' ∷ b'9' ∷ b'7' ∷ b'2' ∷ b'c' ∷ b'2' ∷ b'9' ∷ b'6' ∷ b'4'
    ∷ b'e' ∷ b'1' ∷ b'1' ∷ b'a' ∷ b'2' ∷ b'6' ∷ b'2' ∷ b'c' ∷ b'4' ∷ b'1' ∷ b'9' ∷ b'a' ∷ b'd' ∷ []

-- `init_redis_data_version`: the version, and the content without the mark.
unfoldable pub init_redis_data_version : List ℕ → RedisDataVersion × List ℕ
init_redis_data_version content =
    if same_bytes (take 40 content) magic
    then (RedisDataVersion.v2, drop 40 content)
    else (RedisDataVersion.v1, content)

-- The first item decides the version.
abbrev pub settle : RedisDataVersion → List ℕ → RedisDataVersion × List ℕ
settle RedisDataVersion.not_inited content = init_redis_data_version content
settle RedisDataVersion.v1 content = (RedisDataVersion.v1, content)
settle RedisDataVersion.v2 content = (RedisDataVersion.v2, content)

-- What an item means for the loop: return, go on with the next round, or call `Recv` again.
pub data Verdict : Type 0 where
  return : Outcome → Verdict
  continue : Verdict
  again : Verdict

-- An item of the second version: index, then content.
unfoldable pub on_indexed : ℤ → List ℕ → Verdict × ℤ
on_indexed recv_idx content =
    let idx : ℤ = int32_at content in
    if ltb (length content) 3
    then (return overrun, recv_idx)
    else if length content == 4 && ltb_ℤ idx (pos 0)
    then (continue, recv_idx)
    else if eqb_ℤ idx (inc recv_idx)
    then (if length content == 3
        then (return out_of_range, recv_idx)
        else (return (got (drop 4 content)), idx))
    else if ltb_ℤ idx (inc recv_idx)
    then (again, recv_idx)
    else (return failed, recv_idx)

abbrev pub on_settled : ℤ → RedisDataVersion × List ℕ → Verdict × State
on_settled recv_idx (RedisDataVersion.not_inited, content) = (
  return (got content),
  record { data_version = RedisDataVersion.not_inited; recv_idx = recv_idx },
)
on_settled recv_idx (RedisDataVersion.v1, content) =
    (return (got content), record { data_version = RedisDataVersion.v1; recv_idx = recv_idx })
on_settled recv_idx (RedisDataVersion.v2, content) =
    let (verdict, idx) = on_indexed recv_idx content in
    (verdict, record { data_version = RedisDataVersion.v2; recv_idx = idx })

unfoldable pub on_item : State → List ℕ → Verdict × State
on_item s content = on_settled s.recv_idx (settle s.data_version content)

-- Nothing came. `can_resend` says that the caller passed a flag to set.
unfoldable pub on_nothing : Bool → RecvThreadStatus → Bool → Verdict
on_nothing can_resend RecvThreadStatus.finished queue_empty =
    if not queue_empty && can_resend then return need_resend else continue
on_nothing can_resend RecvThreadStatus.started queue_empty = continue
on_nothing can_resend RecvThreadStatus.not_inited queue_empty = continue

unfoldable pub on_event : Bool → State → Event → Verdict × State
on_event can_resend s (item content) = on_item s content
on_event can_resend s (nothing status queue_empty) = (on_nothing can_resend status queue_empty, s)
on_event can_resend s error = (continue, s)

-- `i <= m_redis_timeout || m_redis_timeout == 0`.
abbrev pub in_time : ℤ → ℕ → Bool
in_time timeout i = leb_ℤ (pos i) timeout || eqb_ℤ timeout (pos 0)

abbrev pub Reply : Type 0
Reply = Outcome × State × List Event

-- The ways on from an event: `continue` counts the round, the recursive call starts to count anew.
abbrev pub turn : Verdict × State → List Event → (State → Reply) → (State → Reply) → Reply
turn (return outcome, s) es on anew = (outcome, s, es)
turn (continue, s) es on anew = on s
turn (again, s) es on anew = anew s

-- `Recv`: the loop from round `i` on. It returns the events that are left.
unfoldable pub recv_from : ℤ → Bool → ℕ → State → List Event → Reply
recv_from timeout can_resend i s [] = (if in_time timeout i then waits else failed, s, [])
recv_from timeout can_resend i s (e ∷ es) =
    if in_time timeout i
    then turn (on_event can_resend s e) es (λ s'. recv_from timeout can_resend (i + 1) s' es)
        (λ s'. recv_from timeout can_resend 1 s' es)
    else (failed, s, e ∷ es)

unfoldable pub recv : ℤ → Bool → State → List Event → Reply
recv timeout can_resend s es = recv_from timeout can_resend 1 s es

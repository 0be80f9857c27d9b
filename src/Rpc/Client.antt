-- ===== src/Rpc/Client.antt =====
-- The sending half of `RpcClient`, src/grpc_client.cpp: version negotiation, `Send`, the thread that
-- reads acknowledgements, and the state handed from a broken client to its successor. What gRPC
-- answers (the version calls, whether a write goes through) is an argument of each function.
pub mod Numbered
pub mod Negotiate
pub mod Sends
use gaia_net.Base.{
  ℕ, zero, suc, ◌+◌, Bool, true, false, not, List, [], ◌∷◌, ◌++◌, Option, none, some, if◌then◌else◌,
  tabulate,
}
use gaia_net.Base.Int.{ℤ, pos, negsuc, eqb_ℤ, leb_ℤ, min_ℤ}
use gaia_net.Base.Decimal.{to_string}
use gaia_net.Rpc.Recv.{RedisDataVersion, RecvThreadStatus, State}

-- The fields of a data packet that `Send` sets; the service type is always TENSOR.
pub record Packet : Type 0 where
  pub taskid : List ℕ
  pub frompartyid : List ℕ
  pub topartyid : List ℕ
  pub seq : ℕ
  pub body : List ℕ

-- `enum class ServiceVersion`, of which the client keeps the number.
abbrev pub not_inited : ℤ
not_inited = negsuc 0

abbrev pub v1 : ℤ
v1 = pos 1

abbrev pub v2 : ℤ
v2 = pos 2

abbrev pub config_support_max_version : ℤ
config_support_max_version = v2

-- `stream_open`: the stream that the version uses, `m_sender` or `m_rw_sender`, has been set.
pub record Client : Type 0 where
  pub partyid : ℕ
  pub to_partyid : ℕ
  pub use_redis : Bool
  pub rpc_version : ℤ
  pub data_version : RedisDataVersion
  pub seq : ℕ
  pub recv_idx : ℤ
  pub notack_queue : List Packet
  pub recv_thread_status : RecvThreadStatus
  pub stream_open : Bool

-- The fields of the client that `Recv` reads and changes.
abbrev pub recv_state : Client → State
recv_state c = record { data_version = c.data_version; recv_idx = c.recv_idx }

abbrev pub with_state : Client → State → Client
with_state c s = record c { data_version = s.data_version; recv_idx = s.recv_idx }

-- The constructor.
unfoldable pub new : ℕ → ℕ → Bool → Client
new partyid to_partyid use_redis = record {
  partyid = partyid;
  to_partyid = to_partyid;
  use_redis = use_redis;
  rpc_version = not_inited;
  data_version = RedisDataVersion.not_inited;
  seq = 0;
  recv_idx = negsuc 0;
  notack_queue = [];
  recv_thread_status = RecvThreadStatus.not_inited;
  stream_open = false;
}

-- What one `get_version` call answers.
pub data VersionReply : Type 0 where
  answered : ℤ → VersionReply
  unimplemented : VersionReply
  broken : VersionReply

-- The loop of `init_rpc_version`, with the answers of the attempts left. `none`: it throws.
unfoldable pub version_loop : List VersionReply → Option ℤ
version_loop [] = none
version_loop (answered version ∷ replies) =
    let used : ℤ = min_ℤ version config_support_max_version in
    if eqb_ℤ used not_inited then none else some used
version_loop (unimplemented ∷ replies) = some v1
version_loop (broken ∷ replies) = version_loop replies

abbrev pub version_calls : ℕ
version_calls = 20

-- `init_rpc_version`, with the answer of each call.
unfoldable pub init_rpc_version : (ℕ → VersionReply) → Option ℤ
init_rpc_version replies = version_loop (tabulate version_calls replies)

abbrev pub is_v2 : Client → Bool
is_v2 c = leb_ℤ v2 c.rpc_version

-- `init_sender` opens the stream, and from the second version on makes the thread that reads
-- acknowledgements. The thread sets the status itself, when it begins.
unfoldable pub init_sender : Client → Client
init_sender c = record c { stream_open = true }

-- The thread begins.
unfoldable pub on_thread_start : Client → Client
on_thread_start c = record c { recv_thread_status = RecvThreadStatus.started }

-- One turn of that thread. A read acknowledgement takes the front packet off, whatever number it
-- has; with an empty queue the thread waits (`none`).
unfoldable pub on_ack : Client → ℕ → Option Client
on_ack c ack = elim c.notack_queue [
  | [] ↦ none
  | front ∷ rest ↦ some (record c { notack_queue = rest })
]

-- The read fails: the thread ends.
unfoldable pub on_read_end : Client → Client
on_read_end c = record c { recv_thread_status = RecvThreadStatus.finished }

-- `Send` throws, writes through a stream pointer that is not set, or returns its flag, the content as it
-- leaves it, and the client.
pub data SendResult : Type 0 where
  throws : SendResult
  crashes : SendResult
  returns : Bool → List ℕ → Client → SendResult

abbrev pub packet_of : Client → List ℕ → List ℕ → Packet
packet_of c taskid content = record {
  taskid = taskid;
  frompartyid = to_string c.partyid;
  topartyid = to_string c.to_partyid;
  seq = c.seq;
  body = content;
}

abbrev pub thread_over : RecvThreadStatus → Bool
thread_over RecvThreadStatus.not_inited = false
thread_over RecvThreadStatus.started = false
thread_over RecvThreadStatus.finished = true

-- `Send` on a client whose version is known. `written` is what the write answers.
unfoldable pub send_ready : Client → List ℕ → List ℕ → Bool → SendResult
send_ready c taskid content written =
    if thread_over c.recv_thread_status
    then returns false content c
    else if not c.stream_open
    then crashes
    else if written
    then (if is_v2 c
        then returns true [] (record c {
          seq = c.seq + 1;
          notack_queue = c.notack_queue ++ packet_of c taskid content ∷ [];
        })
        else returns true [] c)
    else returns false content c

unfoldable pub send : Client → List ℕ → List ℕ → (ℕ → VersionReply) → Bool → SendResult
send c taskid content replies written =
    if eqb_ℤ c.rpc_version not_inited
    then elim (init_rpc_version replies) [
      | none ↦ throws
      | some v ↦ send_ready (init_sender (record c { rpc_version = v })) taskid content written
    ]
    else send_ready c taskid content written

-- `ContinueStatus`.
pub record ContinueStatus : Type 0 where
  pub queue : List Packet
  pub seq : ℕ
  pub recv_idx : ℤ
  pub rpc_version : ℤ
  pub data_version : RedisDataVersion

-- `get_continue_status`: a value-initialised tuple, filled in by version.
unfoldable pub get_continue_status : Client → ContinueStatus × Client
get_continue_status c =
    if is_v2 c
    then (
      record {
        queue = c.notack_queue;
        seq = c.seq;
        recv_idx = c.recv_idx;
        rpc_version = c.rpc_version;
        data_version = c.data_version;
      },
      record c { notack_queue = [] },
    )
    else (
      record {
        queue = [];
        seq = 0;
        recv_idx = pos 0;
        rpc_version = c.rpc_version;
        data_version = c.data_version;
      },
      c,
    )

-- The loop that writes the queue again: how many writes go through before one fails, and whether
-- all do. `fits` answers for the packets in turn.
unfoldable pub resend : List Packet → List Bool → List Packet × Bool
resend [] fits = ([], true)
resend (p ∷ ps) [] = ([], false)
resend (p ∷ ps) (false ∷ fits) = ([], false)
resend (p ∷ ps) (true ∷ fits) = let (out, done) = resend ps fits in (p ∷ out, done)

-- `set_continue_status`: its result, the client, and the packets that were written.
unfoldable pub set_continue_status :
    Client → ContinueStatus → List Bool → Bool × Client × List Packet
set_continue_status c tup fits =
    let c' = record c { rpc_version = tup.rpc_version; data_version = tup.data_version } in
    if is_v2 c'
    then (let (out, done) = resend tup.queue fits in
        (
          done,
          init_sender
              (record c' { notack_queue = tup.queue; seq = tup.seq; recv_idx = tup.recv_idx }),
          out,
        ))
    else (true, c', [])

-- ===== src/Rpc/Tests.antt =====
-- Runs of the gRPC channel on small inputs.
use gaia_net.Base.{
  ℕ, zero, suc, ◌+◌, ◌^◌, ◌≤◌, ◌≡◌, ◌≢◌, refl, true, List, [], ◌∷◌, ◌++◌, map, take, arith, inl,
  some,
}
use gaia_net.Base.Int.{ℤ, pos, negsuc, ◌≤ℤ◌}
use gaia_net.Base.Decimal.{to_string}
use gaia_net.Base.Bytes.{encode32}
use gaia_net.Rpc.Recv.{
  RedisDataVersion, RecvThreadStatus, Event, item, nothing, error, got, magic, recv,
}
use gaia_net.Rpc.Recv.Stream.{Carries, end, fresh, repeated, control, idle, caught, indexed}
use gaia_net.Rpc.Recv.Safety.{settled, Advances, recv-Advances}
use gaia_net.Rpc.Recv.Session.{calls, stream_received, session_received, unsettled}
use gaia_net.Rpc.Client.{
  Packet, Client, VersionReply, answered, broken, init_rpc_version, v1, v2, not_inited, resend,
  send, crashes, new, init_sender, send_ready, get_continue_status, set_continue_status,
}
use gaia_net.Rpc.Client.Negotiate.{init_rpc_version_lem, Decides}
use gaia_net.Rpc.Client.Sends.{Explains, send-Explains}
use gaia_net.Rpc.Pipe
use gaia_net.Rpc.Pipe.{Pipe, Step, sends, delivers, reconnects, Reach, here, next, successor}
use gaia_net.Rpc.Pipe.Exact.{exact_delivery}
use gaia_net.Rpc.Pipe.FirstVersion.{first_version_crashes}

abbrev one : List ℕ
one = 65 ∷ []

abbrev two : List ℕ
two = 66 ∷ 67 ∷ []

-- The second message after everything that a stream can hold besides.
abbrev rest : List Event
rest =
    indexed 0 one
    ∷ indexed (2 ^ 31 + 7) []
    ∷ nothing RecvThreadStatus.finished true
    ∷ error
    ∷ indexed 1 two
    ∷ []

rest-Carries : Carries true 1 (two ∷ []) rest
rest-Carries = repeated 0 one (omega arith) (omega arith) (
    control (2 ^ 31 + 7) (omega arith) (omega arith)
      (idle RecvThreadStatus.finished true (inl refl) (caught (fresh two (omega arith) end))))

recv-Advances_example : Advances (pos 0) rest (recv (pos 9) true (settled (pos 0)) rest)
recv-Advances_example = recv-Advances (pos 9) true (pos 0) rest

stream_received_example : calls (pos 9) true 1 (settled (pos 0)) rest ≡ got two ∷ []
stream_received_example =
    stream_received (pos 9) true 9 (inl (ground arith)) (two ∷ []) rest-Carries (omega arith)

session_received_example :
    calls (pos 9) true 2 unsettled (item (magic ++ encode32 0 ++ one) ∷ rest)
    ≡ got one ∷ got two ∷ []
session_received_example =
    session_received (pos 9) true one (two ∷ []) rest-Carries (inl (ground arith))

abbrev task : List ℕ
task = b't' ∷ []

abbrev packet : Packet
packet = record { taskid = task; frompartyid = 49 ∷ []; topartyid = 50 ∷ []; seq = 0; body = one }

-- No version call is answered.
abbrev no_answers : ℕ → VersionReply
no_answers i = broken

-- A client with one packet that waits for its acknowledgement.
abbrev waiting : Client
waiting = record {
  partyid = 1;
  to_partyid = 2;
  use_redis = true;
  rpc_version = v2;
  data_version = RedisDataVersion.not_inited;
  seq = 1;
  recv_idx = negsuc 0;
  notack_queue = packet ∷ [];
  recv_thread_status = RecvThreadStatus.not_inited;
  stream_open = true;
}

-- Sent, delivered, written again on a new stream, and delivered again.
abbrev sent : Pipe
sent = record {
  client = waiting;
  on_wire = packet ∷ [];
  live = true;
  acks = [];
  delivered = [];
  log = one ∷ [];
}

abbrev arrived : Pipe
arrived = record sent { on_wire = []; acks = 0 ∷ []; delivered = packet ∷ [] }

abbrev resumed : Pipe
resumed = record arrived { on_wire = packet ∷ []; acks = [] }

abbrev twice : Pipe
twice = record resumed { on_wire = []; acks = 0 ∷ []; delivered = packet ∷ packet ∷ [] }

twice_reached : Reach (Pipe.fresh 1 2 true) twice
unfolding to_string new init_sender send_ready get_continue_status set_continue_status resend
twice_reached =
    next {t = resumed}
      (next {t = arrived}
        (next {t = sent} (next here (sends task one waiting refl refl refl refl))
          (delivers packet [] refl refl))
        (reconnects (true ∷ []) true waiting (packet ∷ []) refl refl refl))
      (delivers packet [] refl refl)

exact_delivery_example :
    (seen : ℕ) × (seen ≤ 1)
    × (calls (pos 9) true seen (settled (negsuc 0)) (indexed 0 one ∷ indexed 0 one ∷ [])
        ≡ map got (take seen (one ∷ [])))
    × (packet ∷ [] ≡ [] → seen ≡ 1)
exact_delivery_example =
    exact_delivery 1 2 true (pos 9) true twice_reached (omega arith) (inl (ground arith))

send-Explains_example : Explains waiting task two true (send waiting task two no_answers true)
send-Explains_example = send-Explains waiting task two no_answers true refl

-- Two failures, and then an answer.
abbrev third_answers : ℕ → VersionReply
third_answers zero = broken
third_answers (suc zero) = broken
third_answers (suc (suc i)) = answered (pos 5)

init_rpc_version_lem_example :
    Decides 20 third_answers (init_rpc_version third_answers)
    × ((v : ℤ) → init_rpc_version third_answers ≡ some v → (v ≤ℤ v2) × (v ≢ not_inited))
init_rpc_version_lem_example = init_rpc_version_lem third_answers

abbrev old : Client
old = record waiting { rpc_version = v1; notack_queue = []; recv_idx = pos 4 }

first_version_crashes_example :
    ((successor old []).0 ≡ true)
    × ((successor old []).1.recv_idx ≡ negsuc 0)
    × (send (successor old []).1 task two no_answers true ≡ crashes)
first_version_crashes_example = first_version_crashes old [] task two no_answers true refl

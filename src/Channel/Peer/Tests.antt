-- ===== src/Channel/Peer/Tests.antt =====
-- A channel that sends one message, receives one, and sends a second one over a new stream.
use gaia_net.Base.{
  some, ◌++◌, ℕ, zero, suc, ◌+◌, ◌%◌, ◌≤◌, ◌≡◌, inl, inr, refl, true, false, List, [], ◌∷◌, map,
  take, length, arith, tabulate,
}
use gaia_net.Base.Int.{pos, negsuc, int32_at}
use gaia_net.IChannel.{IChannel, statistics_send, statistics_recv, size_mod}
use gaia_net.Rpc.Recv.{
  RedisDataVersion, Event, item, magic, got, recv, recv_from, on_event, on_item, on_indexed,
  init_redis_data_version,
}
use gaia_net.Base.Bytes.{decode32, same_bytes}
use gaia_net.Channel.Receive
use gaia_net.Channel.Receive.{recv_loop, real_recv}
use gaia_net.Rpc.Recv.Safety.{settled}
use gaia_net.Rpc.Recv.Session.{Patient, calls}
use gaia_net.Rpc.Flush.{Lap, wait_flush, wait_from, round}
use gaia_net.Rpc.Client.{
  broken, send, send_ready, init_sender, new, on_ack, get_continue_status, set_continue_status,
  resend,
}
use gaia_net.Rpc.Pipe
use gaia_net.Rpc.Pipe.{Pipe, Reach, here, next, delivers, acknowledged}
use gaia_net.Rpc.Pipe.Exact.{to_event}
use gaia_net.Channel.{Attempt, attempts_max, reconnect, send_loop, real_send}
use gaia_net.Channel.Peer.{
  Before, one_more, none_more, Plays, writes, renews, renewed, with_packet, Talk, silent, passes,
  says, Hears, answers, hears,
}
use gaia_net.Channel.Peer.Attempts.{Finishes, real_send-Finishes}
use gaia_net.Channel.Peer.Flushes.{wait_flush_delivered}
use gaia_net.Channel.Peer.Talks.{contents_delivered}

abbrev task : List ℕ
task = b't' ∷ []

abbrev net : IChannel
net = record {
  channel_id = task;
  from_party = 1;
  to_party = 2;
  bytes_send = 0;
  bytes_recv = 0;
  packet_send = 0;
  packet_recv = 0;
}

abbrev one : List ℕ
one = 65 ∷ []

abbrev two : List ℕ
two = 66 ∷ 67 ∷ []

-- The first write of a call goes through.
abbrev goes_through : ℕ → Attempt
goes_through i = record {
  acks = [];
  read_end = false;
  replies = λ i. broken;
  written = true;
  then_new = record { begun = true; late = []; connects = true; fits = true ∷ [] };
}

-- The first write of a call fails, and the second goes through.
abbrev second_try : ℕ → Attempt
second_try zero = record (goes_through 0) { written = false }
second_try (suc i) = goes_through i

abbrev start : Pipe
start = Pipe.fresh 1 2 true

abbrev said : Pipe
said = with_packet task one start

first_plays : Plays task one start (tabulate attempts_max goes_through) said
unfolding init_sender new
first_plays = writes (start, [], none_more, refl, refl) refl refl refl

real_send-Finishes_example :
    Reach start said × Finishes [] net one said (real_send net start.client one goes_through)
real_send-Finishes_example = real_send-Finishes 1 2 true net one goes_through here first_plays

-- A first item with the mark of the second version and a message with the index 0.
abbrev item_of_peer : List Event
item_of_peer = item (magic ++ 0 ∷ 0 ∷ 0 ∷ 0 ∷ 70 ∷ []) ∷ []

abbrev message_comes : ℕ → Receive.Attempt
message_comes i = record {
  acks = [];
  read_end = false;
  events = item_of_peer;
  then_new = record { begun = true; late = []; connects = true; fits = [] };
}

-- The client has settled the data version, and moved its last index.
abbrev heard : Pipe
heard = record said {
  client = record said.client { data_version = RedisDataVersion.v2; recv_idx = pos 0 };
}

peer_heard : Hears (pos 5) said (tabulate attempts_max message_comes) heard
unfolding recv recv_from on_event on_item on_indexed init_redis_data_version same_bytes decode32
    int32_at init_sender new
peer_heard = answers (said, [], none_more, refl, refl) (λ e. cc)

-- The first packet is written again on the second stream.
abbrev again : Pipe
again = with_packet task two (renewed heard [] (true ∷ []))

second_plays : Plays task two heard (tabulate attempts_max second_try) again
unfolding init_sender new get_continue_status set_continue_status resend
second_plays =
    renews [] (heard, [], none_more, refl, refl) (inr refl) refl refl none_more refl
      (writes (renewed heard [] (true ∷ []), [], none_more, refl, refl) refl refl refl)

abbrev counted : ℕ → ℕ → IChannel
counted bytes packets = record net {
  bytes_send = bytes;
  bytes_recv = 1;
  packet_send = packets;
  packet_recv = 1;
}

first_heard : Talk net start (one ∷ []) (counted 1 1) heard
unfolding init_sender new real_send send_loop send send_ready statistics_send real_recv recv_loop
    recv recv_from on_event on_item on_indexed init_redis_data_version same_bytes decode32 int32_at
    statistics_recv
first_heard =
    hears (pos 5) (70 ∷ []) message_comes (says one goes_through silent (λ e. cc) first_plays refl)
      peer_heard refl

talk : Talk net start (one ∷ two ∷ []) (counted 3 2) again
unfolding init_sender new get_continue_status set_continue_status resend real_send send_loop send
    send_ready reconnect statistics_send
talk = says two second_try first_heard (λ e. cc) second_plays refl

abbrev arrived : Pipe
arrived = record again {
  client = record again.client { notack_queue = [] };
  on_wire = [];
  delivered = again.on_wire;
}

-- The peer takes both packets, and the thread reads both acknowledgements.
arrives : Reach again arrived
unfolding init_sender new get_continue_status set_continue_status resend on_ack
arrives =
    next
      (next (next (next here (delivers _ _ refl refl)) (delivers _ _ refl refl))
        (acknowledged 0 (1 ∷ []) _ refl refl refl))
      (acknowledged 1 [] _ refl refl refl)

whole_run : Talk net start (one ∷ two ∷ []) (counted 3 2) arrived
unfolding init_sender new get_continue_status set_continue_status resend
whole_run = passes talk arrives refl

abbrev both : List (List ℕ)
both = one ∷ two ∷ []

contents_delivered_example :
    (seen : ℕ) × (seen ≤ length both)
    × (calls (pos 9) true seen (settled (negsuc 0)) (map to_event arrived.delivered)
        ≡ map got (take seen both))
    × (arrived.client.notack_queue ≡ [] → seen ≡ length both)
    × ((counted 3 2).packet_send % size_mod ≡ (net.packet_send + length both) % size_mod)
unfolding init_sender new get_continue_status set_continue_status resend
contents_delivered_example =
    contents_delivered 1 2 true net (pos 9) true whole_run (omega arith) (inl (ground arith))

-- The peer takes both packets before the first round of a wait, which reads both acknowledgements.
abbrev pipes : ℕ → Pipe
pipes zero = again
pipes (suc i) = arrived

abbrev laps : ℕ → Lap
laps zero = record { acks = 0 ∷ 1 ∷ []; read_end = false; ready = true; elapsed = 0 }
laps (suc i) = record { acks = []; read_end = false; ready = true; elapsed = 10 }

pipes_go : (i : ℕ) → Before (pipes i) (laps i).acks (laps i).read_end (pipes (suc i))
unfolding init_sender new get_continue_status set_continue_status resend on_ack
pipes_go zero = (
  record again { on_wire = []; acks = 0 ∷ 1 ∷ []; delivered = again.on_wire },
  [],
  one_more (one_more none_more refl) refl,
  refl,
  refl,
)
pipes_go (suc i) = (arrived, [], none_more, refl, refl)

pipes-Patient : (i : ℕ) → Patient (pos 9) (length (pipes i).delivered)
unfolding init_sender new get_continue_status set_continue_status resend
pipes-Patient zero = inl (ground arith)
pipes-Patient (suc i) = inl (ground arith)

flushed_well : wait_flush 3 100 again.client laps ≡ some (true, false, arrived.client)
unfolding init_sender new get_continue_status set_continue_status resend on_ack wait_flush wait_from
    round
flushed_well = refl

wait_flush_delivered_example :
    (k : ℕ) × (arrived.client ≡ (pipes k).client)
    × (calls (pos 9) true (length both) (settled (negsuc 0)) (map to_event (pipes k).delivered)
        ≡ map got both)
unfolding init_sender new get_continue_status set_continue_status resend
wait_flush_delivered_example =
    wait_flush_delivered 1 2 true net (pos 9) true pipes laps 3 100 false arrived.client pipes_go
      talk (omega arith) pipes-Patient flushed_well

-- ===== src/Channel/Tests.antt =====
-- A run of the retry loop against a server that refuses every new write.
use gaia_net.Base.{
  List, leb, length, take, if◌then◌else◌, ℕ, zero, suc, ◌*◌, ◌<◌, ◌≡◌, refl, true, false, [], ◌∷◌,
  arith, some, tabulate,
}
use gaia_net.Base.Int.{pos, negsuc, int32_at}
use gaia_net.Base.Bytes.{encode32, decode32}
use gaia_net.IChannel.{IChannel, statistics_send, statistics_recv}
use gaia_net.Rpc.Recv.{
  RedisDataVersion, RecvThreadStatus, nothing, need_resend, got, recv, recv_from, on_event,
  on_nothing, on_item, on_indexed,
}
use gaia_net.Rpc.Recv.Safety.{settled}
use gaia_net.Rpc.Recv.Stream.{indexed}
use gaia_net.Rpc.Client.{Packet, Client, broken, v2, resend, packet_of}
use gaia_net.Rpc.Flush.Ends.{Sleeps}
use gaia_net.Channel.{Attempt, Reconnection, real_send, success}
use gaia_net.Channel.Receive.Resumes.{Resends}
use gaia_net.Channel.Retry.{Refusing, real_send_unsent}
use gaia_net.Channel.Retry.Through.{real_send_goes_through}
use gaia_net.Channel.Receive
use gaia_net.Channel.Receive.{real_recv}
use gaia_net.Channel.Receive.Resumes.{Indexed, real_recv_resumes}
use gaia_net.Channel.Flush
use gaia_net.Channel.Flush.{flush}
use gaia_net.Channel.Flush.Settles.{Settles, flush-Settles}
use gaia_net.Channel.Frame.{Lz4, get_lz4_compress_str}
use gaia_net.Channel.Copies.{
  send_with_compress, copied, overrun, recv_string_with_decompress, recv_with_decompress,
}
use gaia_net.Channel.Copies.Exchange.{compressed_exchange}
use gaia_net.Rpc.Flush.{Lap, Waited, wait_flush}
use gaia_net.Rpc.Flush.Ends.{Means, wait_flush_lem}

abbrev net : IChannel
net = record {
  channel_id = b't' ∷ [];
  from_party = 1;
  to_party = 2;
  bytes_send = 0;
  bytes_recv = 0;
  packet_send = 0;
  packet_recv = 0;
}

abbrev packet : Packet
packet = record {
  taskid = b't' ∷ [];
  frompartyid = 49 ∷ [];
  topartyid = 50 ∷ [];
  seq = 0;
  body = 65 ∷ [];
}

abbrev waiting : Client
waiting = record {
  partyid = 1;
  to_partyid = 2;
  use_redis = true;
  rpc_version = v2;
  data_version = RedisDataVersion.v2;
  seq = 1;
  recv_idx = negsuc 0;
  notack_queue = packet ∷ [];
  recv_thread_status = RecvThreadStatus.started;
  stream_open = true;
}

abbrev resumed : Reconnection
resumed = record { begun = true; late = []; connects = true; fits = true ∷ [] }

abbrev refusal : ℕ → Attempt
refusal i = record {
  acks = [];
  read_end = false;
  replies = λ i. broken;
  written = false;
  then_new = resumed;
}

-- The third write goes through.
abbrev third_through : ℕ → Attempt
third_through zero = refusal 0
third_through (suc zero) = refusal 0
third_through (suc (suc i)) = record (refusal 0) { written = true }

third_through_lem : (i : ℕ) → i < 2 → Refusing (packet ∷ []) (third_through i)
unfolding resend
third_through_lem zero h = (refl, refl, refl, refl, refl, refl, refl)
third_through_lem (suc zero) h = (refl, refl, refl, refl, refl, refl, refl)
third_through_lem (suc (suc i)) h = absurd (omega (arith, h))

real_send_goes_through_example :
    (c' : Client) × (real_send net waiting (66 ∷ 67 ∷ []) third_through
      ≡ success (statistics_send net 2) c' [])
    × (c'.notack_queue ≡ packet ∷ packet_of waiting (b't' ∷ []) (66 ∷ 67 ∷ []) ∷ [])
    × (c'.seq ≡ 2)
real_send_goes_through_example =
    real_send_goes_through net waiting (66 ∷ 67 ∷ []) third_through 2 (omega arith) refl refl refl
      third_through_lem (refl, refl, refl)

real_send_unsent_example :
    (c' : Client) × (real_send net waiting (66 ∷ 67 ∷ []) refusal
      ≡ success (statistics_send net 2) c' (66 ∷ 67 ∷ []))
    × (c'.notack_queue ≡ packet ∷ [])
    × (c'.seq ≡ 1)
unfolding resend
real_send_unsent_example =
    real_send_unsent net waiting (66 ∷ 67 ∷ []) refusal refl refl
      (λ i. (refl, refl, refl, refl, refl, refl, refl))

-- Packets wait while the thread is over.
abbrev asks : Receive.Attempt
asks = record {
  acks = [];
  read_end = false;
  events = nothing RecvThreadStatus.finished false ∷ [];
  then_new = resumed;
}

-- The next message arrives.
abbrev arrives : Receive.Attempt
arrives = record {
  acks = 0 ∷ [];
  read_end = false;
  events = indexed 0 (66 ∷ []) ∷ [];
  then_new = resumed;
}

abbrev asks_once : ℕ → Receive.Attempt
asks_once zero = asks
asks_once (suc i) = arrives

recv_asks : (recv (pos 5) true (settled (negsuc 0)) asks.events).0 ≡ need_resend
unfolding recv recv_from on_event on_nothing
recv_asks = refl

recv_arrives : (recv (pos 5) true (settled (negsuc 0)) arrives.events).0 ≡ got (66 ∷ [])
unfolding recv recv_from on_event on_item on_indexed encode32 decode32 int32_at
recv_arrives = refl

asks_first : (i : ℕ) → i < 1 → Resends (pos 5) (negsuc 0) (asks_once i)
asks_first zero h = (recv_asks, refl, refl)
asks_first (suc i) h = absurd (omega arith)

real_recv_resumes_example :
    (c' : Client) × (real_recv net (pos 5) waiting asks_once
      ≡ success (statistics_recv net 1) c' (66 ∷ []))
    × Indexed (pos 0) c'
real_recv_resumes_example =
    real_recv_resumes net (pos 5) (negsuc 0) 1 waiting asks_once (66 ∷ []) (omega arith)
      (refl, refl) asks_first (omega arith) recv_arrives

-- Half a minute passes in each sleep.
abbrev slow : ℕ → Lap
slow i = record { acks = []; read_end = false; ready = true; elapsed = i * 30000 }

slow-Sleeps : Sleeps 10000 slow
slow-Sleeps i = ground arith

wait_flush_lem_example :
    (r : Waited) × (wait_flush 11 10000 waiting slow ≡ some r) × Means 10000 slow r
wait_flush_lem_example = wait_flush_lem 10 10000 waiting slow slow-Sleeps (omega arith)

abbrev again : ℕ → Flush.Attempt
again i = record { laps = slow; then_new = resumed }

flush-Settles_example : Settles (tabulate 120 again) waiting (flush waiting again)
flush-Settles_example = flush-Settles waiting again (λ i. slow-Sleeps)

-- An LZ4 that stores the text as it is.
abbrev stored : Lz4
stored = record { bound = λ n. n; compress = λ plain room. plain; decompress = λ plain room. plain }

abbrev text : List ℕ
text = 66 ∷ 67 ∷ []

-- The frame of the text arrives.
abbrev brings : ℕ → Receive.Attempt
brings i = record {
  acks = [];
  read_end = false;
  events = indexed 0 (get_lz4_compress_str stored text) ∷ [];
  then_new = resumed;
}

recv-brings :
    (recv (pos 5) true (settled (negsuc 0)) (brings 0).events).0
    ≡ got (get_lz4_compress_str stored text)
unfolding recv recv_from on_event on_item on_indexed encode32 decode32 int32_at get_lz4_compress_str
recv-brings = refl

real_recv-brings :
    (c' : Client) × (real_recv net (pos 5) waiting brings
      ≡ success
          (statistics_recv net (length (get_lz4_compress_str stored text)))
          c'
          (get_lz4_compress_str stored text))
    × Indexed (pos 0) c'
real_recv-brings =
    real_recv_resumes net (pos 5) (negsuc 0) 0 waiting brings (get_lz4_compress_str stored text)
      (omega arith) (refl, refl) (λ i h. absurd (omega arith)) (omega arith) recv-brings

compressed_exchange_example :
    (send_with_compress stored net waiting text 2 refusal
      ≡ real_send net waiting (get_lz4_compress_str stored text) refusal)
    × (recv_string_with_decompress stored net (pos 5) waiting brings
        ≡ copied
            (statistics_recv net (length (get_lz4_compress_str stored text)))
            real_recv-brings.0
            text)
    × (recv_with_decompress stored net (pos 5) waiting 3 brings ≡ (
        if leb 3 (length text)
        then copied
            (statistics_recv net (length (get_lz4_compress_str stored text)))
            real_recv-brings.0
            (take 3 text)
        else overrun))
compressed_exchange_example =
    compressed_exchange stored text net waiting refusal net (pos 5) waiting brings
      (statistics_recv net (length (get_lz4_compress_str stored text))) real_recv-brings.0 3
      (λ plain h. refl) (omega arith) real_recv-brings.1

-- ===== src/Channel/Peer.antt =====
-- A channel that sends to a peer that keeps the order of each stream: the attempts of `real_send`, as the stream
-- and the acknowledging thread of each client let them be. The peer is not part of this repository; it may take
-- packets off the stream at any time. The thread of a client that is given up has begun.
pub mod Runs
pub mod Attempts
pub mod Answers
pub mod Talks
pub mod Flushes
mod Tests
use gaia_net.Base.{ℕ, ◌+◌, ◌≡◌, ◌≢◌, ◌⊎◌, Bool, true, false, List, [], ◌∷◌, ◌++◌, tabulate}
use gaia_net.IChannel.{IChannel}
use gaia_net.Rpc.Recv.{Event, Outcome, need_resend, recv}
use gaia_net.Rpc.Client.{recv_state, with_state, Packet, Client, packet_of, thread_over}
use gaia_net.Rpc.Flush.{read_acks, thread_turn}
use gaia_net.Rpc.Pipe.{Pipe, Reach, successor}
use gaia_net.Base.Int.{ℤ}
use gaia_net.Channel.Receive
use gaia_net.Channel.Receive.{real_recv}
use gaia_net.Channel.{Attempt, attempts_max, real_send, success}

-- The peer takes some packets off the stream.
pub data Delivered (s : Pipe) : Pipe → Type 0 where
  none_more : Delivered s s
  one_more :
      {t : Pipe} {p : Packet} {rest : List Packet}
      → Delivered s t
      → t.on_wire ≡ p ∷ rest
      → Delivered s (record t {
        on_wire = rest;
        acks = t.acks ++ p.seq ∷ [];
        delivered = t.delivered ++ p ∷ [];
      })

-- Before the client is looked at: the peer takes packets, and then the thread reads acknowledgements, which have
-- come, and may end.
abbrev pub Before : Pipe → List ℕ → Bool → Pipe → Type 0
Before s acks read_end t =
    (u : Pipe) × (more : List ℕ) × Delivered s u
    × (u.acks ≡ acks ++ more)
    × (t ≡ record u { client = thread_turn acks read_end u.client; acks = more })

-- The call fails: the thread is over, or the write fails.
abbrev pub Fails : Attempt → Client → Type 0
Fails a c = (thread_over c.recv_thread_status ≡ true) ⊎ (a.written ≡ false)

-- The thread reads acknowledgements that have come, and the stream is given up for a new one.
abbrev pub renewed : Pipe → List ℕ → List Bool → Pipe
renewed s late fits =
    let (ok, c, out) = successor (read_acks late s.client) fits in
    record s { client = c; on_wire = out; live = ok; acks = [] }

-- The client has written a content and queued it under its next number.
abbrev pub with_packet : List ℕ → List ℕ → Pipe → Pipe
with_packet taskid content t = record t {
  client = record t.client {
    seq = t.client.seq + 1;
    notack_queue = t.client.notack_queue ++ packet_of t.client taskid content ∷ [];
  };
  on_wire = t.on_wire ++ packet_of t.client taskid content ∷ [];
  log = t.log ++ content ∷ [];
}

-- Attempts to send a content, from a pipe to the one after the last attempt that is made.
pub data Plays (taskid content : List ℕ) : Pipe → List Attempt → Pipe → Type 0 where
  all_made : {s : Pipe} → Plays taskid content s [] s
  writes :
      {s t : Pipe} {a : Attempt} {rest : List Attempt}
      → Before s a.acks a.read_end t
      → thread_over t.client.recv_thread_status ≡ false
      → a.written ≡ true
      → t.live ≡ true
      → Plays taskid content s (a ∷ rest) (with_packet taskid content t)
  unreached :
      {s t u : Pipe} {a : Attempt} {rest : List Attempt} (more : List ℕ)
      → Before s a.acks a.read_end t
      → Fails a t.client
      → a.then_new.begun ≡ true
      → a.then_new.connects ≡ false
      → Delivered t u
      → u.acks ≡ a.then_new.late ++ more
      → Plays taskid content s (a ∷ rest) u
  renews :
      {s t u v : Pipe} {a : Attempt} {rest : List Attempt} (more : List ℕ)
      → Before s a.acks a.read_end t
      → Fails a t.client
      → a.then_new.begun ≡ true
      → a.then_new.connects ≡ true
      → Delivered t u
      → u.acks ≡ a.then_new.late ++ more
      → Plays taskid content (renewed u a.then_new.late a.then_new.fits) rest v
      → Plays taskid content s (a ∷ rest) v

-- A call of `Recv` in an attempt to receive.
abbrev pub asked : ℤ → List Event → Client → Outcome × Client
asked timeout events c =
    let (o, state, rest) = recv timeout true (recv_state c) events in (o, with_state c state)

abbrev pub after_recv : ℤ → List Event → Pipe → Pipe
after_recv timeout events t = record t { client = (asked timeout events t.client).1 }

-- Attempts to receive, from a pipe to the one after the last attempt that is made.
pub data Hears (timeout : ℤ) : Pipe → List Receive.Attempt → Pipe → Type 0 where
  all_tried : {s : Pipe} → Hears timeout s [] s
  answers :
      {s t : Pipe} {a : Receive.Attempt} {rest : List Receive.Attempt}
      → Before s a.acks a.read_end t
      → (asked timeout a.events t.client).0 ≢ need_resend
      → Hears timeout s (a ∷ rest) (after_recv timeout a.events t)
  unreached :
      {s t u : Pipe} {a : Receive.Attempt} {rest : List Receive.Attempt} (more : List ℕ)
      → Before s a.acks a.read_end t
      → (asked timeout a.events t.client).0 ≡ need_resend
      → a.then_new.begun ≡ true
      → a.then_new.connects ≡ false
      → Delivered (after_recv timeout a.events t) u
      → u.acks ≡ a.then_new.late ++ more
      → Hears timeout s (a ∷ rest) u
  renews :
      {s t u v : Pipe} {a : Receive.Attempt} {rest : List Receive.Attempt} (more : List ℕ)
      → Before s a.acks a.read_end t
      → (asked timeout a.events t.client).0 ≡ need_resend
      → a.then_new.begun ≡ true
      → a.then_new.connects ≡ true
      → Delivered (after_recv timeout a.events t) u
      → u.acks ≡ a.then_new.late ++ more
      → Hears timeout (renewed u a.then_new.late a.then_new.fits) rest v
      → Hears timeout s (a ∷ rest) v

-- Calls of `real_send` with these contents, each of which returns and has moved its content out. Between
-- them the channel may receive, by calls of `real_recv` that return, and anything but a `Send` may happen
-- to the pipe, as in calls that flush.
pub data Talk (net : IChannel) (s : Pipe) : List (List ℕ) → IChannel → Pipe → Type 0 where
  silent : Talk net s [] net s
  passes :
      {contents : List (List ℕ)} {net' : IChannel} {t u : Pipe}
      → Talk net s contents net' t
      → Reach t u
      → u.log ≡ t.log
      → Talk net s contents net' u
  hears :
      {contents : List (List ℕ)} {net' net'' : IChannel} {t u : Pipe} (timeout : ℤ)
      (content : List ℕ) (attempt : ℕ → Receive.Attempt)
      → Talk net s contents net' t
      → Hears timeout t (tabulate attempts_max attempt) u
      → real_recv net' timeout t.client attempt ≡ success net'' u.client content
      → Talk net s contents net'' u
  says :
      {contents : List (List ℕ)} {net' net'' : IChannel} {t u : Pipe} (content : List ℕ)
      (attempt : ℕ → Attempt)
      → Talk net s contents net' t
      → content ≢ []
      → Plays net'.channel_id content t (tabulate attempts_max attempt) u
      → real_send net' t.client content attempt ≡ success net'' u.client []
      → Talk net s (contents ++ content ∷ []) net'' u

-- ===== src/Rpc/Pipe.antt =====
-- A sender over its life: the client, the stream that it writes to, and what has come out at the
-- far end, over any number of broken streams. The peer is not part of this repository. It is taken
-- to put the packets of one stream into redis in the order in which they were written, and to
-- acknowledge each with its number; a stream on which a write has failed takes no further packet.
pub mod Inv
pub mod Keep
pub mod Steps
pub mod Exact
pub mod FirstVersion
use gaia_net.Base.{ℕ, ◌+◌, ◌≡◌, Bool, true, false, List, [], ◌∷◌, ◌++◌, some}
use gaia_net.Base.Int.{ℤ}
use gaia_net.Rpc.Recv.{Event, RecvThreadStatus, recv}
use gaia_net.Rpc.Client.{
  Packet, Client, packet_of, is_v2, on_ack, on_thread_start, on_read_end, recv_state, with_state,
  returns, send_ready, v2, get_continue_status, set_continue_status, new, init_sender,
}

pub record Pipe : Type 0 where
  pub client : Client
  -- written on the stream, and still to be delivered
  pub on_wire : List Packet
  -- whether the stream takes another packet
  pub live : Bool
  -- sent by the peer, and still to be read
  pub acks : List ℕ
  -- in redis, oldest first
  pub delivered : List Packet
  -- the bodies of all packets that `Send` has taken
  pub log : List (List ℕ)

-- The successor of a client that is given up, as `channel` makes it.
abbrev pub successor : Client → List Bool → Bool × Client × List Packet
successor c fits =
    set_continue_status (new c.partyid c.to_partyid c.use_redis) (get_continue_status c).0 fits

pub data Step (s t : Pipe) : Type 0 where
  -- `Send` writes a packet.
  sends :
      (taskid content : List ℕ) (c' : Client)
      → s.live ≡ true
      → is_v2 s.client ≡ true
      → send_ready s.client taskid content true ≡ returns true [] c'
      → t ≡ record s {
        client = c';
        on_wire = s.on_wire ++ packet_of s.client taskid content ∷ [];
        log = s.log ++ content ∷ [];
      }
      → Step s t
  -- `Send` finds that the write fails, or that the thread is over.
  refused :
      (taskid content rest : List ℕ) (written : Bool) (c' : Client)
      → send_ready s.client taskid content written ≡ returns false rest c'
      → t ≡ record s { client = c'; live = false }
      → Step s t
  -- The peer takes a packet off the stream.
  delivers :
      (p : Packet) (rest : List Packet)
      → s.on_wire ≡ p ∷ rest
      → t ≡ record s {
        on_wire = rest;
        acks = s.acks ++ p.seq ∷ [];
        delivered = s.delivered ++ p ∷ [];
      }
      → Step s t
  -- The client's thread reads an acknowledgement.
  acknowledged :
      (a : ℕ) (rest : List ℕ) (c' : Client)
      → s.acks ≡ a ∷ rest
      → on_ack s.client a ≡ some c'
      → t ≡ record s { client = c'; acks = rest }
      → Step s t
  -- The client's thread begins.
  thread_starts :
      s.client.recv_thread_status ≡ RecvThreadStatus.not_inited
      → t ≡ record s { client = on_thread_start s.client }
      → Step s t
  -- The client receives: a call of `Recv` over redis, however it ends.
  receives :
      (timeout : ℤ) (can_resend : Bool) (events : List Event)
      → t ≡ record s {
        client = with_state s.client (recv timeout can_resend (recv_state s.client) events).1;
      }
      → Step s t
  -- The client's thread ends.
  thread_ends : t ≡ record s { client = on_read_end s.client } → Step s t
  -- The stream is given up, with what is on it in either direction, and a new client goes on.
  reconnects :
      (fits : List Bool) (ok : Bool) (c' : Client) (out : List Packet)
      → is_v2 s.client ≡ true
      → successor s.client fits ≡ (ok, c', out)
      → t ≡ record s { client = c'; on_wire = out; live = ok; acks = [] }
      → Step s t

pub data Reach (s : Pipe) : Pipe → Type 0 where
  here : Reach s s
  next : {t u : Pipe} → Reach s t → Step t u → Reach s u

-- A new client whose peer speaks the second version, on a new stream.
abbrev pub fresh : ℕ → ℕ → Bool → Pipe
fresh partyid to_partyid use_redis = record {
  client = init_sender (record (new partyid to_partyid use_redis) { rpc_version = v2 });
  on_wire = [];
  live = true;
  acks = [];
  delivered = [];
  log = [];
}

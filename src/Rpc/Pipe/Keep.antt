-- ===== src/Rpc/Pipe/Keep.antt =====
-- Every step keeps the invariant of the pipe.
use native.Mathlib.Numerals.{add-one}
use gaia_net.Base.{
  ℕ, suc, ◌+◌, ◌≤◌, ◌<◌, ◌≡◌, refl, ap, sym, ◌∙◌, Bool, true, false, List, [], ◌∷◌, ◌++◌, length,
  arith, inl, inr, Bool-cases, some, ◌==◌, ==_iff, if◌then◌else◌, get_or, get_or-append,
  length-append,
}
use gaia_net.Rpc.Client.{Packet, Client, is_v2, packet_of, on_ack, returns, send_ready}
use gaia_net.Rpc.Client.Numbered.{Numbered, Numbered-snoc, Numbered-le}
use gaia_net.Rpc.Pipe.{Pipe}
use gaia_net.Rpc.Pipe.Inv.{
  Gapless, Gapless-snoc, Gapless-old, Counted, Counted-snoc, Logged, Logged-snoc, Logged-grow, Inv,
}

-- What a successful `Send` does to a client of the second version.
pub record Took (c c' : Client) (p : Packet) : Type 0 where
  pub version : c'.rpc_version ≡ c.rpc_version
  pub counted : c'.seq ≡ suc c.seq
  pub queued : c'.notack_queue ≡ c.notack_queue ++ p ∷ []

pub send_ready-Took :
    (c c' : Client) (taskid content : List ℕ)
    → is_v2 c ≡ true
    → send_ready c taskid content true ≡ returns true [] c'
    → Took c c' (packet_of c taskid content)
unfolding send_ready
send_ready-Took c c' taskid content h e = ground (arith, add-one c.seq)

last_logged :
    (log : List (List ℕ)) (m : List ℕ) (n : ℕ) → length log ≡ n → m ≡ get_or (log ++ m ∷ []) n []
last_logged log m n h =
    let place : n ≡ length log + 0 = omega arith in
    sym (ap (λ t. get_or (log ++ m ∷ []) t []) place ∙ get_or-append log (m ∷ []) 0 [])

pub sends-Inv :
    (s : Pipe) (taskid content : List ℕ) (c' : Client)
    → Inv s
    → s.live ≡ true
    → Took s.client c' (packet_of s.client taskid content)
    → Inv (record s {
      client = c';
      on_wire = s.on_wire ++ packet_of s.client taskid content ∷ [];
      log = s.log ++ content ∷ [];
    })
sends-Inv s taskid content c' v live took = record {
  first = v.first;
  wire = v.wire;
  end = suc v.end;
  seen = v.seen;
  version = took.version ∙ v.version;
  queued =
      rw (took.queued, took.counted)
        (Numbered-snoc v.first s.client.seq s.client.notack_queue p v.queued refl);
  counted = v.counted;
  written = Numbered-snoc v.wire v.end s.on_wire p v.written (sym (v.whole live));
  whole = λ _. omega (arith, v.whole live, took.counted);
  not_past = omega (arith, v.not_past, took.counted);
  known = v.known;
  bounded = omega (arith, v.bounded, took.counted);
  gapless = v.gapless;
  all_logged = omega (arith, length-append s.log (content ∷ []), v.all_logged, took.counted);
  queue_logged = rw took.queued (
      Logged-snoc _ s.client.notack_queue p
        (Logged-grow s.log content s.client.notack_queue v.queue_logged) in_log body_log);
  wire_logged =
      Logged-snoc _ s.on_wire p (Logged-grow s.log content s.on_wire v.wire_logged) in_log body_log;
  delivered_logged = Logged-grow s.log content s.delivered v.delivered_logged;
}
  where
    p : Packet
    p = packet_of s.client taskid content

    in_log : s.client.seq < length (s.log ++ content ∷ [])
    in_log = omega (arith, length-append s.log (content ∷ []), v.all_logged)

    body_log : content ≡ get_or (s.log ++ content ∷ []) s.client.seq []
    body_log = last_logged s.log content s.client.seq v.all_logged

-- A refused `Send` leaves the client as it was.
pub refused_lem :
    (c c' : Client) (taskid content rest : List ℕ) (written : Bool)
    → send_ready c taskid content written ≡ returns false rest c'
    → c' ≡ c
unfolding send_ready
refused_lem c c' taskid content rest written e = ground arith

pub refused-Inv : (s : Pipe) → Inv s → Inv (record s { live = false })
refused-Inv s v = record {
  first = v.first;
  wire = v.wire;
  end = v.end;
  seen = v.seen;
  version = v.version;
  queued = v.queued;
  counted = v.counted;
  written = v.written;
  whole = λ e. cc;
  not_past = v.not_past;
  known = v.known;
  bounded = v.bounded;
  gapless = v.gapless;
  all_logged = v.all_logged;
  queue_logged = v.queue_logged;
  wire_logged = v.wire_logged;
  delivered_logged = v.delivered_logged;
}

-- A client with the same version, numbers and packets.
pub same_sender-Inv :
    (s : Pipe) (c : Client)
    → Inv s
    → c.rpc_version ≡ s.client.rpc_version
    → c.seq ≡ s.client.seq
    → c.notack_queue ≡ s.client.notack_queue
    → Inv (record s { client = c })
same_sender-Inv s c v version number queue = record {
  first = v.first;
  wire = v.wire;
  end = v.end;
  seen = v.seen;
  version = version ∙ v.version;
  queued = rw (queue, number) v.queued;
  counted = v.counted;
  written = v.written;
  whole = λ e. v.whole e ∙ sym number;
  not_past = rw number v.not_past;
  known = v.known;
  bounded = rw number v.bounded;
  gapless = v.gapless;
  all_logged = v.all_logged ∙ sym number;
  queue_logged = rw queue v.queue_logged;
  wire_logged = v.wire_logged;
  delivered_logged = v.delivered_logged;
}

-- The far end has one more packet: the next one, or an old one again.
abbrev pub seen_after : ℕ → ℕ → ℕ
seen_after wire seen = if wire == seen then suc seen else seen

delivers-Gapless :
    (wire seen : ℕ) (ps : List Packet) (p : Packet)
    → wire ≤ seen
    → p.seq ≡ wire
    → Gapless 0 ps seen
    → Gapless 0 (ps ++ p ∷ []) (seen_after wire seen)
delivers-Gapless wire seen ps p le e g = elim (Bool-cases (wire == seen)) [
  | inl h ↦ rw h (Gapless-snoc 0 seen ps p g (e ∙ (==_iff wire seen).0 h))
  | inr h ↦ rw h (Gapless-old 0 seen ps p g (ground arith))
]

pub delivers-Inv :
    (s : Pipe) (p : Packet) (rest : List Packet)
    → (v : Inv s) → Numbered v.wire (p ∷ rest) v.end
    → Logged s.log (p ∷ rest)
    → Inv (record s {
      on_wire = rest;
      acks = s.acks ++ p.seq ∷ [];
      delivered = s.delivered ++ p ∷ [];
    })
delivers-Inv s p rest v n l = record {
  first = v.first;
  wire = suc v.wire;
  end = v.end;
  seen = seen_after v.wire v.seen;
  version = v.version;
  queued = v.queued;
  counted = Counted-snoc v.first v.wire s.acks p.seq v.counted n.0;
  written = n.1;
  whole = v.whole;
  not_past = v.not_past;
  known = ground (arith, v.known);
  bounded = ground (arith, v.bounded, v.not_past, Numbered-le (suc v.wire) v.end rest n.1);
  gapless = delivers-Gapless v.wire v.seen s.delivered p v.known n.0 v.gapless;
  all_logged = v.all_logged;
  queue_logged = v.queue_logged;
  wire_logged = l.2;
  delivered_logged = Logged-snoc s.log s.delivered p v.delivered_logged l.0 l.1;
}

-- What an acknowledgement does to the client, on a queue that starts with `front`.
pub on_ack_lem :
    (c c' : Client) (a : ℕ)
    → on_ack c a ≡ some c'
    → (front : Packet) × (rest : List Packet) × (c.notack_queue ≡ front ∷ rest)
      × (c' ≡ record c { notack_queue = rest })
unfolding on_ack
on_ack_lem c c' a e = go c.notack_queue refl
  where
    go :
        (q : List Packet)
        → c.notack_queue ≡ q
        → (front : Packet) × (rest : List Packet) × (c.notack_queue ≡ front ∷ rest)
          × (c' ≡ record c { notack_queue = rest })
    go [] h = ground arith
    go (front ∷ rest) h = (front, rest, h, ground arith)

pub acknowledged-Inv :
    (s : Pipe) (a : ℕ) (later : List ℕ) (front : Packet) (rest : List Packet)
    → (v : Inv s) → Counted v.first (a ∷ later) v.wire
    → Numbered v.first (front ∷ rest) s.client.seq
    → Logged s.log (front ∷ rest)
    → Inv (record s { client = record s.client { notack_queue = rest }; acks = later })
acknowledged-Inv s a later front rest v n q l = record {
  first = suc v.first;
  wire = v.wire;
  end = v.end;
  seen = v.seen;
  version = v.version;
  queued = q.1;
  counted = n.1;
  written = v.written;
  whole = v.whole;
  not_past = v.not_past;
  known = v.known;
  bounded = v.bounded;
  gapless = v.gapless;
  all_logged = v.all_logged;
  queue_logged = l.2;
  wire_logged = v.wire_logged;
  delivered_logged = v.delivered_logged;
}

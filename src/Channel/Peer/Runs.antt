-- ===== src/Channel/Peer/Runs.antt =====
-- A run of `real_send` is a history of the pipe.
use gaia_net.Base.{
  not, if◌then◌else◌, ℕ, suc, ◌≡◌, inl, inr, refl, ap, sym, ◌∙◌, subst, Bool, true, false, List, [],
  ◌∷◌, ◌++◌, some, none, arith, List-cases,
}
use gaia_net.Rpc.Client.{
  Packet, Client, v2, on_ack, on_thread_start, on_read_end, returns, send_ready,
  get_continue_status, set_continue_status, init_sender, new,
}
use gaia_net.Rpc.Client.Numbered.{Numbered, Numbered-le}
use gaia_net.Base.Int.{leb_ℤ}
use gaia_net.Rpc.Flush.{read_acks, left_waiting, thread_turn}
use gaia_net.Rpc.Pipe.{
  Pipe, Step, Reach, here, next, sends, refused, delivers, acknowledged, thread_starts, receives,
  thread_ends, reconnects, successor,
}
use gaia_net.Rpc.Pipe.Inv.{Inv, Counted}
use gaia_net.Rpc.Pipe.Steps.{Reach-Inv, Step-Inv, Counted-le}
use gaia_net.Rpc.Pipe.Keep.{refused_lem, on_ack_lem}
use gaia_net.Channel.Peer.{renewed, Delivered, none_more, one_more, Before}

pub Reach-trans : {s t u : Pipe} → Reach s t → Reach t u → Reach s u
Reach-trans r here = r
Reach-trans r (next r' st) = next (Reach-trans r r') st

pub Delivered-Reach : {s t : Pipe} → Delivered s t → Reach s t
Delivered-Reach none_more = here
Delivered-Reach (one_more {p} {rest} d e) = next (Delivered-Reach d) (delivers p rest e refl)

-- Deliveries leave the client, the log and the liveness of the stream.
pub Delivered-kept : {s t : Pipe} → Delivered s t → (t.client ≡ s.client) × (t.log ≡ s.log)
Delivered-kept none_more = (refl, refl)
Delivered-kept (one_more d e) = Delivered-kept d

-- An acknowledgement that has come finds a packet.
acks_find :
    (s : Pipe) (a : ℕ) (more : List ℕ)
    → Inv s
    → s.acks ≡ a ∷ more
    → (c : Client) × (on_ack s.client a ≡ some c)
unfolding on_ack
acks_find s a more v e = elim (List-cases s.client.notack_queue) [
  | inl none_left ↦
      let all : v.first ≡ s.client.seq =
        subst (λ q. Numbered v.first q s.client.seq) none_left v.queued in
      let counted = subst (λ k. Counted v.first k v.wire) e v.counted in
      absurd (
        omega (
          arith,
          all,
          Counted-le (suc v.first) v.wire more counted.1,
          Numbered-le v.wire v.end s.on_wire v.written,
          v.not_past,
        ))
  | inr (p, ps, some_left) ↦ (record s.client { notack_queue = ps }, rw some_left refl)
]

-- The thread reads acknowledgements that have come.
pub reads_Reach :
    (acks more : List ℕ) (s : Pipe)
    → Inv s
    → s.acks ≡ acks ++ more
    → Reach s (record s { client = read_acks acks s.client; acks = more })
reads_Reach [] more s v e = subst (λ k. Reach s (record s { acks = k })) e here
reads_Reach (a ∷ acks) more s v e =
    let (c, found) = acks_find s a (acks ++ more) v e in
    let s1 : Pipe = record s { client = c; acks = acks ++ more } in
    let st : Step s s1 = acknowledged a (acks ++ more) c e found refl in
    let same : read_acks (a ∷ acks) s.client ≡ read_acks acks c =
      ap (λ o. elim o [ none ↦ s.client | some c' ↦ read_acks acks c' ]) found in
    subst (λ c'. Reach s (record s { client = c'; acks = more })) (sym same)
      (Reach-trans (next here st) (reads_Reach acks more s1 (Step-Inv s s1 st v) refl))

-- The thread does not wait with one of them.
pub reads_through :
    (acks more : List ℕ) (s : Pipe)
    → Inv s
    → s.acks ≡ acks ++ more
    → left_waiting acks s.client ≡ false
reads_through [] more s v e = refl
reads_through (a ∷ acks) more s v e =
    let (c, found) = acks_find s a (acks ++ more) v e in
    let s1 : Pipe = record s { client = c; acks = acks ++ more } in
    let st : Step s s1 = acknowledged a (acks ++ more) c e found refl in
    ap (λ o. elim o [ none ↦ true | some c' ↦ left_waiting acks c' ]) found
    ∙ reads_through acks more s1 (Step-Inv s s1 st v) refl

thread_turn_Reach :
    (acks more : List ℕ) (read_end : Bool) (s : Pipe)
    → Inv s
    → s.acks ≡ acks ++ more
    → Reach s (record s { client = thread_turn acks read_end s.client; acks = more })
thread_turn_Reach acks more false s v e = reads_Reach acks more s v e
thread_turn_Reach acks more true s v e =
    subst
      (λ b. Reach s (record s {
        client = if not b then on_read_end (read_acks acks s.client) else read_acks acks s.client;
        acks = more;
      }))
      (sym (reads_through acks more s v e)) (next (reads_Reach acks more s v e) (thread_ends refl))

pub Before-Reach :
    (s t : Pipe) (acks : List ℕ) (read_end : Bool) → Inv s → Before s acks read_end t → Reach s t
Before-Reach s t acks read_end v (u, more, d, e, et) =
    let r = Delivered-Reach d in
    Reach-trans r
      (subst (Reach u) (sym et) (thread_turn_Reach acks more read_end u (Reach-Inv v r) e))

pub Before-through :
    (s t : Pipe) (acks : List ℕ) (read_end : Bool)
    → Inv s
    → Before s acks read_end t
    → left_waiting acks s.client ≡ false
Before-through s t acks read_end v (u, more, d, e, et) =
    ap (left_waiting acks) (sym (Delivered-kept d).0)
    ∙ reads_through acks more u (Reach-Inv v (Delivered-Reach d)) e

pub Before-kept :
    (s t : Pipe) (acks : List ℕ) (read_end : Bool)
    → Before s acks read_end t
    → (t.client ≡ thread_turn acks read_end s.client) × (t.log ≡ s.log)
Before-kept s t acks read_end (u, more, d, e, et) =
    let (c, l) = Delivered-kept d in
    (ap (λ x. x.client) et ∙ ap (thread_turn acks read_end) c, ap (λ x. x.log) et ∙ l)

on_read_end-Open : (c : Client) → (on_read_end c).stream_open ≡ c.stream_open
unfolding on_read_end
on_read_end-Open c = refl

send_ready-Open :
    (c c' : Client) (taskid content : List ℕ)
    → send_ready c taskid content true ≡ returns true [] c'
    → c.stream_open ≡ true
    → c'.stream_open ≡ true
unfolding send_ready
send_ready-Open c c' taskid content e o = ground arith

successor-Open :
    (c c' : Client) (fits : List Bool) (ok : Bool) (out : List Packet)
    → c.rpc_version ≡ v2
    → successor c fits ≡ (ok, c', out)
    → c'.stream_open ≡ true
unfolding get_continue_status set_continue_status init_sender new
successor-Open c c' fits ok out h e = ground arith

-- The stream of a client of the second version stays set.
Step-Open :
    (s t : Pipe) → Inv s → Step s t → s.client.stream_open ≡ true → t.client.stream_open ≡ true
unfolding on_thread_start
Step-Open s t v (sends taskid content c' live h e et) o =
    ap (λ x. x.client.stream_open) et ∙ send_ready-Open s.client c' taskid content e o
Step-Open s t v (refused taskid content rest written c' e et) o =
    ap (λ x. x.client.stream_open) et
    ∙ ap (λ c. c.stream_open) (refused_lem s.client c' taskid content rest written e)
    ∙ o
Step-Open s t v (delivers p rest e et) o = ap (λ x. x.client.stream_open) et ∙ o
Step-Open s t v (acknowledged a rest c' ea e et) o =
    let (front, more, eq, ec) = on_ack_lem s.client c' a e in
    ap (λ x. x.client.stream_open) et ∙ ap (λ c. c.stream_open) ec ∙ o
Step-Open s t v (thread_starts h et) o = ap (λ x. x.client.stream_open) et ∙ o
Step-Open s t v (receives timeout can_resend events et) o = ap (λ x. x.client.stream_open) et ∙ o
Step-Open s t v (thread_ends et) o =
    ap (λ x. x.client.stream_open) et ∙ on_read_end-Open s.client ∙ o
Step-Open s t v (reconnects fits ok c' out h e et) o =
    ap (λ x. x.client.stream_open) et ∙ successor-Open s.client c' fits ok out v.version e

pub Reach-Open :
    {s t : Pipe} → Inv s → Reach s t → s.client.stream_open ≡ true → t.client.stream_open ≡ true
Reach-Open v here o = o
Reach-Open v (next {t} {u} r st) o = Step-Open t u (Reach-Inv v r) st (Reach-Open v r o)

-- The stream is given up for a new one.
pub renewed_Reach :
    (s : Pipe) (late more : List ℕ) (fits : List Bool)
    → Inv s
    → s.acks ≡ late ++ more
    → Reach s (renewed s late fits)
renewed_Reach s late more fits v e =
    let r = reads_Reach late more s v e in
    next r (reconnects fits _ _ _ (ap (leb_ℤ v2) (Reach-Inv v r).version) refl refl)

-- ===== src/Rpc/Pipe/Steps.antt =====
-- A reconnection, and then every step, keeps the invariant of the pipe.
use gaia_net.Base.{ℕ, suc, ◌≤◌, ◌≡◌, refl, ap, sym, ◌∙◌, subst, Bool, true, List, [], ◌∷◌, arith}
use gaia_net.Rpc.Client.{
  Packet, Client, is_v2, on_thread_start, on_read_end, get_continue_status, resend, new,
  init_sender, v2, set_continue_status,
}
use gaia_net.Rpc.Client.Numbered.{Numbered, resend-Numbered}
use gaia_net.Rpc.Pipe.{
  Pipe, Step, sends, refused, delivers, acknowledged, thread_starts, receives, thread_ends,
  reconnects, Reach, here, next, successor, fresh,
}
use gaia_net.Rpc.Pipe.Inv.{Counted, Logged, Logged-resend, Inv}
use gaia_net.Rpc.Pipe.Keep.{
  send_ready-Took, sends-Inv, refused_lem, refused-Inv, delivers-Inv, on_ack_lem, acknowledged-Inv,
  same_sender-Inv,
}

-- What a client of the second version hands on to its successor.
pub record Continues (c c' : Client) : Type 0 where
  pub version : c'.rpc_version ≡ c.rpc_version
  pub data_kept : c'.data_version ≡ c.data_version
  pub numbered : c'.seq ≡ c.seq
  pub index : c'.recv_idx ≡ c.recv_idx
  pub queue : c'.notack_queue ≡ c.notack_queue
  pub party : c'.partyid ≡ c.partyid
  pub to_party : c'.to_partyid ≡ c.to_partyid

-- A client of the second version that is given up: whatever the new stream takes, its successor has
-- the same versions, numbers, last index, parties and unacknowledged packets, it writes those again
-- in order up to the first write that fails, and the result says whether all were written.
pub successor-Continues :
    (c c' : Client) (fits : List Bool) (ok : Bool) (out : List Packet)
    → is_v2 c ≡ true
    → successor c fits ≡ (ok, c', out)
    → Continues c c' × ((out, ok) ≡ resend c.notack_queue fits)
unfolding get_continue_status set_continue_status init_sender new
successor-Continues c c' fits ok out h e = ground arith

pub Counted-le : (from to : ℕ) (acks : List ℕ) → Counted from acks to → from ≤ to
Counted-le from to [] h = omega arith
Counted-le from to (a ∷ acks) h = omega (arith, Counted-le (suc from) to acks h.1)

reconnects-Inv :
    (s : Pipe) (fits : List Bool) (c' : Client)
    → Inv s
    → Continues s.client c'
    → Inv (record s {
      client = c';
      on_wire = (resend s.client.notack_queue fits).0;
      live = (resend s.client.notack_queue fits).1;
      acks = [];
    })
reconnects-Inv s fits c' v k =
    let (end, n, le, full) =
      resend-Numbered v.first s.client.seq s.client.notack_queue fits v.queued in
    record {
      first = v.first;
      wire = v.first;
      end = end;
      seen = v.seen;
      version = k.version ∙ v.version;
      queued = rw (k.queue, k.numbered) v.queued;
      counted = refl;
      written = n;
      whole = λ e. full e ∙ sym k.numbered;
      not_past = rw k.numbered le;
      known = omega (arith, Counted-le v.first v.wire s.acks v.counted, v.known);
      bounded = rw k.numbered v.bounded;
      gapless = v.gapless;
      all_logged = v.all_logged ∙ sym k.numbered;
      queue_logged = rw k.queue v.queue_logged;
      wire_logged = Logged-resend s.log s.client.notack_queue fits v.queue_logged;
      delivered_logged = v.delivered_logged;
    }

pub Step-Inv : (s t : Pipe) → Step s t → Inv s → Inv t
unfolding on_thread_start on_read_end
Step-Inv s t (sends taskid content c' live v2 e et) v =
    rw et (sends-Inv s taskid content c' v live (send_ready-Took s.client c' taskid content v2 e))
Step-Inv s t (refused taskid content rest written c' e et) v =
    rw (et, refused_lem s.client c' taskid content rest written e) (refused-Inv s v)
Step-Inv s t (delivers p rest e et) v = rw et (
    delivers-Inv s p rest v (subst (λ w. Numbered v.wire w v.end) e v.written)
      (subst (λ w. Logged s.log w) e v.wire_logged))
Step-Inv s t (acknowledged a rest c' ea e et) v =
    let (front, more, eq, ec) = on_ack_lem s.client c' a e in
    rw (et, ec)
      (acknowledged-Inv s a rest front more v (subst (λ w. Counted v.first w v.wire) ea v.counted)
        (subst (λ w. Numbered v.first w s.client.seq) eq v.queued)
        (subst (λ w. Logged s.log w) eq v.queue_logged))
Step-Inv s t (thread_starts h et) v =
    rw et (same_sender-Inv s (on_thread_start s.client) v refl refl refl)
Step-Inv s t (receives timeout can_resend events et) v =
    rw et (same_sender-Inv s _ v refl refl refl)
Step-Inv s t (thread_ends et) v = rw et (same_sender-Inv s (on_read_end s.client) v refl refl refl)
Step-Inv s t (reconnects fits ok c' out h e et) v =
    let (k, same) = successor-Continues s.client c' fits ok out h e in
    rw (et, ap (λ r. r.0) same, ap (λ r. r.1) same) (reconnects-Inv s fits c' v k)

pub Reach-Inv : {s t : Pipe} → Inv s → Reach s t → Inv t
Reach-Inv v here = v
Reach-Inv v (next {t} {u} r st) = Step-Inv t u st (Reach-Inv v r)

pub fresh-Inv :
    (partyid to_partyid : ℕ) (use_redis : Bool) → Inv (fresh partyid to_partyid use_redis)
unfolding init_sender new
fresh-Inv partyid to_partyid use_redis = record {
  first = 0;
  wire = 0;
  end = 0;
  seen = 0;
  version = refl;
  queued = refl;
  counted = refl;
  written = refl;
  whole = λ _. refl;
  not_past = omega arith;
  known = omega arith;
  bounded = omega arith;
  gapless = refl;
  all_logged = refl;
  queue_logged = tt;
  wire_logged = tt;
  delivered_logged = tt;
}

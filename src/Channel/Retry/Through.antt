-- ===== src/Channel/Retry/Through.antt =====
-- A call of `real_send` of which an attempt gets through.
use gaia_net.Base.{
  ℕ, zero, suc, ◌+◌, ◌≤◌, ◌<◌, ◌≡◌, refl, Bool, true, false, List, [], ◌∷◌, ◌++◌, tabulate, length,
  arith, ap, ◌∙◌,
}
use gaia_net.IChannel.{IChannel, statistics_send}
use gaia_net.Rpc.Client.{
  Client, v2, returns, send, send_ready, packet_of, thread_over, get_continue_status,
  set_continue_status, init_sender, new,
}
use gaia_net.Rpc.Flush.{left_waiting, thread_turn}
use gaia_net.Rpc.Pipe.{successor}
use gaia_net.Channel.{
  Attempt, gets_new, reconnect, ended, on_sent, send_loop, success, conclude, real_send,
}
use gaia_net.Channel.Retry.{Refusing, Ready, meanwhile_idle, send_refused, send_loop_step}

-- An attempt whose write goes through.
abbrev pub Writing : Attempt → Type 0
Writing a = (a.acks ≡ []) × (a.read_end ≡ false) × (a.written ≡ true)

-- A client in use whose thread runs, and that differs from `c` in nothing that matters to a packet.
record Like (c c' : Client) : Type 0 where
  pub ready : Ready c'
  pub runs : thread_over c'.recv_thread_status ≡ false
  pub queue : c'.notack_queue ≡ c.notack_queue
  pub number : c'.seq ≡ c.seq
  pub party : c'.partyid ≡ c.partyid
  pub to_party : c'.to_partyid ≡ c.to_partyid

reconnect-Like :
    (c c' : Client) (a : Attempt)
    → Like c c'
    → Refusing c.notack_queue a
    → (c'' : Client) × (reconnect (left_waiting a.acks c') c' a.then_new ≡ gets_new true c'')
      × Like c c''
unfolding reconnect get_continue_status set_continue_status init_sender new
reconnect-Like c c' a l r = (
  (successor c' a.then_new.fits).1,
  ground (arith, l.ready, l.queue),
  record {
    ready = (ground (arith, l.ready), ground (arith, l.ready));
    runs = ground (arith, l.ready);
    queue = ground (arith, l.ready, l.queue);
    number = ground (arith, l.ready, l.number);
    party = ground (arith, l.ready, l.party);
    to_party = ground (arith, l.ready, l.to_party);
  },
)

-- The packet is at the end of the queue, under the next number.
abbrev Taken : Client → List ℕ → List ℕ → Client → Type 0
Taken c taskid content c' =
    (c'.notack_queue ≡ c.notack_queue ++ packet_of c taskid content ∷ []) × (c'.seq ≡ suc c.seq)

send-Taken :
    (c c' : Client) (taskid content : List ℕ) (a : Attempt)
    → Like c c'
    → Writing a
    → (c'' : Client) × (send (thread_turn a.acks a.read_end c') taskid content a.replies a.written
        ≡ returns true [] c'')
      × Taken c taskid content c''
unfolding send send_ready
send-Taken c c' taskid content a l w =
    let same = meanwhile_idle a c' w.0 w.1 in
    let p : packet_of c' taskid content ≡ packet_of c taskid content =
      rw (l.party, l.to_party, l.number) refl in
    (
      record c' {
        seq = c'.seq + 1;
        notack_queue = c'.notack_queue ++ packet_of c' taskid content ∷ [];
      },
      ap (λ u. send u taskid content a.replies a.written) same
          ∙ ground (arith, l.ready, l.runs, w.2),
      (rw (l.queue, p) refl, omega (arith, l.number)),
    )

loop_Taken :
    (k n : ℕ) (f : ℕ → Attempt) (c c' : Client) (taskid content : List ℕ) (ret : Bool)
    → k < n
    → Like c c'
    → ((i : ℕ) → i < k → Refusing c.notack_queue (f i))
    → Writing (f k)
    → (c'' : Client) × (send_loop (tabulate n f) c' taskid content ret ≡ ended true [] c'')
      × Taken c taskid content c''
unfolding send_loop
loop_Taken k zero f c c' taskid content ret h l all w = absurd (omega (arith, h))
loop_Taken zero (suc n) f c c' taskid content ret h l all w =
    let (c'', e, t) = send-Taken c c' taskid content (f 0) l w in
    (
      c'',
      ap
          (λ r.
            on_sent r (left_waiting (f 0).acks c') (f 0)
              (λ left u ok. send_loop (tabulate n (λ i. f (suc i))) u taskid left ok))
          e,
      t,
    )
loop_Taken (suc k) (suc n) f c c' taskid content ret h l all w =
    let first = all 0 (omega arith) in
    let (d, made, l') = reconnect-Like c c' (f 0) l first in
    let refused =
      ap (λ u. send u taskid content (f 0).replies (f 0).written)
        (meanwhile_idle (f 0) c' first.0 first.1)
      ∙ send_refused c' taskid content (f 0) l.ready first.2 in
    let (c'', e, t) =
      loop_Taken k n (λ i. f (suc i)) c d taskid content true (omega (arith, h)) l'
        (λ i lt. all (suc i) (omega (arith, lt))) w in
    (
      c'',
      send_loop_step c' d taskid content ret (f 0) (tabulate n (λ i. f (suc i))) refused made ∙ e,
      t,
    )

-- A client of the second version on an open stream whose thread runs, and a server that refuses the first
-- `k` writes, at most 119, acknowledges nothing meanwhile, and can be reached and takes the unacknowledged
-- packets again each time, where each client's thread has begun before the client is given up; the write
-- after those goes through: `real_send` returns, the string was moved out and counted, and its packet
-- stands once, under the next number, at the end of the queue.
pub real_send_goes_through :
    (net : IChannel) (c : Client) (content : List ℕ) (attempt : ℕ → Attempt) (k : ℕ)
    → k ≤ 119
    → c.rpc_version ≡ v2
    → c.stream_open ≡ true
    → thread_over c.recv_thread_status ≡ false
    → ((i : ℕ) → i < k → Refusing c.notack_queue (attempt i))
    → Writing (attempt k)
    → (c' : Client) × (real_send net c content attempt
        ≡ success (statistics_send net (length content)) c' [])
      × (c'.notack_queue ≡ c.notack_queue ++ packet_of c net.channel_id content ∷ [])
      × (c'.seq ≡ suc c.seq)
unfolding real_send
real_send_goes_through net c content attempt k h version ready runs all w =
    let same : Like c c = record {
      ready = (version, ready);
      runs = runs;
      queue = refl;
      number = refl;
      party = refl;
      to_party = refl;
    } in
    let (c', e, (queue, n)) =
      loop_Taken k 120 attempt c c net.channel_id content false (omega (arith, h)) same all w in
    (c', ap (conclude net (length content)) e, queue, n)

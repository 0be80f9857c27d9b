-- ===== src/Channel/Retry.antt =====
-- What `real_send` gives a caller that sees it return.
pub mod Through
use gaia_net.Base.{
  ℕ, zero, suc, ◌≡◌, refl, Bool, true, false, List, [], ◌∷◌, some, tabulate, length, arith, ap, sym,
  subst, ◌∙◌,
}
use gaia_net.IChannel.{IChannel, statistics_send}
use gaia_net.Rpc.Client.{
  Packet, Client, v2, returns, send, send_ready, resend, get_continue_status, set_continue_status,
  init_sender, new,
}
use gaia_net.Rpc.Flush.{left_waiting, thread_turn}
use gaia_net.Rpc.Pipe.{successor}
use gaia_net.Channel.{
  Attempt, gets_new, reconnect, Ended, ended, send_loop, success, conclude, real_send,
}

-- An attempt whose write fails, while the thread has begun, and the server can be reached and takes the old packets
-- again.
abbrev pub Refusing : List Packet → Attempt → Type 0
Refusing queue a =
    (a.acks ≡ [])
    × (a.read_end ≡ false)
    × (a.written ≡ false)
    × (a.then_new.begun ≡ true)
    × (a.then_new.late ≡ [])
    × (a.then_new.connects ≡ true)
    × ((resend queue a.then_new.fits).1 ≡ true)

abbrev pub All : (Attempt → Type 0) → List Attempt → Type 0
All P [] = Unit {0}
All P (a ∷ rest) = P a × All P rest

-- A client of the second version that is in use.
abbrev Ready : Client → Type 0
Ready c = (c.rpc_version ≡ v2) × (c.stream_open ≡ true)

-- The rest of the loop leaves the content unsent, and the same packets unacknowledged.
abbrev Unsent : Client → List ℕ → Ended → Type 0
Unsent c content r =
    (c' : Client) × (r ≡ ended true content c')
    × (c'.notack_queue ≡ c.notack_queue)
    × (c'.seq ≡ c.seq)

meanwhile_idle :
    (a : Attempt) (c : Client)
    → a.acks ≡ []
    → a.read_end ≡ false
    → thread_turn a.acks a.read_end c ≡ c
meanwhile_idle a c h k = rw (h, k)

send_refused :
    (c : Client) (taskid content : List ℕ) (a : Attempt)
    → Ready c
    → a.written ≡ false
    → send c taskid content a.replies a.written ≡ returns false content c
unfolding send send_ready
send_refused c taskid content a h w = ground arith

reconnect-Ready :
    (c : Client) (a : Attempt)
    → Ready c
    → Refusing c.notack_queue a
    → (c' : Client) × (reconnect (left_waiting a.acks c) c a.then_new ≡ gets_new true c')
      × Ready c'
      × (c'.notack_queue ≡ c.notack_queue)
      × (c'.seq ≡ c.seq)
unfolding reconnect get_continue_status set_continue_status init_sender new
reconnect-Ready c a h r =
    ((successor c a.then_new.fits).1, ground arith, ground arith, ground arith, ground arith)

send_loop_step :
    (c c' : Client) (taskid content : List ℕ) (ret : Bool) (a : Attempt) (rest : List Attempt)
    → send (thread_turn a.acks a.read_end c) taskid content a.replies a.written
      ≡ returns false content c
    → reconnect (left_waiting a.acks c) c a.then_new ≡ gets_new true c'
    → send_loop (a ∷ rest) c taskid content ret ≡ send_loop rest c' taskid content true
unfolding send_loop
send_loop_step c c' taskid content ret a rest h k = rw (h, k)

loop_Unsent :
    (rest : List Attempt) (c : Client) (taskid content : List ℕ)
    → Ready c
    → All (Refusing c.notack_queue) rest
    → Unsent c content (send_loop rest c taskid content true)
unfolding send_loop
loop_Unsent [] c taskid content h all = (c, refl, refl, refl)
loop_Unsent (a ∷ rest) c taskid content h all =
    let (c', ec, ready, queue, seq) = reconnect-Ready c a h all.0 in
    let refused =
      ap (λ u. send u taskid content a.replies a.written) (meanwhile_idle a c all.0.0 all.0.1)
      ∙ send_refused c taskid content a h all.0.2 in
    let (c'', e, q, n) =
      loop_Unsent rest c' taskid content ready
        (subst (λ qs. All (Refusing qs) rest) (sym queue) all.1) in
    (c'', send_loop_step c c' taskid content true a rest refused ec ∙ e, q ∙ queue, n ∙ seq)

All-tabulate :
    (P : Attempt → Type 0) (n : ℕ) (f : ℕ → Attempt) → ((i : ℕ) → P (f i)) → All P (tabulate n f)
All-tabulate P zero f h = tt
All-tabulate P (suc n) f h = (h 0, All-tabulate P n (λ i. f (suc i)) (λ i. h (suc i)))

loop_all :
    (n : ℕ) (f : ℕ → Attempt) (c : Client) (taskid content : List ℕ)
    → Ready c
    → ((i : ℕ) → Refusing c.notack_queue (f i))
    → Unsent c content (send_loop (tabulate (suc n) f) c taskid content false)
unfolding send_loop
loop_all n f c taskid content h all =
    let (c', ec, ready, queue, seq) = reconnect-Ready c (f 0) h (all 0) in
    let refused =
      ap (λ u. send u taskid content (f 0).replies (f 0).written)
        (meanwhile_idle (f 0) c (all 0).0 (all 0).1)
      ∙ send_refused c taskid content (f 0) h (all 0).2 in
    let (c'', e, q, n') = loop_Unsent (tabulate n (λ i. f (suc i))) c' taskid content ready (
      subst (λ qs. All (Refusing qs) (tabulate n (λ i. f (suc i)))) (sym queue)
        (All-tabulate (Refusing c.notack_queue) n (λ i. f (suc i)) (λ i. all (suc i)))) in
    (
      c'',
      send_loop_step c c' taskid content false (f 0) (tabulate n (λ i. f (suc i))) refused ec ∙ e,
      q ∙ queue,
      n' ∙ seq,
    )

-- A client of the second version on an open stream, and a server that acknowledges nothing, on which every
-- new write fails while it can always be reached and takes the unacknowledged packets again, where each
-- client's thread has begun before the client is given up: after its 120 attempts `real_send` returns as if
-- it had sent the string, and counts it as sent, but the string is still there, and no packet was added and
-- no number used.
pub real_send_unsent :
    (net : IChannel) (c : Client) (content : List ℕ) (attempt : ℕ → Attempt)
    → c.rpc_version ≡ v2
    → c.stream_open ≡ true
    → ((i : ℕ) → Refusing c.notack_queue (attempt i))
    → (c' : Client) × (real_send net c content attempt
        ≡ success (statistics_send net (length content)) c' content)
      × (c'.notack_queue ≡ c.notack_queue)
      × (c'.seq ≡ c.seq)
unfolding real_send
real_send_unsent net c content attempt h o all =
    let (c', e, q, n) = loop_all 119 attempt c net.channel_id content (h, o) all in
    (c', ap (conclude net (length content)) e, q, n)

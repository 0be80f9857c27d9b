-- ===== src/Channel/Receive/Resumes.antt =====
-- `real_recv` across reconnections.
use gaia_net.Base.{
  ℕ, zero, suc, ◌+◌, ◌≤◌, ◌<◌, ◌&&◌, not, ◌≡◌, refl, ap, sym, ◌∙◌, Bool, true, false, List, [], ◌∷◌,
  none, some, tabulate, length, arith, inl, inr, Option-cases, List-cases, Bool-cases,
}
use gaia_net.Base.Int.{ℤ, inc}
use gaia_net.IChannel.{IChannel, statistics_recv}
use gaia_net.Rpc.Recv.{Event, got, failed, need_resend, overrun, out_of_range, waits, recv, Reply}
use gaia_net.Rpc.Recv.Safety.{settled, Advances, recv-Advances}
use gaia_net.Rpc.Client.{
  Client, v2, recv_state, with_state, on_ack, on_read_end, new, get_continue_status,
  set_continue_status, init_sender,
}
use gaia_net.Rpc.Flush.{read_acks, left_waiting, thread_turn}
use gaia_net.Rpc.Pipe.{successor}
use gaia_net.Channel.{Reconnection, gets_new, reconnect, Ended, ended, on_new, success}
use gaia_net.Channel.Receive.{Attempt, on_reply, recv_loop, conclude, real_recv}

-- A client of the second version on data of the second version, with the last index `idx`.
abbrev pub Indexed : ℤ → Client → Type 0
Indexed idx c = (c.rpc_version ≡ v2) × (recv_state c ≡ settled idx)

-- An attempt in which `Recv` asks for a resend, the thread has begun, and the server is reached again.
abbrev pub Resends : ℤ → ℤ → Attempt → Type 0
Resends timeout idx a =
    ((recv timeout true (settled idx) a.events).0 ≡ need_resend)
    × (a.then_new.begun ≡ true)
    × (a.then_new.connects ≡ true)

on_ack-Indexed :
    (idx : ℤ) (a : ℕ) (c c' : Client) → Indexed idx c → on_ack c a ≡ some c' → Indexed idx c'
unfolding on_ack
on_ack-Indexed idx a c c' h e = ground arith

read_acks-Indexed :
    (idx : ℤ) (acks : List ℕ) (c : Client) → Indexed idx c → Indexed idx (read_acks acks c)
read_acks-Indexed idx [] c h = h
read_acks-Indexed idx (a ∷ acks) c h = elim (Option-cases (on_ack c a)) [
  | inl e ↦ rw (read_acks, e) h
  | inr (c', e) ↦ rw (read_acks, e) (read_acks-Indexed idx acks c' (on_ack-Indexed idx a c c' h e))
]

thread_turn-Indexed :
    (idx : ℤ) (acks : List ℕ) (read_end : Bool) (c : Client)
    → Indexed idx c
    → Indexed idx (thread_turn acks read_end c)
unfolding on_read_end
thread_turn-Indexed idx acks read_end c h =
    elim (Bool-cases (read_end && not (left_waiting acks c))) [
      | inl e ↦ rw e (read_acks-Indexed idx acks c h)
      | inr e ↦ rw e (read_acks-Indexed idx acks c h)
    ]

successor-Indexed :
    (idx : ℤ) (c : Client) (fits : List Bool) → Indexed idx c → Indexed idx (successor c fits).1
unfolding get_continue_status set_continue_status init_sender new
successor-Indexed idx c fits h = ground arith

successor-queue :
    (idx : ℤ) (c : Client) (fits : List Bool)
    → Indexed idx c
    → (successor c fits).1.notack_queue ≡ c.notack_queue
unfolding get_continue_status set_continue_status init_sender new
successor-queue idx c fits h = ground arith

-- As many packets go as acknowledgements are read, where there are enough.
read_acks-length :
    (acks : List ℕ) (c : Client)
    → length acks ≤ length c.notack_queue
    → (left_waiting acks c ≡ false)
      × (length (read_acks acks c).notack_queue + length acks ≡ length c.notack_queue)
unfolding on_ack
read_acks-length [] c h = (refl, omega arith)
read_acks-length (a ∷ acks) c h = elim (List-cases c.notack_queue) [
  | inl e ↦ absurd (omega (arith, h, ap length e))
  | inr (p, rest, e) ↦
      let fewer = ap length e in
      let (none_waits, left) =
        read_acks-length acks (record c { notack_queue = rest }) (omega (arith, h, fewer)) in
      let found : on_ack c a ≡ some (record c { notack_queue = rest }) = rw e refl in
      let same : read_acks (a ∷ acks) c ≡ read_acks acks (record c { notack_queue = rest }) =
        ap (λ o. elim o [ none ↦ c | some c' ↦ read_acks acks c' ]) found in
      (
        ap (λ o. elim o [ none ↦ true | some c' ↦ left_waiting acks c' ]) found ∙ none_waits,
        omega (arith, fewer, left, ap (λ x. length x.notack_queue) same),
      )
]

thread_turn-queue :
    (acks : List ℕ) (read_end : Bool) (c : Client)
    → (thread_turn acks read_end c).notack_queue ≡ (read_acks acks c).notack_queue
unfolding on_read_end
thread_turn-queue acks read_end c = elim (Bool-cases (read_end && not (left_waiting acks c))) [
  | inl e ↦ rw e refl
  | inr e ↦ rw e refl
]

-- The acknowledgements of the first `n` attempts.
abbrev pub acks_of : ℕ → (ℕ → Attempt) → ℕ
acks_of zero f = 0
acks_of (suc n) f = length (f 0).acks + length (f 0).then_new.late + acks_of n (λ i. f (suc i))

reconnect-Indexed :
    (idx : ℤ) (c : Client) (r : Reconnection)
    → Indexed idx c
    → r.begun ≡ true
    → r.connects ≡ true
    → left_waiting r.late c ≡ false
    → (ok : Bool) × (c' : Client) × (reconnect false c r ≡ gets_new ok c')
      × Indexed idx c'
      × (c'.notack_queue ≡ (read_acks r.late c).notack_queue)
unfolding reconnect
reconnect-Indexed idx c r h b e none_waits = (
  (successor (read_acks r.late c) r.fits).0,
  (successor (read_acks r.late c) r.fits).1,
  rw (b, none_waits, e) refl,
  successor-Indexed idx (read_acks r.late c) r.fits (read_acks-Indexed idx r.late c h),
  successor-queue idx (read_acks r.late c) r.fits (read_acks-Indexed idx r.late c h),
)

module _ (idx : ℤ) (es : List Event) (waiting : Bool) (c0 : Client) (str : List ℕ)
    (r : Reconnection) where
  reply_resends :
      (c' : Client) (ok : Bool) (reply : Reply) (go : Client → Bool → Ended)
      → Indexed idx c0
      → Advances idx es reply
      → reply.0 ≡ need_resend
      → reconnect waiting c0 r ≡ gets_new ok c'
      → on_reply reply waiting c0 str r go ≡ go c' ok
  reply_resends c' ok (need_resend, s, rest) go v h o e =
      ap (λ st. on_new (reconnect waiting (with_state c0 st) r) go) (h ∙ sym v.1)
      ∙ ap (λ x. on_new x go) e
  reply_resends c' ok (got m, s, rest) go v h o e = absurd (ground arith)
  reply_resends c' ok (failed, s, rest) go v h o e = absurd (ground arith)
  reply_resends c' ok (overrun, s, rest) go v h o e = absurd (ground arith)
  reply_resends c' ok (out_of_range, s, rest) go v h o e = absurd (ground arith)
  reply_resends c' ok (waits, s, rest) go v h o e = absurd (ground arith)

  reply_gets :
      (m : List ℕ) (reply : Reply) (go : Client → Bool → Ended)
      → Advances idx es reply
      → reply.0 ≡ got m
      → on_reply reply waiting c0 str r go ≡ ended true m (with_state c0 (settled (inc idx)))
  reply_gets m (need_resend, s, rest) go h o = absurd (ground arith)
  reply_gets m (got m', s, rest) go h o = rw h.0 (ground arith)
  reply_gets m (failed, s, rest) go h o = absurd (ground arith)
  reply_gets m (overrun, s, rest) go h o = absurd (ground arith)
  reply_gets m (out_of_range, s, rest) go h o = absurd (ground arith)
  reply_gets m (waits, s, rest) go h o = absurd (ground arith)

module _ (timeout idx : ℤ) where
  resend_step :
      (a : Attempt) (rest : List Attempt) (c c' : Client) (str : List ℕ) (ret ok : Bool)
      → Indexed idx (thread_turn a.acks a.read_end c)
      → (recv timeout true (settled idx) a.events).0 ≡ need_resend
      → reconnect (left_waiting a.acks c) (thread_turn a.acks a.read_end c) a.then_new
        ≡ gets_new ok c'
      → recv_loop timeout (a ∷ rest) c str ret ≡ recv_loop timeout rest c' str ok
  unfolding recv_loop
  resend_step a rest c c' str ret ok v h e =
      let c0 = thread_turn a.acks a.read_end c in
      ap
        (λ st.
          on_reply (recv timeout true st a.events) (left_waiting a.acks c) c0 str a.then_new
            (λ c'' ok. recv_loop timeout rest c'' str ok))
        v.1
      ∙ reply_resends idx a.events (left_waiting a.acks c) c0 str a.then_new c' ok
          (recv timeout true (settled idx) a.events) (λ c'' ok. recv_loop timeout rest c'' str ok) v
          (recv-Advances timeout true idx a.events) h e

  got_step :
      (a : Attempt) (rest : List Attempt) (c : Client) (m str : List ℕ) (ret : Bool)
      → Indexed idx (thread_turn a.acks a.read_end c)
      → (recv timeout true (settled idx) a.events).0 ≡ got m
      → recv_loop timeout (a ∷ rest) c str ret
        ≡ ended true m (with_state (thread_turn a.acks a.read_end c) (settled (inc idx)))
  unfolding recv_loop
  got_step a rest c m str ret v h =
      let c0 = thread_turn a.acks a.read_end c in
      ap
        (λ st.
          on_reply (recv timeout true st a.events) (left_waiting a.acks c) c0 str a.then_new
            (λ c'' ok. recv_loop timeout rest c'' str ok))
        v.1
      ∙ reply_gets idx a.events (left_waiting a.acks c) c0 str a.then_new m
          (recv timeout true (settled idx) a.events) (λ c'' ok. recv_loop timeout rest c'' str ok)
          (recv-Advances timeout true idx a.events) h

  -- Any number of resends, and then a message.
  loop_gets :
      (t n : ℕ) (f : ℕ → Attempt) (c : Client) (m : List ℕ) (ret : Bool)
      → n < t
      → Indexed idx c
      → ((i : ℕ) → i < n → Resends timeout idx (f i))
      → acks_of n f ≤ length c.notack_queue
      → (recv timeout true (settled idx) (f n).events).0 ≡ got m
      → (c' : Client) × (recv_loop timeout (tabulate t f) c [] ret ≡ ended true m c')
        × Indexed (inc idx) c'
  loop_gets zero n f c m ret lt v all few h = absurd (omega arith)
  loop_gets (suc t) zero f c m ret lt v all few h =
      let v' = thread_turn-Indexed idx (f 0).acks (f 0).read_end c v in
      (
        with_state (thread_turn (f 0).acks (f 0).read_end c) (settled (inc idx)),
        got_step (f 0) (tabulate t (λ i. f (suc i))) c m [] ret v' h,
        (v'.0, refl),
      )
  loop_gets (suc t) (suc n) f c m ret lt v all few h =
      let v' = thread_turn-Indexed idx (f 0).acks (f 0).read_end c v in
      let (asks, begins, again) = all 0 (omega arith) in
      let c0 = thread_turn (f 0).acks (f 0).read_end c in
      let (none_waits, left) = read_acks-length (f 0).acks c (omega (arith, few)) in
      let same = ap length (thread_turn-queue (f 0).acks (f 0).read_end c) in
      let (none_late, left') =
        read_acks-length (f 0).then_new.late c0 (omega (arith, few, left, same)) in
      let (ok, c1, e, v1, q1) = reconnect-Indexed idx c0 (f 0).then_new v' begins again none_late in
      let made = ap (λ b. reconnect b c0 (f 0).then_new) none_waits ∙ e in
      let (c', e', v'') =
        loop_gets t n (λ i. f (suc i)) c1 m ok (omega arith) v1 (λ i l. all (suc i) (omega arith))
          (omega (arith, few, left, same, left', ap length q1)) h in
      (c', resend_step (f 0) (tabulate t (λ i. f (suc i))) c c1 [] ret ok v' asks made ∙ e', v'')

-- A client of the second version on data of the second version. After at most 119 attempts in which
-- `Recv` asks for a resend and the server is reached again, an attempt in which `Recv` from the same
-- last index gets a message: `real_recv` returns that message, counts it, and the last index is the
-- next one, whatever the acknowledging threads do meanwhile, as long as, in the attempts before, each has begun
-- before its client is given up and they read no more acknowledgements than packets wait.
pub real_recv_resumes :
    (net : IChannel) (timeout idx : ℤ) (n : ℕ) (c : Client) (attempt : ℕ → Attempt) (m : List ℕ)
    → n < 120
    → Indexed idx c
    → ((i : ℕ) → i < n → Resends timeout idx (attempt i))
    → acks_of n attempt ≤ length c.notack_queue
    → (recv timeout true (settled idx) (attempt n).events).0 ≡ got m
    → (c' : Client) × (real_recv net timeout c attempt
        ≡ success (statistics_recv net (length m)) c' m)
      × Indexed (inc idx) c'
unfolding real_recv
real_recv_resumes net timeout idx n c attempt m lt v all few h =
    let (c', e, v') = loop_gets timeout idx 120 n attempt c m false lt v all few h in
    (c', ap (conclude net) e, v')

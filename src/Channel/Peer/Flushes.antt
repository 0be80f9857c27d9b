-- ===== src/Channel/Peer/Flushes.antt =====
-- What a flushed channel has delivered.
use gaia_net.Base.{
  ℕ, zero, suc, ◌^◌, ◌≤◌, ◌≡◌, ◌⊎◌, refl, ap, sym, ◌∙◌, subst, Bool, true, false, List, [], map,
  take, length, some, Option, arith, inl, inr, List-cases, take-length,
}
use gaia_net.Base.Int.{ℤ, negsuc}
use gaia_net.IChannel.{IChannel}
use gaia_net.Rpc.Recv.{got}
use gaia_net.Rpc.Recv.Safety.{settled}
use gaia_net.Rpc.Recv.Session.{Patient, calls}
use gaia_net.Rpc.Client.{Client}
use gaia_net.Rpc.Flush.{
  Lap, Round, returns, sleeps, round, on_round, thread_turn, Waited, wait_from, wait_flush,
}
use gaia_net.Rpc.Pipe
use gaia_net.Rpc.Pipe.{Pipe, Reach, here}
use gaia_net.Rpc.Pipe.Inv.{Inv}
use gaia_net.Rpc.Pipe.Steps.{Reach-Inv, fresh-Inv}
use gaia_net.Rpc.Pipe.Exact.{to_event}
use gaia_net.Channel.Peer.{Before, Talk, passes}
use gaia_net.Channel.Peer.Runs.{Reach-trans, Before-Reach, Before-kept}
use gaia_net.Channel.Peer.Talks.{Talk-log, contents_delivered}

-- A round that ends the wait well finds no packet.
round-true :
    (max_msec : ℕ) (c : Client) (lap : Lap) (need : Bool)
    → round max_msec c lap ≡ returns true need
    → c.notack_queue ≡ []
unfolding round
round-true max_msec c lap need e = elim (List-cases c.notack_queue) [
  | inl h ↦ h
  | inr (p, ps, h) ↦ absurd (ground (arith, h))
]

-- A good end is that of this round or of a later one.
on_round-true :
    (r : Round) (c c' : Client) (need : Bool) (rest : Option Waited)
    → on_round r c rest ≡ some (true, need, c')
    → ((n : Bool) × (r ≡ returns true n) × (c' ≡ c)) ⊎ (rest ≡ some (true, need, c'))
on_round-true (returns true n) c c' need rest e = inl (n, refl, ground arith)
on_round-true (returns false n) c c' need rest e = absurd (ground arith)
on_round-true sleeps c c' need rest e = inr e

module _ (σ : ℕ → Pipe) (laps : ℕ → Lap)
    (goes : (i : ℕ) → Before (σ i) (laps i).acks (laps i).read_end (σ (suc i))) where
  -- When the wait ends well, the pipe is at the end of some round, with no packet waiting.
  wait_flushed :
      (fuel max_msec i : ℕ) (need : Bool) (c : Client)
      → wait_from fuel max_msec i (σ i).client laps ≡ some (true, need, c)
      → (k : ℕ) × (c ≡ (σ k).client) × (c.notack_queue ≡ [])
  unfolding wait_from
  wait_flushed zero max_msec i need c e = cc
  wait_flushed (suc fuel) max_msec i need c e =
      let next : Client = thread_turn (laps i).acks (laps i).read_end (σ i).client in
      let same : (σ (suc i)).client ≡ next =
        (Before-kept (σ i) (σ (suc i)) (laps i).acks (laps i).read_end (goes i)).0 in
      elim (on_round-true (round max_msec next (laps i)) next c need _ e) [
        | inl (n, ended, last) ↦ (
          suc i,
          last ∙ sym same,
          ap (λ x. x.notack_queue) last ∙ round-true max_msec next (laps i) n ended,
        )
        | inr later ↦
            wait_flushed fuel max_msec (suc i) need c
              (ap (λ x. wait_from fuel max_msec (suc i) x laps) same ∙ later)
      ]

  σ_Reach : (v : Inv (σ 0)) (k : ℕ) → Reach (σ 0) (σ k)
  σ_Reach v zero = here
  σ_Reach v (suc k) = Reach-trans (σ_Reach v k) (
      Before-Reach (σ k) (σ (suc k)) (laps k).acks (laps k).read_end (Reach-Inv v (σ_Reach v k))
        (goes k))

  σ_log : (k : ℕ) → (σ k).log ≡ (σ 0).log
  σ_log zero = refl
  σ_log (suc k) =
      (Before-kept (σ k) (σ (suc k)) (laps k).acks (laps k).read_end (goes k)).1 ∙ σ_log k

-- A channel as for `contents_delivered`, then `wait_flush` while the peer and the thread go on, in each
-- round from `σ i` to `σ (i + 1)`; when it returns true, the client is one of these, and by then a receiver
-- that has patience for as many events as were delivered gets all the contents, each once and in order.
pub wait_flush_delivered :
    (partyid to_partyid : ℕ) (use_redis : Bool) (net : IChannel) (τ : ℤ) (cr : Bool) (σ : ℕ → Pipe)
    (laps : ℕ → Lap) (fuel max_msec : ℕ) (need : Bool) (c : Client) {contents : List (List ℕ)}
    {net' : IChannel}
    → ((i : ℕ) → Before (σ i) (laps i).acks (laps i).read_end (σ (suc i)))
    → Talk net (Pipe.fresh partyid to_partyid use_redis) contents net' (σ 0)
    → (σ 0).client.seq ≤ 2 ^ 31
    → ((i : ℕ) → Patient τ (length (σ i).delivered))
    → wait_flush fuel max_msec (σ 0).client laps ≡ some (true, need, c)
    → (k : ℕ) × (c ≡ (σ k).client)
      × (calls τ cr (length contents) (settled (negsuc 0)) (map to_event (σ k).delivered)
          ≡ map got contents)
unfolding wait_flush
wait_flush_delivered partyid to_partyid use_redis net τ cr σ laps fuel max_msec need c {contents}
      goes talk low patient e =
    let (k, last, none_left) = wait_flushed σ laps goes fuel max_msec 0 need c e in
    let (r, log, counted) = Talk-log partyid to_partyid use_redis net talk in
    let v = Reach-Inv (fresh-Inv partyid to_partyid use_redis) r in
    let rk = σ_Reach σ laps goes v k in
    let same = σ_log σ laps goes k in
    let low' : (σ k).client.seq ≤ 2 ^ 31 =
      omega (arith, low, v.all_logged, (Reach-Inv v rk).all_logged, ap length same) in
    let (seen, le, got_seen, whole, more) =
      contents_delivered partyid to_partyid use_redis net τ cr (passes talk rk same) low'
        (patient k) in
    let all = whole (ap (λ x. x.notack_queue) (sym last) ∙ none_left) in
    (
      k,
      last,
      subst
            (λ n.
              calls τ cr n (settled (negsuc 0)) (map to_event (σ k).delivered)
              ≡ map got (take n contents))
            all got_seen
          ∙ ap (map got) (take-length (length contents) contents (omega arith)),
    )

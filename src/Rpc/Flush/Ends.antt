-- ===== src/Rpc/Flush/Ends.antt =====
-- `wait_flush` ends, since its sleeps double, and what its answer means.
use gaia_net.Base.{
  ℕ, zero, suc, ◌+◌, ◌*◌, ◌^◌, ◌≤◌, ◌<◌, ◌≡◌, ◌≢◌, refl, ap, subst, ◌∙◌, ◌⊎◌, inl, inr, Bool, true,
  false, [], Option, none, some, ltb, leb, arith, Bool-cases,
}
use gaia_net.Rpc.Client.{Client, thread_over}
use gaia_net.Rpc.Flush.{
  Lap, flushed, Round, returns, sleeps, round, Waited, on_round, wait_from, wait_flush, interval,
  thread_turn,
}

-- Each sleep takes at least as long as it was asked to.
abbrev pub Sleeps : ℕ → (ℕ → Lap) → Type 0
Sleeps max_msec laps =
    (i : ℕ) → (laps i).elapsed + interval max_msec laps (suc i) ≤ (laps (suc i)).elapsed

-- What the answer says of the client and of the last look.
abbrev pub Means : ℕ → (ℕ → Lap) → Waited → Type 0
Means max_msec laps (true, resend, c) = (c.notack_queue ≡ []) × (resend ≡ false)
Means max_msec laps (false, true, c) =
    (c.notack_queue ≢ [])
    × (i : ℕ) × ((thread_over c.recv_thread_status ≡ true) ⊎ ((laps i).ready ≡ false))
Means max_msec laps (false, false, c) =
    (c.notack_queue ≢ [])
    × (thread_over c.recv_thread_status ≡ false)
    × (i : ℕ) × ((laps i).ready ≡ true)
    × (max_msec ≤ (laps i).elapsed)

flushed_empty : (c : Client) → flushed c ≡ true → c.notack_queue ≡ []
flushed_empty c h = ground arith

unflushed : (c : Client) → flushed c ≡ false → c.notack_queue ≢ []
unflushed c h e = ground arith

module _ (max_msec : ℕ) (laps : ℕ → Lap) where
  -- A round that does not sleep says the truth.
  abbrev Judged : ℕ → Client → Round → Type 0
  Judged i c (returns flag resend) = Means max_msec laps (flag, resend, c)
  Judged i c sleeps = (laps i).elapsed < max_msec

  round-Judged : (i : ℕ) (c : Client) → Judged i c (round max_msec c (laps i))
  unfolding round
  round-Judged i c = elim (Bool-cases (flushed c)) [
    | inl e ↦ rw e (flushed_empty c e, refl)
    | inr q ↦ rw q (elim (Bool-cases (thread_over c.recv_thread_status)) [
      | inl over ↦ rw over (unflushed c q, i, inl over)
      | inr on ↦ rw on (elim (Bool-cases (laps i).ready) [
        | inr away ↦ rw away (unflushed c q, i, inr away)
        | inl ready ↦ rw ready (elim (Bool-cases (leb max_msec (laps i).elapsed)) [
          | inl late ↦ rw late (unflushed c q, on, i, ready, ground arith)
          | inr early ↦ rw early (ground arith)
        ])
      ])
    ])
  ]

  Round-cases : (r : Round) → (r ≡ sleeps) ⊎ ((f s : Bool) × (r ≡ returns f s))
  Round-cases (returns f s) = inr (f, s, refl)
  Round-cases sleeps = inl refl

  -- The sleeps have doubled `i` times, or the time is over.
  abbrev Doubled : ℕ → Type 0
  Doubled i =
      (max_msec ≤ (laps i).elapsed)
      ⊎ ((interval max_msec laps i ≡ 5 * 2 ^ i) × (10 * 2 ^ i ≤ (laps i).elapsed + 10))

  double :
      (i : ℕ) → Sleeps max_msec laps → (laps i).elapsed < max_msec → Doubled i → Doubled (suc i)
  double i clock early (inl late) = inl (omega arith)
  double i clock early (inr (same, passed)) =
      elim (Bool-cases (ltb max_msec ((laps i).elapsed + interval max_msec laps i * 2))) [
        | inl cut ↦ inl (ground (arith, clock i))
        | inr whole ↦ inr (ground (arith, clock i), ground (arith, clock i))
      ]

  Ended : Option Waited → Type 0
  Ended o = (r : Waited) × (o ≡ some r) × Means max_msec laps r

  after_round :
      (i : ℕ) (c : Client) (rest : Option Waited)
      → ((laps i).elapsed < max_msec → Ended rest)
      → Ended (on_round (round max_msec c (laps i)) c rest)
  unfolding Ended
  after_round i c rest more = elim (Round-cases (round max_msec c (laps i))) [
    | inr (f, s, e) ↦
        ((f, s, c), ap (λ r. on_round r c rest) e, subst (Judged i c) e (round-Judged i c))
    | inl e ↦
        let (r, same, means) = more (subst (Judged i c) e (round-Judged i c)) in
        (r, ap (λ r'. on_round r' c rest) e ∙ same, means)
  ]

  ends :
      (n i : ℕ) (c : Client)
      → Sleeps max_msec laps
      → Doubled i
      → max_msec + 10 ≤ 10 * 2 ^ (i + n)
      → Ended (wait_from (suc n) max_msec i c laps)
  unfolding wait_from
  ends zero i c clock d enough =
      after_round i (thread_turn (laps i).acks (laps i).read_end c) none
        (λ early. absurd (ground arith))
  ends (suc n) i c clock d enough =
      let c' = thread_turn (laps i).acks (laps i).read_end c in
      after_round i c' (wait_from (suc n) max_msec (suc i) c' laps)
        (λ early. ends n (suc i) c' clock (double i clock early d) (ground arith))

-- `wait_flush` with a limit of at most `10 * 2 ^ n - 10` milliseconds, when each sleep takes at least
-- as long as it was asked to: it returns within `n + 1` rounds, whatever the acknowledging thread,
-- the connection and the clock do besides. It returns true with an empty queue only; it asks for
-- a resend only when packets wait while the thread is over or the connection not ready; and it
-- returns false without asking only when packets wait, the thread is not over and the limit is up.
pub wait_flush_lem :
    (n max_msec : ℕ) (c : Client) (laps : ℕ → Lap)
    → Sleeps max_msec laps
    → max_msec + 10 ≤ 10 * 2 ^ n
    → (r : Waited) × (wait_flush (suc n) max_msec c laps ≡ some r) × Means max_msec laps r
unfolding wait_flush Ended
wait_flush_lem n max_msec c laps clock enough =
    ends max_msec laps n 0 c clock (inr (refl, omega arith))
      (subst (λ k. max_msec + 10 ≤ 10 * 2 ^ k) (omega arith) enough)

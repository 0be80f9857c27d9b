-- ===== src/Channel/Flush/Settles.antt =====
-- What the answer of `flush` means.
use gaia_net.Base.{
  ℕ, zero, suc, ◌≡◌, ◌≢◌, refl, ◌∙◌, ◌⊎◌, inl, inr, true, false, List, [], ◌∷◌, ◌++◌, some, none,
  tabulate, arith, Bool-cases, Bool, not, ◌&&◌, length, List-cases, ap, sym, ◌<◌,
}
use gaia_net.Rpc.Client.{Client, thread_over, on_ack, is_v2}
use gaia_net.Rpc.Flush.{Waited, left_waiting, wait_flush}
use gaia_net.Rpc.Flush.Ends.{Sleeps, Means, wait_flush_lem}
use gaia_net.Channel.{Reconnection, aborts, hangs, gets_new, Renewal-cases, reconnect, attempts_max}
use gaia_net.Channel.Flush.{
  Attempt, Flushed, says, threw, aborted, joining, stuck, rounds_max, flush_loop, flush,
}

-- In every attempt the sleeps take at least as long as they were asked to.
abbrev pub Clocks : List Attempt → Type 0
Clocks [] = Unit {0}
Clocks (a ∷ rest) = Sleeps 10000 a.laps × Clocks rest

-- In some attempt, a wait on the client that the attempts before have left asks for a reconnection, and the client
-- is given up as `P` says.
abbrev pub GivenUp : (Client → Reconnection → Type 0) → List Attempt → Client → Type 0
GivenUp P [] c = ⊥
GivenUp P (a ∷ rest) c =
    (u : Client) × (wait_flush rounds_max 10000 c a.laps ≡ some (false, true, u))
    × (P u a.then_new
        ⊎ ((ok : Bool) × (c' : Client) × (reconnect false u a.then_new ≡ gets_new ok c')
            × GivenUp P rest c'))

-- More acknowledgements come before the join than packets wait.
abbrev pub Surplus : Client → Reconnection → Type 0
Surplus u r = length u.notack_queue < length r.late

-- The thread has not begun.
abbrev pub Unbegun : Client → Reconnection → Type 0
Unbegun u r = r.begun ≡ false

-- A thread that is left waiting has had more acknowledgements than packets.
waiting_surplus :
    (acks : List ℕ) (c : Client) → left_waiting acks c ≡ true → length c.notack_queue < length acks
unfolding on_ack
waiting_surplus [] c h = absurd cc
waiting_surplus (a ∷ acks) c h = elim (List-cases c.notack_queue) [
  | inl e ↦ omega (arith, ap length e)
  | inr (p, rest, e) ↦
      let found : on_ack c a ≡ some (record c { notack_queue = rest }) = rw e refl in
      let fewer =
        waiting_surplus acks (record c { notack_queue = rest })
          (ap (λ o. elim o [ none ↦ true | some c' ↦ left_waiting acks c' ]) (sym found) ∙ h) in
      omega (arith, fewer, ap length e)
]

hangs-Surplus : (u : Client) (r : Reconnection) → reconnect false u r ≡ hangs → Surplus u r
unfolding reconnect
hangs-Surplus u r e = elim (Bool-cases (not r.begun && is_v2 u)) [
  | inl ends ↦ absurd (let g = rw ends at e in cc)
  | inr begins ↦ elim (Bool-cases (left_waiting r.late u)) [
    | inl h ↦ waiting_surplus r.late u h
    | inr h ↦ elim (Bool-cases r.connects) [
      | inl on ↦ absurd (let g = rw (begins, h, on) at e in cc)
      | inr off ↦ absurd (let g = rw (begins, h, off) at e in cc)
    ]
  ]
]

aborts-Unbegun : (u : Client) (r : Reconnection) → reconnect false u r ≡ aborts → Unbegun u r
unfolding reconnect
aborts-Unbegun u r e = elim (Bool-cases r.begun) [
  | inr h ↦ h
  | inl b ↦ elim (Bool-cases (left_waiting r.late u)) [
    | inl h ↦ absurd (let g = rw (b, h) at e in cc)
    | inr h ↦ elim (Bool-cases r.connects) [
      | inl on ↦ absurd (let g = rw (b, h, on) at e in cc)
      | inr off ↦ absurd (let g = rw (b, h, off) at e in cc)
    ]
  ]
]

-- True: the queue is empty, or every attempt has ended in a reconnection, so that more attempts
-- would go on from this client. False: packets wait, and the thread is not over. It hangs only with a surplus of
-- acknowledgements, and ends the program only before a thread has begun.
abbrev pub Settles : List Attempt → Client → Flushed → Type 0
Settles tries c (says true c') =
    (c'.notack_queue ≡ [])
    ⊎ ((more : List Attempt) → flush_loop (tries ++ more) c ≡ flush_loop more c')
Settles tries c (says false c') =
    (c'.notack_queue ≢ []) × (thread_over c'.recv_thread_status ≡ false)
Settles tries c threw = Unit {0}
Settles tries c joining = GivenUp Surplus tries c
Settles tries c aborted = GivenUp Unbegun tries c
Settles tries c stuck = ⊥

Settles-cons :
    (a : Attempt) (rest : List Attempt) (c u c' : Client) (ok : Bool) (r : Flushed)
    → wait_flush rounds_max 10000 c a.laps ≡ some (false, true, u)
    → reconnect false u a.then_new ≡ gets_new ok c'
    → Settles rest c' r
    → Settles (a ∷ rest) c r
unfolding flush_loop
Settles-cons a rest c u c' ok (says true d) e made (inl h) = inl h
Settles-cons a rest c u c' ok (says true d) e made (inr h) = inr (λ more. rw (e, made) (h more))
Settles-cons a rest c u c' ok (says false d) e made h = h
Settles-cons a rest c u c' ok threw e made h = tt
Settles-cons a rest c u c' ok joining e made h = (u, e, inr (ok, c', made, h))
Settles-cons a rest c u c' ok aborted e made h = (u, e, inr (ok, c', made, h))
Settles-cons a rest c u c' ok stuck e made h = h

module _ (a : Attempt) (rest : List Attempt) (c : Client) where
  after_wait :
      (w : Waited)
      → wait_flush 11 10000 c a.laps ≡ some w
      → Means 10000 a.laps w
      → ((c' : Client) → Settles rest c' (flush_loop rest c'))
      → Settles (a ∷ rest) c (flush_loop (a ∷ rest) c)
  unfolding flush_loop
  after_wait (true, again, u) e m next = rw e (inl m.0)
  after_wait (false, false, u) e m next = rw e (m.0, m.1)
  after_wait (false, true, u) e m next = rw e (elim (Renewal-cases (reconnect false u a.then_new)) [
    | inl (inl ends) ↦ rw ends (u, e, inl (aborts-Unbegun u a.then_new ends))
    | inl (inr never) ↦ rw never (u, e, inl (hangs-Surplus u a.then_new never))
    | inr (inl gone) ↦ rw gone tt
    | inr (inr (ok, c', made)) ↦
        rw made (Settles-cons a rest c u c' ok (flush_loop rest c') e made (next c'))
  ])

loop_Settles :
    (tries : List Attempt) (c : Client) → Clocks tries → Settles tries c (flush_loop tries c)
unfolding flush_loop
loop_Settles [] c h = inr (λ more. refl)
loop_Settles (a ∷ rest) c h =
    let (w, e, m) = wait_flush_lem 10 10000 c a.laps h.0 (omega arith) in
    after_wait a rest c w e m (λ c'. loop_Settles rest c' h.1)

Clocks-tabulate :
    (n : ℕ) (f : ℕ → Attempt) → ((i : ℕ) → Sleeps 10000 (f i).laps) → Clocks (tabulate n f)
Clocks-tabulate zero f h = tt
Clocks-tabulate (suc n) f h = (h 0, Clocks-tabulate n (λ i. f (suc i)) (λ i. h (suc i)))

-- When each sleep takes at least as long as it was asked to, `flush` never runs out of rounds. It
-- returns false only when packets still wait and the acknowledging thread is not over; it returns
-- true only when no packet waits, or all 120 attempts have ended in a reconnection and the next
-- would start from the client it leaves; and it hangs in a join only when, after
-- a wait that asks for a reconnection, more acknowledgements come than packets wait, and ends the program only
-- when the thread of the client that is given up there has not begun.
pub flush-Settles :
    (c : Client) (attempt : ℕ → Attempt)
    → ((i : ℕ) → Sleeps 10000 (attempt i).laps)
    → Settles (tabulate attempts_max attempt) c (flush c attempt)
unfolding flush
flush-Settles c attempt h =
    loop_Settles (tabulate attempts_max attempt) c (Clocks-tabulate attempts_max attempt h)

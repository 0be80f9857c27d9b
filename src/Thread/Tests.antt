-- ===== src/Thread/Tests.antt =====
-- Short runs of an event and of a pool.
use gaia_net.Base.{
  ℕ, suc, ◌+◌, ◌≤◌, ◌<◌, ◌≡◌, refl, true, false, List, [], ◌∷◌, ◌++◌, some, none, if◌then◌else◌,
}
use gaia_net.Thread.Event
use gaia_net.Thread.Event.{Event, set, try}
use gaia_net.Thread.Event.Wakes.{automatic_event_lem, manual_event_strands}
use gaia_net.Thread.Runner
use gaia_net.Thread.Runner.{Call, starts, waits, run}
use gaia_net.Thread.Runner.Joined.{paired, starts_in, at, run-create}
use gaia_net.Thread.Pool
use gaia_net.Thread.Pool.{Pool, submit, enqueue, dequeue}
use gaia_net.Thread.Pool.Fifo.{workers, pool_lem}
use gaia_net.Thread.Pool.LostWakeup.{Idle, notification_lost}

-- A thread comes, another raises the event, and the first passes.
met : (e : Event) × Event.Reach (Event.create false false) e
unfolding Event.create set try
met = (
  _,
  Event.next
      (Event.next (Event.next (Event.next Event.here (Event.waits refl)) (Event.sets refl))
        (Event.notifies 0 refl refl))
      (Event.retries 0 refl refl),
)

automatic_event_lem_example :
    (met.0.passed ≤ met.0.raised + 0)
    × (met.0.is_set ≡ true → 0 < met.0.sleepers → 0 < met.0.woken + met.0.notices)
automatic_event_lem_example = automatic_event_lem false met.1

manual_event_strands_example :
    (e : Event) × Event.Reach (Event.create true false) e
    × (e.is_set ≡ true)
    × (e.sleepers ≡ suc 2)
    × (e.woken ≡ 0)
    × (e.notices ≡ 0)
    × (set e ≡ e)
manual_event_strands_example = manual_event_strands 2

abbrev task : ℕ
task = 7

-- A task is submitted and started by one of two workers.
served : (p : Pool ℕ) × Pool.Reach (Pool.create 2) p
unfolding Pool.create submit enqueue dequeue
served = (
  _,
  Pool.next (Pool.next (Pool.next Pool.here (Pool.submits task refl)) (Pool.tests 1 refl refl))
      (Pool.enters 0 refl refl refl),
)

pool_lem_example :
    (served.0.started ++ served.0.queue ≡ served.0.submitted) × (workers served.0 ≡ 2)
pool_lem_example = pool_lem 2 served.1

notification_lost_example :
    ((p : Pool ℕ) × Pool.Reach (Pool.create 1) p × (p.queue ≡ task ∷ []) × Idle p)
    × ((p : Pool ℕ) × Pool.Reach (Pool.create 1) p × (p.shutdown ≡ true) × Idle p)
notification_lost_example = notification_lost task

-- Two threads, one after the other.
abbrev two_threads : List Call
two_threads = starts ∷ waits ∷ waits ∷ starts ∷ waits ∷ []

run-create_example : run two_threads Runner.create ≡ (
    if paired false two_threads
    then some (at false (starts_in two_threads) (starts_in two_threads))
    else none)
run-create_example = run-create two_threads

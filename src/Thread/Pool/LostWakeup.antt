-- ===== src/Thread/Pool/LostWakeup.antt =====
-- A notification that comes between a worker's test and its wait.
use gaia_net.Base.{◌≡◌, refl, true, false, [], ◌∷◌}
use gaia_net.Thread.Pool.{
  Pool, create, submit, dequeue, enqueue, submits, notifies, tests, enters, sleeps, stops,
  notifies_all, Reach, here, next,
}

module _ {ℓ} {T : Type ℓ} where
  -- The worker has passed the test of `m_shutdown`.
  begun : Pool T
  unfolding create
  begun = record (create 1) { looping = 0; entering = 1 }

  begin : Reach (create 1) begun
  unfolding create begun
  begin = next here (tests 0 refl refl)

  -- It holds the mutex, and has found the queue empty.
  tested : Pool T
  unfolding begun
  tested = record begun { entering = 0; about_to_wait = true }

  test : Reach (create 1) tested
  unfolding create begun tested dequeue
  test = next begin (enters 0 refl refl refl)

  submitted : T → Pool T
  unfolding tested
  submitted t = record tested { queue = t ∷ []; submitted = t ∷ []; notices = 1 }

  -- The only worker is asleep, and no call has anything left to do but wait for it.
  pub record Idle (p : Pool T) : Type ℓ where
    pub asleep : p.asleep ≡ 1
    pub none_woken : p.woken ≡ 0
    pub none_looping : p.looping ≡ 0
    pub none_entering : p.entering ≡ 0
    pub none_waits : p.about_to_wait ≡ false
    pub none_running : p.running ≡ 0
    pub none_ended : p.ended ≡ 0
    pub no_notice : p.notices ≡ 0
    pub no_stopping : p.stopping ≡ 0

  -- A pool of one worker, and any task. A submission whose notification comes after the worker has
  -- found the queue empty and before it waits: the task is in the queue, and the worker sleeps. And a shutdown
  -- between the worker's test of the flag and its wait: `notify_all` is over, and the worker, which `shutdown` waits
  -- for, sleeps. In both cases no notification is under way, and no thread has anything to do.
  pub notification_lost :
      (t : T)
      → ((p : Pool T) × Reach (create 1) p × (p.queue ≡ t ∷ []) × Idle p)
        × ((p : Pool T) × Reach (create 1) p × (p.shutdown ≡ true) × Idle p)
  unfolding create begun tested submitted submit enqueue dequeue
  notification_lost t = (
    (
      record (submitted t) { notices = 0; about_to_wait = false; asleep = 1 },
      next (next (next test (submits t refl)) (notifies 0 refl refl)) (sleeps refl refl),
      refl,
      record {
        asleep = refl;
        none_woken = refl;
        none_looping = refl;
        none_entering = refl;
        none_waits = refl;
        none_running = refl;
        none_ended = refl;
        no_notice = refl;
        no_stopping = refl;
      },
    ),
    (
      record tested { shutdown = true; about_to_wait = false; asleep = 1 },
      next
          (next (next (next begin (stops refl refl)) (notifies_all 0 refl refl))
            (enters 0 refl refl refl))
          (sleeps refl refl),
      refl,
      record {
        asleep = refl;
        none_woken = refl;
        none_looping = refl;
        none_entering = refl;
        none_waits = refl;
        none_running = refl;
        none_ended = refl;
        no_notice = refl;
        no_stopping = refl;
      },
    ),
  )

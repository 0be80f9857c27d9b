-- ===== src/Thread/Pool.antt =====
-- `SafeQueue` of src/SafeQueue.h and `ThreadPool` of src/ThreadPool.h, with any number of workers.
pub mod Fifo
pub mod LostWakeup
use gaia_net.Base.{
  ℕ, zero, suc, ◌+◌, Bool, true, false, ◌≡◌, List, [], ◌∷◌, ◌++◌, Option, none, some, if◌then◌else◌,
}

module _ {ℓ} {T : Type ℓ} where
  -- `SafeQueue::enqueue`.
  unfoldable pub enqueue : List T → T → List T
  enqueue q t = q ++ t ∷ []

  -- `SafeQueue::dequeue`: `none` is false.
  unfoldable pub dequeue : List T → Option (T × List T)
  dequeue [] = none
  dequeue (t ∷ q) = some (t, q)

-- The workers are counted by where they are: about to test `m_shutdown` (`looping`); past that test
-- and in need of the mutex (`entering`); holding it after they found the queue empty (`about_to_wait`);
-- in the wait (`asleep`); notified, and in need of the mutex (`woken`); in a task; returned (`ended`).
-- `notices` counts the calls of `submit` that have put a task into the queue and not notified yet, and
-- `stopping` those of `shutdown` that have set the flag and not notified yet.
-- `submitted` and `started` are the tasks that went into the queue and came out of it, oldest first.
pub record Pool {ℓ} (T : Type ℓ) : Type ℓ where
  pub queue : List T
  pub shutdown : Bool
  pub looping : ℕ
  pub entering : ℕ
  pub about_to_wait : Bool
  pub asleep : ℕ
  pub woken : ℕ
  pub running : ℕ
  pub ended : ℕ
  pub notices : ℕ
  pub stopping : ℕ
  pub submitted : List T
  pub started : List T

module _ {ℓ} {T : Type ℓ} where
  -- The constructor and `init`, with `n` threads.
  unfoldable pub create : ℕ → Pool T
  create n = record {
    queue = [];
    shutdown = false;
    looping = n;
    entering = 0;
    about_to_wait = false;
    asleep = 0;
    woken = 0;
    running = 0;
    ended = 0;
    notices = 0;
    stopping = 0;
    submitted = [];
    started = [];
  }

  -- `submit` up to the notification.
  unfoldable pub submit : Pool T → T → Pool T
  submit p t = record p {
    queue = enqueue p.queue t;
    submitted = p.submitted ++ t ∷ [];
    notices = p.notices + 1;
  }

  -- `notify_one`, with the number of sleeping workers.
  abbrev pub notify_one : ℕ → Pool T → Pool T
  notify_one zero p = p
  notify_one (suc n) p = record p { asleep = n; woken = p.woken + 1 }

  -- A worker that has the mutex takes a task if there is one.
  abbrev pub take_task : Option (T × List T) → Pool T → Pool T
  take_task none p = record p { looping = p.looping + 1 }
  take_task (some (t, q)) p = record p {
    queue = q;
    running = p.running + 1;
    started = p.started ++ t ∷ [];
  }

  -- The first test under the mutex.
  abbrev pub enter : Option (T × List T) → Pool T → Pool T
  enter none p = record p { about_to_wait = true }
  enter (some (t, q)) p = take_task (some (t, q)) p

  pub data Step (p q : Pool T) : Type ℓ where
    submits : (t : T) → q ≡ submit p t → Step p q
    notifies :
        (n : ℕ) → p.notices ≡ suc n → q ≡ notify_one p.asleep (record p { notices = n }) → Step p q
    -- `while (!m_pool->m_shutdown)`.
    tests :
        (n : ℕ)
        → p.looping ≡ suc n
        → q ≡ (
            if p.shutdown
            then record p { looping = n; ended = p.ended + 1 }
            else record p { looping = n; entering = p.entering + 1 })
        → Step p q
    enters :
        (n : ℕ)
        → p.about_to_wait ≡ false
        → p.entering ≡ suc n
        → q ≡ enter (dequeue p.queue) (record p { entering = n })
        → Step p q
    -- The wait releases the mutex.
    sleeps :
        p.about_to_wait ≡ true
        → q ≡ record p { about_to_wait = false; asleep = p.asleep + 1 }
        → Step p q
    -- A wait may also return without a notification.
    wakes_up :
        (n : ℕ) → p.asleep ≡ suc n → q ≡ record p { asleep = n; woken = p.woken + 1 } → Step p q
    goes_on :
        (n : ℕ)
        → p.about_to_wait ≡ false
        → p.woken ≡ suc n
        → q ≡ take_task (dequeue p.queue) (record p { woken = n })
        → Step p q
    finishes :
        (n : ℕ)
        → p.running ≡ suc n
        → q ≡ record p { running = n; looping = p.looping + 1 }
        → Step p q
    -- `shutdown`: the flag, under the mutex, and then `notify_all`.
    stops :
        p.about_to_wait ≡ false
        → q ≡ record p { shutdown = true; stopping = p.stopping + 1 }
        → Step p q
    notifies_all :
        (n : ℕ)
        → p.stopping ≡ suc n
        → q ≡ record p { asleep = 0; woken = p.woken + p.asleep; stopping = n }
        → Step p q

  pub data Reach (p : Pool T) : Pool T → Type ℓ where
    here : Reach p p
    next : {q r : Pool T} → Reach p q → Step q r → Reach p r

-- ===== src/Thread/Event.antt =====
-- `CEvent` of src/gaiathread.cpp, with the threads that wait on it. The mutex makes each passage
-- between two waits atomic; `Set` notifies after it has released the mutex, in a step of its own.
pub mod Wakes
use gaia_net.Base.{ℕ, zero, suc, ◌+◌, Bool, true, false, ◌≡◌, Option, none, some, if◌then◌else◌}

-- `sleepers` wait for a notification; `woken` have got one and are to test `m_bSet` again. `passed`
-- counts the returns of `Wait`, and `raised` the calls of `Set` that found the event not set, of which
-- `notices` have not notified yet.
pub record Event : Type 0 where
  pub manual : Bool
  pub is_set : Bool
  pub sleepers : ℕ
  pub woken : ℕ
  pub notices : ℕ
  pub passed : ℕ
  pub raised : ℕ

-- The constructor.
unfoldable pub create : Bool → Bool → Event
create manual_reset initial_set = record {
  manual = manual_reset;
  is_set = initial_set;
  sleepers = 0;
  woken = 0;
  notices = 0;
  passed = 0;
  raised = 0;
}

-- `cv_.notify_one()`.
abbrev pub notify_one : ℕ → Event → Event
notify_one zero e = e
notify_one (suc n) e = record e { sleepers = n; woken = e.woken + 1 }

-- `Set` up to the notification.
unfoldable pub set : Event → Event
set e =
    if e.is_set
    then e
    else record e { is_set = true; raised = e.raised + 1; notices = e.notices + 1 }

-- The test of the predicate in `Wait`, and what follows it: return, or wait for a notification.
unfoldable pub try : Event → Event
try e =
    if e.is_set
    then record e { is_set = if e.manual then true else false; passed = e.passed + 1 }
    else record e { sleepers = e.sleepers + 1 }

-- `Reset`.
unfoldable pub reset : Event → Event
reset e = record e { is_set = false }

-- What the threads do, in any order.
pub data Step (e f : Event) : Type 0 where
  sets : f ≡ set e → Step e f
  -- A call of `Set` notifies.
  notifies :
      (n : ℕ) → e.notices ≡ suc n → f ≡ notify_one e.sleepers (record e { notices = n }) → Step e f
  resets : f ≡ reset e → Step e f
  -- A thread calls `Wait`.
  waits : f ≡ try e → Step e f
  -- A wait may also return without a notification.
  wakes_up :
      (n : ℕ) → e.sleepers ≡ suc n → f ≡ record e { sleepers = n; woken = e.woken + 1 } → Step e f
  -- A thread that has left the wait tests again.
  retries : (n : ℕ) → e.woken ≡ suc n → f ≡ try (record e { woken = n }) → Step e f

pub data Reach (e : Event) : Event → Type 0 where
  here : Reach e e
  next : {f g : Event} → Reach e f → Step f g → Reach e g

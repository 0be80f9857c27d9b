-- ===== src/Thread/Runner.antt =====
-- `CThread` of src/gaiathread.cpp: a flag beside a `std::thread`, used by one owner. Of `std::thread` is
-- taken what the C++ standard says: an assignment to, or the destruction of, one that is joinable ends the
-- program, and so does joining one that is not (an exception that nobody catches).
pub mod Joined
use gaia_net.Base.{
  ℕ, zero, suc, ◌+◌, ◌≡◌, Bool, true, false, List, [], ◌∷◌, Option, none, some, if◌then◌else◌,
}

-- `joinable` is the state of `thread_`; `started` and `ended` count the threads that were created and joined.
pub record CThread : Type 0 where
  pub is_running : Bool
  pub joinable : Bool
  pub started : ℕ
  pub ended : ℕ

-- The constructor.
unfoldable pub create : CThread
create = record { is_running = false; joinable = false; started = 0; ended = 0 }

-- `Start`; `none` where the program ends.
unfoldable pub start : CThread → Option CThread
start t =
    if t.joinable
    then none
    else some (record t { is_running = true; joinable = true; started = t.started + 1 })

-- `Wait`.
unfoldable pub wait : CThread → Option CThread
wait t =
    if t.is_running
    then (if t.joinable
        then some (record t { is_running = false; joinable = false; ended = t.ended + 1 })
        else none)
    else some t

-- The destructor, with its assertion, and then that of `thread_`.
unfoldable pub destroy : CThread → Option CThread
destroy t = if t.is_running then none else if t.joinable then none else some t

-- What the owner calls.
pub data Call : Type 0 where
  starts : Call
  waits : Call

abbrev pub step : Call → CThread → Option CThread
step starts t = start t
step waits t = wait t

abbrev pub run : List Call → CThread → Option CThread
run [] t = destroy t
run (c ∷ cs) t = elim (step c t) [ none ↦ none | some t' ↦ run cs t' ]

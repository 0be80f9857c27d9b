-- ===== src/Mem/FileLock.antt =====
-- The locks on files that processes take by name: `get_file_lock` and `free_file_lock` of
-- src/memchannel.cpp, for one name, with any number of processes and of threads in them. Opening and
-- closing the lock file is taken to succeed.
pub mod Alone
pub mod Shared
mod Tests
use gaia_net.Base.{
  ℕ, ◌+◌, ◌==◌, ◌≡◌, ◌≢◌, ◌⊎◌, Bool, true, false, List, [], ◌∷◌, ◌++◌, Option, none, some,
  if◌then◌else◌,
}

-- The record lock of one file, as POSIX describes it: it belongs to a process; a process that does not
-- have it waits while another one does; and it goes when the process closes any descriptor of
-- the file.
pub record RecordLocks : Type 1 where
  pub Lock : Type 0
  pub unlocked : Lock
  pub owner : Lock → Option ℕ
  -- `fcntl` with F_SETLKW; `none`: it waits.
  pub set_lock : Lock → ℕ → Option Lock
  pub close_file : Lock → ℕ → Lock
  pub nobody : owner unlocked ≡ none
  pub grants :
      (l : Lock) (p : ℕ)
      → (owner l ≡ none) ⊎ (owner l ≡ some p)
      → (l' : Lock) × (set_lock l p ≡ some l')
  pub granted :
      (l l' : Lock) (p : ℕ)
      → set_lock l p ≡ some l'
      → (owner l' ≡ some p) × ((owner l ≡ none) ⊎ (owner l ≡ some p))
  pub closed_own : (l : Lock) (p : ℕ) → owner l ≡ some p → owner (close_file l p) ≡ none
  pub closed_other : (l : Lock) (p : ℕ) → owner l ≢ some p → owner (close_file l p) ≡ owner l

-- Where a thread is: in `fcntl`; in `get_key_lock`; between the two functions; past `free_key_lock`.
pub data Place : Type 0 where
  asks : Place
  queued : Place
  holds : Place
  closes : Place

pub record User : Type 0 where
  pub process : ℕ
  pub place : Place

abbrev pub holding : Place → ℕ
holding asks = 0
holding queued = 0
holding holds = 1
holding closes = 0

abbrev pub bit : Bool → ℕ
bit true = 1
bit false = 0

-- How many threads of a process are there, how many of them hold its key lock, and how many hold one.
abbrev pub present : ℕ → List User → ℕ
present p [] = 0
present p (u ∷ us) = bit (u.process == p) + present p us

abbrev pub holders_of : ℕ → List User → ℕ
holders_of p [] = 0
holders_of p (u ∷ us) = (if u.process == p then holding u.place else 0) + holders_of p us

abbrev pub holders : List User → ℕ
holders [] = 0
holders (u ∷ us) = holding u.place + holders us

module _ (r : RecordLocks) where
  pub record State : Type 0 where
    pub lock : r.Lock
    pub users : List User

  -- The key lock of a process lets one thread in at a time; other processes have others.
  abbrev pub enter : ℕ → State → List User → User → List User → Option State
  enter n s before u after =
      if n == 0
      then some (record s { users = before ++ record u { place = holds } ∷ after })
      else none

  abbrev pub ask : Option r.Lock → State → List User → User → List User → Option State
  ask none s before u after = none
  ask (some l) s before u after =
      some (record { lock = l; users = before ++ record u { place = queued } ∷ after })

  abbrev pub act : Place → State → List User → User → List User → Option State
  act asks s before u after = ask (r.set_lock s.lock u.process) s before u after
  act queued s before u after = enter (holders_of u.process s.users) s before u after
  act holds s before u after =
      some (record s { users = before ++ record u { place = closes } ∷ after })
  act closes s before u after =
      some (record { lock = r.close_file s.lock u.process; users = before ++ after })

  -- The next action of `u`; `none`: it waits.
  unfoldable pub turn : State → List User → User → List User → Option State
  turn s before u after = act u.place s before u after

  -- What processes do, where `may p us` says whether another thread of `p` may call `get_file_lock`.
  pub data Step (may : ℕ → List User → Type 0) (s : State) : State → Type 0 where
    opens :
        (p : ℕ)
        → may p s.users
        → Step may s (record s { users = record { process = p; place = asks } ∷ s.users })
    moves :
        (before : List User) (u : User) (after : List User) {s' : State}
        → s.users ≡ before ++ u ∷ after
        → turn s before u after ≡ some s'
        → Step may s s'

  pub data Reach (may : ℕ → List User → Type 0) (s : State) : State → Type 0 where
    here : Reach may s s
    next : {t t' : State} → Reach may s t → Step may t t' → Reach may s t'

  -- Before any call.
  abbrev pub idle : State
  idle = record { lock = r.unlocked; users = [] }

-- Threads without restriction, and at most one thread in each process at a time.
abbrev pub Anyone : ℕ → List User → Type 0
Anyone p us = Unit {0}

abbrev pub OneEach : ℕ → List User → Type 0
OneEach p us = present p us ≡ 0

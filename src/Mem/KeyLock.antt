-- ===== src/Mem/KeyLock.antt =====
-- The locks that the threads of one process take by name: `get_key_lock` and `free_key_lock` of
-- src/memchannel.cpp, with their map of counted mutexes.
mod Inv
mod Moves
pub mod Exclusive
mod Tests
use gaia_net.Base.{
  ℕ, zero, suc, ◌+◌, ◌-◌, ◌==◌, ◌≡◌, Bool, true, false, List, [], ◌∷◌, ◌++◌, Option, none, some,
  if◌then◌else◌,
}
use gaia_net.Base.Bytes.{same_bytes}

-- A pair of the map: the number of users and the mutex. `node` tells a pair from another one that is made
-- later under the same key.
pub record Entry : Type 0 where
  pub node : ℕ
  pub first : ℕ
  pub locked : Bool

-- Where a thread is: about to lock or asleep in `lock` of the pair's mutex; between the two functions;
-- in `free_key_lock`, past the unlock.
pub data Place : Type 0 where
  waits : Place
  holds : Place
  leaves : Place

-- A thread with a reference to a pair, or with a key that it has locked.
pub record User : Type 0 where
  pub key : List ℕ
  pub node : ℕ
  pub place : Place

-- `busy`: `s_key_lock_global_mtx` is locked, by a thread that leaves.
pub record Table : Type 0 where
  pub map : List ℕ → Option Entry
  pub fresh : ℕ
  pub users : List User
  pub busy : Bool

abbrev pub update : List ℕ → Option Entry → (List ℕ → Option Entry) → List ℕ → Option Entry
update key o map k = if same_bytes k key then o else map k

-- `get_key_lock` up to `lg.unlock()`: `operator[]` makes the pair if there is none.
abbrev pub on_pair : Option Entry → Table → List ℕ → Table
on_pair none t key = record t {
  map = update key (some (record { node = t.fresh; first = 1; locked = false })) t.map;
  fresh = t.fresh + 1;
  users = record { key = key; node = t.fresh; place = Place.waits } ∷ t.users;
}
on_pair (some e) t key = record t {
  map = update key (some (record e { first = e.first + 1 })) t.map;
  users = record { key = key; node = e.node; place = Place.waits } ∷ t.users;
}

unfoldable pub get_key_lock : Table → List ℕ → Table
get_key_lock t key = on_pair (t.map key) t key

-- What comes of the next action of a thread: it has to wait, it uses a pair that is gone or finds none,
-- or it goes on.
pub data Turn : Type 0 where
  blocked : Turn
  broken : Turn
  goes : Table → Turn

-- `pair.second.lock()`, through the reference.
abbrev pub lock : Option Entry → Table → List User → User → List User → Turn
lock none t before u after = broken
lock (some e) t before u after =
    if e.node == u.node
    then (if e.locked
        then blocked
        else goes (record t {
          map = update u.key (some (record e { locked = true })) t.map;
          users = before ++ record u { place = Place.holds } ∷ after;
        }))
    else broken

-- `free_key_lock` up to `pair.second.unlock()`.
abbrev pub unlock : Option Entry → Table → List User → User → List User → Turn
unlock none t before u after = if t.busy then blocked else broken
unlock (some e) t before u after =
    if t.busy
    then blocked
    else goes (record t {
      map = update u.key (some (record e { locked = false })) t.map;
      users = before ++ record u { place = Place.leaves } ∷ after;
      busy = true;
    })

-- The rest of `free_key_lock`.
abbrev pub drop : Option Entry → Table → List User → User → List User → Turn
drop none t before u after = broken
drop (some e) t before u after = goes (record t {
  map =
      update u.key (if e.first - 1 == 0 then none else some (record e { first = e.first - 1 }))
        t.map;
  users = before ++ after;
  busy = false;
})

-- The next action of `u`, between the other users.
abbrev pub act : Place → Table → List User → User → List User → Turn
act Place.waits t before u after = lock (t.map u.key) t before u after
act Place.holds t before u after = unlock (t.map u.key) t before u after
act Place.leaves t before u after = drop (t.map u.key) t before u after

unfoldable pub turn : Table → List User → User → List User → Turn
turn t before u after = act u.place t before u after

pub data Step (t : Table) : Table → Type 0 where
  enters : (key : List ℕ) → t.busy ≡ false → Step t (get_key_lock t key)
  moves :
      (before : List User) (u : User) (after : List User) {t' : Table}
      → t.users ≡ before ++ u ∷ after
      → turn t before u after ≡ goes t'
      → Step t t'

pub data Reach (t : Table) : Table → Type 0 where
  here : Reach t t
  next : {t' t'' : Table} → Reach t t' → Step t' t'' → Reach t t''

-- Before any call.
abbrev pub idle : Table
idle = record { map = λ key. none; fresh = 0; users = []; busy = false }

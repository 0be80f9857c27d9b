-- ===== src/Mem/KeyLock/Tests.antt =====
-- Two threads that want one lock.
use gaia_net.Base.{All, ℕ, ◌≤◌, ◌≡◌, ◌≢◌, ◌↔◌, ◌⊎◌, refl, List, [], ◌∷◌, ◌++◌, none}
use gaia_net.Base.Bytes.{same_bytes}
use gaia_net.Mem.KeyLock.{
  Place, User, Table, get_key_lock, broken, goes, turn, enters, moves, Reach, here, next, idle,
}
use gaia_net.Mem.KeyLock.Inv.{total, held, uses}
use gaia_net.Mem.KeyLock.Exclusive.{turns, key_lock_lem, key_lock_progress}

-- The first thread has the lock, and the second waits for it.
contended :
    (t : Table) × Reach idle t
    × (t.users
        ≡ record { key = 7 ∷ []; node = 0; place = Place.waits }
          ∷ record { key = 7 ∷ []; node = 0; place = Place.holds }
          ∷ [])
unfolding get_key_lock turn same_bytes
contended = (
  _,
  next (next (next here (enters (7 ∷ []) refl)) (moves [] _ [] refl refl)) (enters (7 ∷ []) refl),
  refl,
)

key_lock_lem_example :
    ((key : List ℕ) → total (held key) contended.0.users ≤ 1)
    × ((key : List ℕ) → (contended.0.map key ≡ none) ↔ (total (uses key) contended.0.users ≡ 0))
    × All (λ x. x ≢ broken) (turns contended.0 [] contended.0.users)
key_lock_lem_example = key_lock_lem contended.1

key_lock_progress_example :
    (contended.0.users ≡ [])
    ⊎ ((before : List User) × (u : User) × (after : List User) × (t' : Table) × (contended.0.users
          ≡ before ++ u ∷ after)
        × (turn contended.0 before u after ≡ goes t'))
key_lock_progress_example = key_lock_progress contended.1

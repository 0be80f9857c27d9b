-- ===== src/Mem/FileLock/Shared.antt =====
-- How two processes come to hold the lock of one name.
use gaia_net.Base.{
  ℕ, ◌==◌, ◌≡◌, ◌≢◌, refl, ap, ◌∙◌, inl, inr, List, [], ◌∷◌, some, Bool-cases, ==_iff,
}
use gaia_net.Mem.FileLock.{
  RecordLocks, Place, asks, queued, holds, closes, User, State, turn, Step, opens, moves, Reach,
  here, next, idle, Anyone, holders_of, ask, enter, act,
}

abbrev pub at : ℕ → Place → User
at p place = record { process = p; place = place }

module _ (r : RecordLocks) where
  -- The record lock lets a process in.
  let_in :
      (s : State r) (u : User) (after : List User) (l : r.Lock)
      → s.users ≡ u ∷ after
      → u.place ≡ asks
      → r.set_lock s.lock u.process ≡ some l
      → Step r Anyone s (record { lock = l; users = at u.process queued ∷ after })
  unfolding turn
  let_in s u after l split place h =
      moves [] u after split
        (ap (λ x. act r x s [] u after) place ∙ ap (λ o. ask r o s [] u after) h)

  -- The key lock lets a thread in.
  key_free :
      (l : r.Lock) (p : ℕ) (after : List User)
      → holders_of p (at p queued ∷ after) ≡ 0
      → Step r Anyone
          (record { lock = l; users = at p queued ∷ after })
          (record { lock = l; users = at p holds ∷ after })
  unfolding turn
  key_free l p after h = moves [] (at p queued) after refl (
      ap (λ n. enter r n (record { lock = l; users = at p queued ∷ after }) [] (at p queued) after)
        h)

  free_key :
      (l : r.Lock) (p : ℕ) (u : User)
      → Step r Anyone
          (record { lock = l; users = u ∷ at p holds ∷ [] })
          (record { lock = l; users = u ∷ at p closes ∷ [] })
  unfolding turn
  free_key l p u = moves (u ∷ []) (at p holds) [] refl refl

  close_file :
      (l : r.Lock) (p : ℕ) (u : User)
      → Step r Anyone
          (record { lock = l; users = u ∷ at p closes ∷ [] })
          (record { lock = r.close_file l p; users = u ∷ [] })
  unfolding turn
  close_file l p u = moves (u ∷ []) (at p closes) [] refl refl

no_holder : (p : ℕ) → holders_of p (at p queued ∷ []) ≡ 0
no_holder p = rw ((==_iff p p).1 refl) refl

other_holder : (p q : ℕ) → p ≢ q → holders_of q (at q queued ∷ at p holds ∷ []) ≡ 0
other_holder p q apart = elim (Bool-cases (p == q)) [
  | inl e ↦ absurd (apart ((==_iff p q).0 e))
  | inr e ↦ rw ((==_iff q q).1 refl, e) refl
]

-- Two threads of one process and one of another call `get_file_lock`. The first thread gets both locks and
-- frees them; by then the second one has been let in by the record lock, which belongs to their process,
-- and waits for the key lock, which it gets; but the record lock went with the descriptor that the
-- first one closed. So the other process gets its locks as well: threads of two different processes
-- hold the lock of the name at once.
pub file_lock_shared :
    (r : RecordLocks) (p q : ℕ)
    → p ≢ q
    → (l : r.Lock) × Reach r Anyone
        (idle r)
        (record { lock = l; users = at q holds ∷ at p holds ∷ [] })
file_lock_shared r p q apart =
    let (l1, first) = r.grants r.unlocked p (inl r.nobody) in
    let mine = (r.granted r.unlocked l1 p first).0 in
    let (l2, second) = r.grants l1 p (inr mine) in
    let mine2 = (r.granted l1 l2 p second).0 in
    let l3 = r.close_file l2 p in
    let (l4, third) = r.grants l3 q (inl (r.closed_own l2 p mine2)) in
    let entered : Reach r Anyone (idle r) (record { lock = l1; users = at p holds ∷ [] }) =
      next (next (next here (opens p tt)) (let_in r _ (at p asks) [] l1 refl refl first))
        (key_free r l1 p [] (no_holder p)) in
    let waiting : Reach r Anyone (idle r)
        (record { lock = l2; users = at p queued ∷ at p holds ∷ [] }) =
      next (next entered (opens p tt))
        (let_in r _ (at p asks) (at p holds ∷ []) l2 refl refl second) in
    let freed : Reach r Anyone (idle r) (record { lock = l3; users = at p holds ∷ [] }) =
      next (next (next waiting (free_key r l2 p (at p queued))) (close_file r l2 p (at p queued)))
        (key_free r l3 p [] (no_holder p)) in
    (
      l4,
      next
          (next (next freed (opens q tt))
            (let_in r _ (at q asks) (at p holds ∷ []) l4 refl refl third))
          (key_free r l4 q (at p holds ∷ []) (other_holder p q apart)),
    )

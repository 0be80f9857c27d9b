-- ===== src/Mem/FileLock/Tests.antt =====
-- A record lock that is its owner, and the processes 1 and 2.
use gaia_net.Base.{
  ℕ, ◌≤◌, ◌==◌, ◌≡◌, ◌≢◌, refl, ap, sym, ◌∙◌, ◌⊎◌, inl, inr, [], ◌∷◌, Option, none, some,
  if◌then◌else◌, Bool-cases, ==_iff, arith,
}
use gaia_net.Mem.FileLock.{
  RecordLocks, asks, queued, holds, State, turn, opens, moves, Reach, here, next, idle, Anyone,
  OneEach, holders,
}
use gaia_net.Mem.FileLock.Alone.{file_lock_lem}
use gaia_net.Mem.FileLock.Shared.{at, file_lock_shared}

abbrev given_to : Option ℕ → ℕ → Option (Option ℕ)
given_to none p = some (some p)
given_to (some q) p = if q == p then some (some p) else none

abbrev taken_from : Option ℕ → ℕ → Option ℕ
taken_from none p = none
taken_from (some q) p = if q == p then none else some q

given_when_free :
    (l : Option ℕ) (p : ℕ) → (l ≡ none) ⊎ (l ≡ some p) → (l' : Option ℕ) × (given_to l p ≡ some l')
given_when_free none p h = (some p, refl)
given_when_free (some q) p (inl e) = absurd (let f = e in cc)
given_when_free (some q) p (inr e) =
    let same : q ≡ p = (let f = e in cc) in
    (some p, ap (λ b. if b then some (some p) else none) ((==_iff q p).1 same))

given_if_free :
    (l l' : Option ℕ) (p : ℕ) → given_to l p ≡ some l' → (l' ≡ some p) × ((l ≡ none) ⊎ (l ≡ some p))
given_if_free none l' p h = let e : some p ≡ l' = cc in (sym e, inl refl)
given_if_free (some q) l' p h = elim (Bool-cases (q == p)) [
  | inl e ↦
      let taken : some (some p) ≡ some l' = rw e at h in
      let same : some p ≡ l' = cc in (sym same, inr (ap some ((==_iff q p).0 e)))
  | inr e ↦ absurd (let refused : none ≡ some l' = rw e at h in cc)
]

taken_own : (l : Option ℕ) (p : ℕ) → l ≡ some p → taken_from l p ≡ none
taken_own l p h =
    ap (λ o. taken_from o p) h ∙ ap (λ b. if b then none else some p) ((==_iff p p).1 refl)

taken_other : (l : Option ℕ) (p : ℕ) → l ≢ some p → taken_from l p ≡ l
taken_other none p h = refl
taken_other (some q) p h = elim (Bool-cases (q == p)) [
  | inl e ↦ absurd (h (ap some ((==_iff q p).0 e)))
  | inr e ↦ rw e refl
]

abbrev owners : RecordLocks
owners = record {
  Lock = Option ℕ;
  unlocked = none;
  owner = λ l. l;
  set_lock = given_to;
  close_file = taken_from;
  nobody = refl;
  grants = given_when_free;
  granted = given_if_free;
  closed_own = taken_own;
  closed_other = taken_other;
}

file_lock_shared_example :
    (l : Option ℕ) × Reach owners Anyone
      (idle owners)
      (record { lock = l; users = at 2 holds ∷ at 1 holds ∷ [] })
file_lock_shared_example = file_lock_shared owners 1 2 (λ e. (let f = e in omega arith))

-- Process 1 holds the lock, and process 2 asks for it.
abbrev contended : State owners
contended = record { lock = some 1; users = at 2 asks ∷ at 1 holds ∷ [] }

contended-Reach : Reach owners OneEach (idle owners) contended
unfolding turn
contended-Reach =
    next
      (next (next (next here (opens 1 refl)) (moves [] (at 1 asks) [] refl refl))
        (moves [] (at 1 queued) [] refl refl))
      (opens 2 refl)

file_lock_lem_example : holders contended.users ≤ 1
file_lock_lem_example = file_lock_lem owners contended-Reach

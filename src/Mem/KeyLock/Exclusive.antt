-- ===== src/Mem/KeyLock/Exclusive.antt =====
-- Why two threads of a process never hold the lock of one name, no pair is used after it is erased, and
-- somebody can always go on.
use gaia_net.Base.{
  All, append_assoc, ℕ, ◌≤◌, ◌==◌, ◌≡◌, ◌≢◌, ◌↔◌, refl, sym, ap, subst, ◌∙◌, Bool, true, false,
  List, [], ◌∷◌, ◌++◌, Option, none, some, ◌⊎◌, inl, inr, Bool-cases, arith, ==_iff,
}
use gaia_net.Base.Bytes.{same_bytes}
use gaia_net.Mem.KeyLock.{
  Turn, Entry, Place, User, Table, update, broken, goes, turn, drop, Step, enters, moves, Reach,
  here, next, idle,
}
use gaia_net.Mem.KeyLock.Inv.{
  bit, total, holding, leaving, uses, held, left, Counts, Inv, get_key_lock-Inv, bit_le,
}
use gaia_net.Mem.KeyLock.Moves.{found, Sound, turn-Sound}

idle-Inv : Inv idle
idle-Inv = record { counts = λ key. (refl, refl); refers = tt; alone = refl }

sound :
    (t : Table) (before : List User) (u : User) (after : List User) (v : Inv t)
    (split : t.users ≡ before ++ u ∷ after) {t' : Table}
    → turn t before u after ≡ goes t'
    → Inv t'
sound t before u after v split h =
    subst (Sound t before u after split v) h (turn-Sound t before u after split v)

Step-Inv : {t t' : Table} → Inv t → Step t t' → Inv t'
Step-Inv {t} v (enters key free) = get_key_lock-Inv t key free v
Step-Inv {t} v (moves before u after split h) = sound t before u after v split h

Reach-Inv : {t : Table} → Reach idle t → Inv t
Reach-Inv here = idle-Inv
Reach-Inv (next r s) = Step-Inv (Reach-Inv r) s

held_once : (o : Option Entry) (users holders : ℕ) → Counts o users holders → holders ≤ 1
held_once none users holders h = omega (arith, h.1)
held_once (some e) users holders h = omega (arith, h.2, bit_le e.locked)

erased : (o : Option Entry) (users holders : ℕ) → Counts o users holders → (o ≡ none) ↔ (users ≡ 0)
erased none users holders h = (λ _. h.0, λ _. refl)
erased (some e) users holders h =
    (λ eq. absurd (let w = eq in cc), λ z. absurd (omega (arith, h.1, z)))

-- The next action of every user.
abbrev pub turns : Table → List User → List User → List Turn
turns t before [] = []
turns t before (u ∷ after) = turn t before u after ∷ turns t (before ++ u ∷ []) after

turns_lem :
    (t : Table) (v : Inv t) (before after : List User)
    → t.users ≡ before ++ after
    → All (λ x. x ≢ broken) (turns t before after)
turns_lem t v before [] split = tt
turns_lem t v before (u ∷ after) split = (
  λ h. subst (Sound t before u after split v) h (turn-Sound t before u after split v),
  turns_lem t v (before ++ u ∷ []) after (split ∙ sym (append_assoc before (u ∷ []) after)),
)

-- After any calls of `get_key_lock` and `free_key_lock` by any threads, between which they interleave
-- at the locking and unlocking of the mutexes: at most one thread holds the lock of a key; a pair is
-- in the map exactly while threads use its key; and no thread is about to lock a mutex that was
-- erased, or to miss the pair that it frees.
pub key_lock_lem :
    {t : Table}
    → Reach idle t
    → ((key : List ℕ) → total (held key) t.users ≤ 1)
      × ((key : List ℕ) → (t.map key ≡ none) ↔ (total (uses key) t.users ≡ 0))
      × All (λ x. x ≢ broken) (turns t [] t.users)
key_lock_lem {t} r =
    let v = Reach-Inv r in
    (
      λ key. held_once (t.map key) (total (uses key) t.users) _ (v.counts key),
      λ key. erased (t.map key) _ (total (held key) t.users) (v.counts key),
      turns_lem t v [] t.users refl,
    )

-- A user that counts for `f`, or none.
search_user :
    (f : User → ℕ) (us : List User)
    → (total f us ≡ 0)
      ⊎ ((before : List User) × (u : User) × (after : List User) × (us ≡ before ++ u ∷ after)
          × (f u ≢ 0))
search_user f [] = inl refl
search_user f (x ∷ xs) = elim (Bool-cases (f x == 0)) [
  | inl z ↦ elim (search_user f xs) [
    | inl rest ↦ let e : f x ≡ 0 = (==_iff _ _).0 z in inl (omega (arith, e, rest))
    | inr (before, u, after, split, h) ↦ inr (x ∷ before, u, after, ap (◌∷◌ x) split, h)
  ]
  | inr z ↦ inr ([], x, xs, refl, λ e. (let y : (f x == 0) ≡ true = (==_iff _ _).1 e in cc))
]

abbrev Progress : Table → Type 0
Progress t =
    (before : List User) × (u : User) × (after : List User) × (t' : Table) × (t.users
      ≡ before ++ u ∷ after)
    × (turn t before u after ≡ goes t')

waits_of : (p : Place) → leaving p ≡ 0 → holding p ≡ 0 → p ≡ Place.waits
waits_of Place.waits h k = refl
waits_of Place.holds h k = absurd (omega arith)
waits_of Place.leaves h k = absurd (omega arith)

leaves_of : (p : Place) → leaving p ≢ 0 → p ≡ Place.leaves
leaves_of Place.waits h = absurd (h refl)
leaves_of Place.holds h = absurd (h refl)
leaves_of Place.leaves h = refl

holds_of : (p : Place) → holding p ≢ 0 → p ≡ Place.holds
holds_of Place.waits h = absurd (h refl)
holds_of Place.holds h = refl
holds_of Place.leaves h = absurd (h refl)

held-holding : (k : List ℕ) (us : List User) → total (held k) us ≤ total (λ u. holding u.place) us
held-holding k [] = omega arith
held-holding k (x ∷ xs) = elim (Bool-cases (same_bytes x.key k)) [
  | inl e ↦ rw e (omega (arith, held-holding k xs))
  | inr e ↦ rw e (omega (arith, held-holding k xs))
]

bit_zero : (b : Bool) → bit b ≡ 0 → b ≡ false
bit_zero true h = absurd (omega arith)
bit_zero false h = refl

module _ (t : Table) (before : List User) (u : User) (after : List User) (e : Entry) where
  turn-leaves :
      u.place ≡ Place.leaves
      → t.map u.key ≡ some e
      → turn t before u after ≡ drop (some e) t before u after
  unfolding turn
  turn-leaves at at_key = rw (at, at_key) refl

  turn-holds :
      u.place ≡ Place.holds
      → t.map u.key ≡ some e
      → t.busy ≡ false
      → turn t before u after
        ≡ goes (record t {
          map = update u.key (some (record e { locked = false })) t.map;
          users = before ++ record u { place = Place.leaves } ∷ after;
          busy = true;
        })
  unfolding turn
  turn-holds at at_key free = rw (at, at_key, free) refl

  turn-waits :
      u.place ≡ Place.waits
      → t.map u.key ≡ some e
      → e.node ≡ u.node
      → e.locked ≡ false
      → turn t before u after
        ≡ goes (record t {
          map = update u.key (some (record e { locked = true })) t.map;
          users = before ++ record u { place = Place.holds } ∷ after;
        })
  unfolding turn
  turn-waits at at_key node off = rw (at, at_key, (==_iff _ _).1 node, off) refl

module _ (t : Table) (v : Inv t) (before : List User) (u : User) (after : List User)
    (split : t.users ≡ before ++ u ∷ after) where
  leaver_goes : u.place ≡ Place.leaves → Progress t
  leaver_goes at =
      let (e, at_key, same, users, holders) = found t before u after split v in
      (before, u, after, _, split, turn-leaves t before u after e at at_key)

  holder_goes : u.place ≡ Place.holds → t.busy ≡ false → Progress t
  holder_goes at free =
      let (e, at_key, same, users, holders) = found t before u after split v in
      (before, u, after, _, split, turn-holds t before u after e at at_key free)

  waiter_goes : u.place ≡ Place.waits → total (held u.key) t.users ≡ 0 → Progress t
  waiter_goes at none_holds =
      let (e, at_key, node, users, holders) = found t before u after split v in
      let open_lock : e.locked ≡ false = bit_zero e.locked (
        sym
          (subst (λ o. Counts o (total (uses u.key) t.users) (total (held u.key) t.users)) at_key
            (v.counts u.key)).2
        ∙ none_holds) in
      (before, u, after, _, split, turn-waits t before u after e at at_key node open_lock)

somebody : (t : Table) (v : Inv t) (us : List User) → t.users ≡ us → (us ≡ []) ⊎ Progress t
somebody t v [] eq = inl refl
somebody t v (x ∷ xs) eq = inr (elim (search_user left t.users) [
  | inr (before, u, after, split, h) ↦ leaver_goes t v before u after split (leaves_of u.place h)
  | inl no_left ↦ elim (search_user (λ u. holding u.place) t.users) [
    | inr (before, u, after, split, h) ↦
        holder_goes t v before u after split (holds_of u.place h)
          (bit_zero t.busy (sym v.alone ∙ no_left))
    | inl no_held ↦
        let l : total left t.users ≡ total left (x ∷ xs) = ap (total left) eq in
        let h : total (λ u. holding u.place) t.users ≡ total (λ u. holding u.place) (x ∷ xs) =
          ap (total (λ u. holding u.place)) eq in
        waiter_goes t v [] x xs eq
          (waits_of x.place (omega (arith, l, no_left)) (omega (arith, h, no_held)))
          (omega (arith, held-holding x.key t.users, no_held))
  ]
])

-- After any calls of `get_key_lock` and `free_key_lock`: unless no thread uses a lock, the next action of
-- one of the users, to lock a mutex, to unlock it or to finish its call, can be made at once.
pub key_lock_progress :
    {t : Table}
    → Reach idle t
    → (t.users ≡ [])
      ⊎ ((before : List User) × (u : User) × (after : List User) × (t' : Table) × (t.users
            ≡ before ++ u ∷ after)
          × (turn t before u after ≡ goes t'))
key_lock_progress {t} r = somebody t (Reach-Inv r) t.users refl

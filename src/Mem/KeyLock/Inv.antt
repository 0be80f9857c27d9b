-- ===== src/Mem/KeyLock/Inv.antt =====
-- What the users of the locks of one process and their map of counted mutexes keep.
use gaia_net.Base.{
  All, All-map, ℕ, ◌+◌, ◌≤◌, ◌<◌, ◌≡◌, refl, sym, ap, subst, ◌∙◌, Bool, true, false, List, [], ◌∷◌,
  ◌++◌, Option, none, some, inl, inr, Bool-cases, Option-cases, if◌then◌else◌, arith,
}
use gaia_net.Base.Bytes.{same_bytes, same_bytes_self, same_bytes→eq}
use gaia_net.Mem.KeyLock.{Entry, Place, User, Table, update, get_key_lock}

abbrev pub bit : Bool → ℕ
bit true = 1
bit false = 0

-- The sum of `f` over the users.
abbrev pub total : (User → ℕ) → List User → ℕ
total f [] = 0
total f (u ∷ us) = f u + total f us

pub total-append : (f : User → ℕ) (xs ys : List User) → total f (xs ++ ys) ≡ total f xs + total f ys
total-append f [] ys = omega arith
total-append f (u ∷ us) ys = omega (arith, total-append f us ys)

abbrev pub holding : Place → ℕ
holding Place.waits = 0
holding Place.holds = 1
holding Place.leaves = 0

abbrev pub leaving : Place → ℕ
leaving Place.waits = 0
leaving Place.holds = 0
leaving Place.leaves = 1

-- Who uses `key`, and who holds its lock.
abbrev pub uses : List ℕ → User → ℕ
uses key u = bit (same_bytes u.key key)

abbrev pub held : List ℕ → User → ℕ
held key u = if same_bytes u.key key then holding u.place else 0

abbrev pub left : User → ℕ
left u = leaving u.place

-- A pair counts the users of its key, and is locked while one of them holds the lock.
abbrev pub Counts : Option Entry → ℕ → ℕ → Type 0
Counts none users holders = (users ≡ 0) × (holders ≡ 0)
Counts (some e) users holders = (users ≡ e.first) × (0 < users) × (holders ≡ bit e.locked)

-- The pair that a user refers to is the one in the map.
abbrev pub Refers : (List ℕ → Option Entry) → User → Type 0
Refers map u = (e : Entry) × (map u.key ≡ some e) × (e.node ≡ u.node)

pub record Inv (t : Table) : Type 0 where
  pub counts :
      (key : List ℕ) → Counts (t.map key) (total (uses key) t.users) (total (held key) t.users)
  pub refers : All (Refers t.map) t.users
  pub alone : total left t.users ≡ bit t.busy

-- Without users of the key.
pub All-unused :
    (P Q : User → Type 0) (key : List ℕ) (xs : List User)
    → total (uses key) xs ≡ 0
    → ((u : User) → same_bytes u.key key ≡ false → P u → Q u)
    → All P xs
    → All Q xs
All-unused P Q key [] none_here f h = tt
All-unused P Q key (x ∷ xs) none_here f h = elim (Bool-cases (same_bytes x.key key)) [
  | inl e ↦ absurd (ground (arith, none_here, e))
  | inr e ↦ (f x e h.0, All-unused P Q key xs (ground (arith, none_here, e)) f h.1)
]

-- A pair that keeps its node may change.
pub Refers-update :
    (map : List ℕ → Option Entry) (key : List ℕ) (e e' : Entry) (u : User)
    → map key ≡ some e
    → e'.node ≡ e.node
    → Refers map u
    → Refers (update key (some e') map) u
Refers-update map key e e' u at_key same (f, found, node) =
    elim (Bool-cases (same_bytes u.key key)) [
      | inl eq ↦
          let one : some e ≡ some f =
            sym at_key ∙ ap map (sym (same_bytes→eq u.key key eq)) ∙ found in
          let both : e ≡ f = cc in (e', rw eq refl, same ∙ ap (λ x. x.node) both ∙ node)
      | inr ne ↦ (f, rw ne found, node)
    ]

pub Refers-other :
    (map : List ℕ → Option Entry) (key : List ℕ) (o : Option Entry) (u : User)
    → same_bytes u.key key ≡ false
    → Refers map u
    → Refers (update key o map) u
Refers-other map key o u ne (f, found, node) = (f, rw ne found, node)

-- The counts after a change of one pair and of the users.
pub Counts-update :
    (map : List ℕ → Option Entry) (key : List ℕ) (o : Option Entry) (us us' : List User)
    → ((k : List ℕ) → Counts (map k) (total (uses k) us) (total (held k) us))
    → ((k : List ℕ)
        → same_bytes k key ≡ false
        → (total (uses k) us' ≡ total (uses k) us) × (total (held k) us' ≡ total (held k) us))
    → Counts o (total (uses key) us') (total (held key) us')
    → (k : List ℕ) → Counts (update key o map k) (total (uses k) us') (total (held k) us')
Counts-update map key o us us' v other new k = elim (Bool-cases (same_bytes k key)) [
  | inl e ↦
      let same : k ≡ key = same_bytes→eq k key e in
      rw e (subst (λ x. Counts o (total (uses x) us') (total (held x) us')) (sym same) new)
  | inr e ↦ let (p, q) = other k e in rw e (rw (p, q) (v k))
]

pub apart : (k key : List ℕ) → same_bytes k key ≡ false → same_bytes key k ≡ false
apart k key h = elim (Bool-cases (same_bytes key k)) [
  | inl e ↦
      let eq : key ≡ k = same_bytes→eq key k e in
      absurd (let t : same_bytes k key ≡ true = ap (same_bytes k) eq ∙ same_bytes_self k in cc)
  | inr e ↦ e
]

-- What a user counts for under its own key and under another.
pub uses_own : (u : User) → uses u.key u ≡ 1
uses_own u = ap bit (same_bytes_self u.key)

pub held_own : (u : User) → held u.key u ≡ holding u.place
held_own u = rw (same_bytes_self u.key) refl

pub uses_other : (k : List ℕ) (u : User) → same_bytes k u.key ≡ false → uses k u ≡ 0
uses_other k u h = ap bit (apart k u.key h)

pub held_other : (k : List ℕ) (u : User) → same_bytes k u.key ≡ false → held k u ≡ 0
held_other k u h = rw (apart k u.key h) refl

pub Refers-new :
    (map : List ℕ → Option Entry) (e : Entry) (u : User)
    → e.node ≡ u.node
    → Refers (update u.key (some e) map) u
Refers-new map e u h = (e, rw (same_bytes_self u.key) refl, h)

pub get_key_lock-Inv :
    (t : Table) (key : List ℕ) → t.busy ≡ false → Inv t → Inv (get_key_lock t key)
unfolding get_key_lock
get_key_lock-Inv t key free v = elim (Option-cases (t.map key)) [
  | inl e ↦
      let old : Counts none (total (uses key) t.users) (total (held key) t.users) =
        subst (λ o. Counts o (total (uses key) t.users) (total (held key) t.users)) e
          (v.counts key) in
      let u : User = record { key = key; node = t.fresh; place = Place.waits } in
      rw e (record {
        counts =
            Counts-update t.map key _ t.users (u ∷ t.users) v.counts
              (λ k ne. (omega (arith, uses_other k u ne), omega (arith, held_other k u ne)))
              (
                omega (arith, uses_own u, old.0),
                omega (arith, uses_own u),
                omega (arith, held_own u, old.1),
              );
        refers = (
          Refers-new t.map (record { node = t.fresh; first = 1; locked = false }) u refl,
          All-unused (Refers t.map) _ key t.users old.0 (λ w ne. Refers-other t.map key _ w ne)
              v.refers,
        );
        alone = omega (arith, v.alone);
      })
  | inr (e, found) ↦
      let old : Counts (some e) (total (uses key) t.users) (total (held key) t.users) =
        subst (λ o. Counts o (total (uses key) t.users) (total (held key) t.users)) found
          (v.counts key) in
      let u : User = record { key = key; node = e.node; place = Place.waits } in
      rw found (record {
        counts =
            Counts-update t.map key _ t.users (u ∷ t.users) v.counts
              (λ k ne. (omega (arith, uses_other k u ne), omega (arith, held_other k u ne)))
              (
                omega (arith, uses_own u, old.0),
                omega (arith, uses_own u),
                omega (arith, held_own u, old.2),
              );
        refers = (
          Refers-new t.map (record e { first = e.first + 1 }) u refl,
          All-map (Refers t.map) _ t.users (λ w. Refers-update t.map key e _ w found refl) v.refers,
        );
        alone = omega (arith, v.alone);
      })
]

pub bit_le : (b : Bool) → bit b ≤ 1
bit_le true = omega arith
bit_le false = omega arith

pub holding_le : (p : Place) → holding p ≤ 1
holding_le Place.waits = omega arith
holding_le Place.holds = omega arith
holding_le Place.leaves = omega arith

pub held-uses : (k : List ℕ) (us : List User) → total (held k) us ≤ total (uses k) us
held-uses k [] = omega arith
held-uses k (x ∷ xs) = elim (Bool-cases (same_bytes x.key k)) [
  | inl e ↦ rw e (omega (arith, held-uses k xs, holding_le x.place))
  | inr e ↦ rw e (omega (arith, held-uses k xs))
]

-- The totals of a user between the others.
pub total-split :
    (f : User → ℕ) (before : List User) (u : User) (after : List User)
    → total f (before ++ u ∷ after) ≡ total f before + f u + total f after
total-split f before u after = omega (arith, total-append f before (u ∷ after))

-- ===== src/Mem/FileLock/Alone.antt =====
-- That the file lock is exclusive as long as no process has two threads at it.
use gaia_net.Base.{
  ℕ, ◌+◌, ◌≤◌, ◌==◌, ◌≡◌, ◌≢◌, refl, ap, sym, subst, ◌∙◌, ◌⊎◌, inl, inr, Bool, true, false, List,
  [], ◌∷◌, ◌++◌, Option, none, some, if◌then◌else◌, Bool-cases, Option-cases, ==_iff, arith, All,
  All-append, All-split, All-map,
}
use gaia_net.Mem.FileLock.{
  RecordLocks, Place, asks, queued, holds, closes, User, State, turn, ask, act, Step, opens, moves,
  Reach, here, next, idle, OneEach, bit, present, holding, holders, holders_of,
}

present-append : (p : ℕ) (xs ys : List User) → present p (xs ++ ys) ≡ present p xs + present p ys
present-append p [] ys = omega arith
present-append p (x ∷ xs) ys = omega (arith, present-append p xs ys)

present_self : (u : User) → bit (u.process == u.process) ≡ 1
present_self u = ap bit ((==_iff _ _).1 refl)

holding_le : (p : Place) → holding p ≤ 1
holding_le asks = omega arith
holding_le queued = omega arith
holding_le holds = omega arith
holding_le closes = omega arith

module _ (r : RecordLocks) where
  -- A thread past `fcntl` belongs to the process that has the record lock.
  abbrev Inside : r.Lock → User → Type 0
  Inside l u = (u.place ≡ asks) ⊎ (r.owner l ≡ some u.process)

  record Inv (s : State r) : Type 0 where
    pub single : (p : ℕ) → present p s.users ≤ 1
    pub inside : All (Inside s.lock) s.users

  -- No user of the process is among these.
  All-absent :
      (P Q : User → Type 0) (p : ℕ) (xs : List User)
      → present p xs ≡ 0
      → ((u : User) → u.process ≢ p → P u → Q u)
      → All P xs
      → All Q xs
  All-absent P Q p [] zero_there f h = tt
  All-absent P Q p (x ∷ xs) zero_there f h = elim (Bool-cases (x.process == p)) [
    | inl e ↦ absurd (ground (arith, zero_there, e))
    | inr e ↦ (
      f x (λ same. (let y : (x.process == p) ≡ true = (==_iff _ _).1 same in cc)) h.0,
      All-absent P Q p xs (ground (arith, zero_there, e)) f h.1,
    )
  ]

  -- The lock goes to a process when nobody else has it.
  Inside-granted :
      (l l' : r.Lock) (p : ℕ) (u : User) → r.set_lock l p ≡ some l' → Inside l u → Inside l' u
  Inside-granted l l' p u h (inl e) = inl e
  Inside-granted l l' p u h (inr own) =
      let (new, before_it) = r.granted l l' p h in
      elim before_it [
        | inl free ↦ absurd (let a = sym free ∙ own in cc)
        | inr mine ↦ inr (new ∙ sym mine ∙ own)
      ]

  module _ (s : State r) (before : List User) (u : User) (after : List User)
      (split : s.users ≡ before ++ u ∷ after) (v : Inv s) where
    parts : All (Inside s.lock) before × Inside s.lock u × All (Inside s.lock) after
    parts =
        let (a, b) =
          All-split (Inside s.lock) before (u ∷ after)
            (subst (All (Inside s.lock)) split v.inside) in
        (a, b.0, b.1)

    counted : (p : ℕ) → present p before + bit (u.process == p) + present p after ≤ 1
    counted p =
        let e : present p s.users ≡ present p (before ++ u ∷ after) = ap (present p) split in
        omega (arith, e, present-append p before (u ∷ after), v.single p)

    -- The user only changes its place.
    stays :
        (place : Place) (l : r.Lock)
        → ((w : User) → Inside s.lock w → Inside l w)
        → Inside l (record u { place = place })
        → Inv (record { lock = l; users = before ++ record u { place = place } ∷ after })
    stays place l keep new = record {
      single = λ p.
          omega (arith, counted p, present-append p before (record u { place = place } ∷ after));
      inside =
          All-append (Inside l) before _ (All-map _ _ before keep parts.0)
            (new, All-map _ _ after keep parts.2);
    }

    leaves :
        r.owner s.lock ≡ some u.process
        → Inv (record { lock = r.close_file s.lock u.process; users = before ++ after })
    leaves own =
        let other = λ (w : User) (ne : w.process ≢ u.process) (h : Inside s.lock w). gone w ne h in
        let one = present_self u in
        let c = counted u.process in
        record {
          single = λ p. omega (arith, counted p, present-append p before after);
          inside =
              All-append _ before after
                (All-absent _ _ u.process before (omega (arith, c, one)) other parts.0)
                (All-absent _ _ u.process after (omega (arith, c, one)) other parts.2);
        }
      where
        gone :
            (w : User)
            → w.process ≢ u.process
            → Inside s.lock w
            → Inside (r.close_file s.lock u.process) w
        gone w ne (inl e) = inl e
        gone w ne (inr theirs) = absurd (ne (let same = sym theirs ∙ own in cc))

    abbrev Sound : Option (State r) → Type 0
    Sound none = Unit {0}
    Sound (some s') = Inv s'

    owns : u.place ≢ asks → r.owner s.lock ≡ some u.process
    owns past = elim parts.1 [ inl e ↦ absurd (past e) | inr own ↦ own ]

    same_lock : (w : User) → Inside s.lock w → Inside s.lock w
    same_lock w h = h

    ask-Sound :
        (o : Option r.Lock) → r.set_lock s.lock u.process ≡ o → Sound (ask r o s before u after)
    ask-Sound none h = tt
    ask-Sound (some l) h =
        stays queued l (λ w. Inside-granted s.lock l u.process w h)
          (inr (r.granted s.lock l u.process h).0)

    enter-Sound :
        (b : Bool)
        → r.owner s.lock ≡ some u.process
        → Sound (
            if b
            then some (record s { users = before ++ record u { place = holds } ∷ after })
            else none)
    enter-Sound true own = stays holds s.lock same_lock (inr own)
    enter-Sound false own = tt

    act-Sound : (place : Place) → u.place ≡ place → Sound (act r place s before u after)
    act-Sound asks at = ask-Sound (r.set_lock s.lock u.process) refl
    act-Sound queued at =
        enter-Sound (holders_of u.process s.users == 0)
          (owns (λ e. (let f : queued ≡ asks = sym at ∙ e in cc)))
    act-Sound holds at =
        stays closes s.lock same_lock (inr (owns (λ e. (let f : holds ≡ asks = sym at ∙ e in cc))))
    act-Sound closes at = leaves (owns (λ e. (let f : closes ≡ asks = sym at ∙ e in cc)))

    turn-Sound : Sound (turn r s before u after)
    unfolding turn
    turn-Sound = act-Sound u.place refl

  opened-Inv :
      (s : State r) (p : ℕ)
      → OneEach p s.users
      → Inv s
      → Inv (record s { users = record { process = p; place = asks } ∷ s.users })
  opened-Inv s p free v = record {
    single = λ q. elim (Bool-cases (p == q)) [
      | inl e ↦
          (let same : p ≡ q = (==_iff p q).0 e in
            let absent : present q s.users ≡ 0 = ap (λ x. present x s.users) (sym same) ∙ free in
            rw e (omega (arith, absent)))
      | inr e ↦ rw e (omega (arith, v.single q))
    ];
    inside = (inl refl, v.inside);
  }

  Step-Inv : {s s' : State r} → Inv s → Step r OneEach s s' → Inv s'
  Step-Inv {s} v (opens p free) = opened-Inv s p free v
  Step-Inv {s} v (moves before u after split h) =
      subst (Sound s before u after split v) h (turn-Sound s before u after split v)

  Reach-Inv : {s : State r} → Reach r OneEach (idle r) s → Inv s
  Reach-Inv here = record { single = λ p. omega arith; inside = tt }
  Reach-Inv (next a b) = Step-Inv (Reach-Inv a) b

  -- Holders belong to the owner of the record lock.
  holders_owned :
      (l : r.Lock) (p : ℕ) (us : List User)
      → r.owner l ≡ some p
      → All (Inside l) us
      → holders us ≤ present p us
  holders_owned l p [] own h = omega arith
  holders_owned l p (u ∷ us) own (inl at, h) =
      let none_held : holding u.place ≡ 0 = ap holding at in
      omega (arith, none_held, holders_owned l p us own h)
  holders_owned l p (u ∷ us) own (inr theirs, h) =
      let same : u.process ≡ p = (let e = sym theirs ∙ own in cc) in
      let one : bit (u.process == p) ≡ 1 = ap bit ((==_iff _ _).1 same) in
      omega (arith, one, holding_le u.place, holders_owned l p us own h)

  holders_free :
      (l : r.Lock) (us : List User) → r.owner l ≡ none → All (Inside l) us → holders us ≡ 0
  holders_free l [] free h = refl
  holders_free l (u ∷ us) free (inl at, h) =
      let none_held : holding u.place ≡ 0 = ap holding at in
      omega (arith, none_held, holders_free l us free h)
  holders_free l (u ∷ us) free (inr theirs, h) = absurd (let e = sym free ∙ theirs in cc)

-- With any record lock that keeps to its description, and any processes that call `get_file_lock` and
-- `free_file_lock` for one name in any interleaving, as long as no process has two threads at it at
-- once: at most one thread of all holds the lock of the name.
pub file_lock_lem :
    (r : RecordLocks) {s : State r} → Reach r OneEach (idle r) s → holders s.users ≤ 1
file_lock_lem r {s} reach =
    let v = Reach-Inv r reach in
    elim (Option-cases (r.owner s.lock)) [
      | inl free ↦ omega (arith, holders_free r s.lock s.users free v.inside)
      | inr (p, own) ↦ omega (arith, holders_owned r s.lock p s.users own v.inside, v.single p)
    ]

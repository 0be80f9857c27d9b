-- ===== src/Mem/KeyLock/Moves.antt =====
-- One action of one user of a lock.
use gaia_net.Base.{
  All, All-append, All-split, All-map, ℕ, ◌+◌, ◌-◌, ◌==◌, ◌≡◌, ◌≢◌, refl, ap, subst, Bool, true,
  false, List, ◌∷◌, ◌++◌, none, some, inl, inr, Bool-cases, if◌then◌else◌, arith, ==_iff,
}
use gaia_net.Base.Bytes.{same_bytes}
use gaia_net.Mem.KeyLock.{Entry, Place, User, Table, update, Turn, blocked, broken, goes, turn, act}
use gaia_net.Mem.KeyLock.Inv.{
  bit, total, total-append, holding, leaving, uses, held, left, Counts, Refers, Inv, All-unused,
  Refers-update, Refers-other, Counts-update, uses_own, uses_other, held_own, held_other,
  Refers-new, bit_le, held-uses, total-split,
}

module _ (t : Table) (before : List User) (u : User) (after : List User)
    (split : t.users ≡ before ++ u ∷ after) (v : Inv t) where
  -- The pair that the user refers to.
  abbrev pub Found : Type 0
  Found =
      (e : Entry) × (t.map u.key ≡ some e)
      × (e.node ≡ u.node)
      × (total (uses u.key) before + 1 + total (uses u.key) after ≡ e.first)
      × (total (held u.key) before + holding u.place + total (held u.key) after ≡ bit e.locked)

  pair_of : All (Refers t.map) before × Refers t.map u × All (Refers t.map) after
  pair_of =
      let (p, q) =
        All-split (Refers t.map) before (u ∷ after) (subst (All (Refers t.map)) split v.refers) in
      (p, q.0, q.1)

  pub found : Found
  found =
      let (e, at_key, node) = pair_of.1 in
      let count : Counts (some e) (total (uses u.key) (before ++ u ∷ after))
          (total (held u.key) (before ++ u ∷ after)) =
        subst (λ us. Counts (some e) (total (uses u.key) us) (total (held u.key) us)) split
          (subst (λ o. Counts o (total (uses u.key) t.users) (total (held u.key) t.users)) at_key
            (v.counts u.key)) in
      (
        e,
        at_key,
        node,
        omega (arith, count.0, total-split (uses u.key) before u after, uses_own u),
        omega (arith, count.2, total-split (held u.key) before u after, held_own u),
      )

  counted_split :
      (k : List ℕ)
      → Counts
          (t.map k)
          (total (uses k) (before ++ u ∷ after))
          (total (held k) (before ++ u ∷ after))
  counted_split k =
      subst (λ us. Counts (t.map k) (total (uses k) us) (total (held k) us)) split (v.counts k)

  alone_split : total left before + leaving u.place + total left after ≡ bit t.busy
  alone_split =
      let e : total left t.users ≡ total left (before ++ u ∷ after) = ap (total left) split in
      omega (arith, v.alone, e, total-split left before u after)

  -- Only the place of the user and the lock of its pair change.
  placed-Inv :
      (e : Entry) (locked busy : Bool) (place : Place)
      → t.map u.key ≡ some e
      → e.node ≡ u.node
      → total (uses u.key) before + 1 + total (uses u.key) after ≡ e.first
      → total (held u.key) before + holding place + total (held u.key) after ≡ bit locked
      → total left before + leaving place + total left after ≡ bit busy
      → Inv (record t {
        map = update u.key (some (record e { locked = locked })) t.map;
        users = before ++ record u { place = place } ∷ after;
        busy = busy;
      })
  placed-Inv e locked busy place at_key node users holders lone =
      let w : User = record u { place = place } in
      let keep =
        λ (x : User). Refers-update t.map u.key e (record e { locked = locked }) x at_key refl in
      record {
        counts =
            Counts-update t.map u.key _ (before ++ u ∷ after) (before ++ w ∷ after) counted_split
              (λ k ne. (
                omega (
                  arith,
                  total-split (uses k) before u after,
                  total-split (uses k) before w after,
                ),
                omega (
                  arith,
                  total-split (held k) before u after,
                  total-split (held k) before w after,
                  held_other k u ne,
                  held_other k w ne,
                ),
              ))
              (
                omega (arith, users, total-split (uses u.key) before w after, uses_own w),
                omega (arith, total-split (uses u.key) before w after, uses_own w),
                omega (arith, holders, total-split (held u.key) before w after, held_own w),
              );
        refers = All-append _ before (w ∷ after) (All-map (Refers t.map) _ before keep pair_of.0) (
          Refers-new t.map (record e { locked = locked }) w node,
          All-map (Refers t.map) _ after keep pair_of.2,
        );
        alone = omega (arith, lone, total-split left before w after);
      }

  -- The user is gone, and its pair counts one less or is gone too.
  dropped-Inv :
      (e : Entry)
      → t.map u.key ≡ some e
      → u.place ≡ Place.leaves
      → total (uses u.key) before + 1 + total (uses u.key) after ≡ e.first
      → total (held u.key) before + 0 + total (held u.key) after ≡ bit e.locked
      → total left before + 1 + total left after ≡ bit t.busy
      → Inv (record t {
        map =
            update u.key
              (if e.first - 1 == 0 then none else some (record e { first = e.first - 1 }))
              t.map;
        users = before ++ after;
        busy = false;
      })
  dropped-Inv e at_key place users holders lone = elim (Bool-cases (e.first - 1 == 0)) [
    | inl last ↦
        let gone : e.first - 1 ≡ 0 = (==_iff _ _).0 last in
        let other =
          λ (x : User) (ne : same_bytes x.key u.key ≡ false). Refers-other t.map u.key none x ne in
        rw last (record {
          counts =
              Counts-update t.map u.key none (before ++ u ∷ after) (before ++ after) counted_split
                same
                (
                  omega (arith, users, gone, total-append (uses u.key) before after),
                  no_holder gone,
                );
          refers =
              All-append _ before after
                (All-unused (Refers t.map) _ u.key before (omega (arith, users, gone)) other
                  pair_of.0)
                (All-unused (Refers t.map) _ u.key after (omega (arith, users, gone)) other
                  pair_of.2);
          alone = alone_after;
        })
    | inr more ↦
        let stays : e.first - 1 ≢ 0 =
          λ z. (let y : (e.first - 1 == 0) ≡ true = (==_iff _ _).1 z in cc) in
        let keep = λ (x : User).
          Refers-update t.map u.key e (record e { first = e.first - 1 }) x at_key refl in
        rw more (record {
          counts =
              Counts-update t.map u.key _ (before ++ u ∷ after) (before ++ after) counted_split same
                (
                  omega (arith, users, total-append (uses u.key) before after),
                  omega (arith, users, stays, total-append (uses u.key) before after),
                  omega (arith, holders, total-append (held u.key) before after),
                );
          refers =
              All-append _ before after (All-map (Refers t.map) _ before keep pair_of.0)
                (All-map (Refers t.map) _ after keep pair_of.2);
          alone = alone_after;
        })
  ]
    where
      same :
          (k : List ℕ)
          → same_bytes k u.key ≡ false
          → (total (uses k) (before ++ after) ≡ total (uses k) (before ++ u ∷ after))
            × (total (held k) (before ++ after) ≡ total (held k) (before ++ u ∷ after))
      same k ne = (
        omega (
          arith,
          total-split (uses k) before u after,
          total-append (uses k) before after,
          uses_other k u ne,
        ),
        omega (
          arith,
          total-split (held k) before u after,
          total-append (held k) before after,
          held_other k u ne,
        ),
      )

      alone_after : total left (before ++ after) ≡ 0
      alone_after = omega (arith, lone, bit_le t.busy, total-append left before after)

      no_holder : e.first - 1 ≡ 0 → total (held u.key) (before ++ after) ≡ 0
      no_holder gone = omega (
        arith,
        users,
        gone,
        total-append (held u.key) before after,
        held-uses u.key before,
        held-uses u.key after,
      )

  -- What a turn leaves is sound, and no turn uses a pair that is gone.
  abbrev pub Sound : Turn → Type 0
  Sound blocked = Unit {0}
  Sound broken = ⊥
  Sound (goes t') = Inv t'

  pub turn-Sound : Sound (turn t before u after)
  unfolding turn
  turn-Sound =
      let (e, at_key, node, users, holders) = found in
      act-Sound u.place refl e at_key node users holders alone_split
    where
      act-Sound :
          (place : Place)
          → u.place ≡ place
          → (e : Entry) → t.map u.key ≡ some e
          → e.node ≡ u.node
          → total (uses u.key) before + 1 + total (uses u.key) after ≡ e.first
          → total (held u.key) before + holding u.place + total (held u.key) after ≡ bit e.locked
          → total left before + leaving u.place + total left after ≡ bit t.busy
          → Sound (act place t before u after)
      act-Sound Place.waits at e at_key node users holders lone =
          let here : holding u.place ≡ 0 = ap holding at in
          let there : leaving u.place ≡ 0 = ap leaving at in
          rw at_key (
            rw ((==_iff _ _).1 node) (elim (Bool-cases e.locked) [
              | inl on ↦ rw on tt
              | inr off ↦ rw off (
                  placed-Inv e true t.busy Place.holds at_key node users
                    (omega (arith, holders, here, ap bit off)) (omega (arith, lone, there)))
            ]))
      act-Sound Place.holds at e at_key node users holders lone =
          let here : holding u.place ≡ 1 = ap holding at in
          let there : leaving u.place ≡ 0 = ap leaving at in
          rw at_key (elim (Bool-cases t.busy) [
            | inl on ↦ rw on tt
            | inr off ↦ rw off (
                placed-Inv e false true Place.leaves at_key node users
                  (omega (arith, holders, here, bit_le e.locked))
                  (omega (arith, lone, there, ap bit off)))
          ])
      act-Sound Place.leaves at e at_key node users holders lone =
          let here : holding u.place ≡ 0 = ap holding at in
          let there : leaving u.place ≡ 1 = ap leaving at in
          rw at_key (
            dropped-Inv e at_key at users (omega (arith, holders, here))
              (omega (arith, lone, there)))

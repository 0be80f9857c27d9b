-- ===== src/Mem/Setup/Resources/Restored.antt =====
-- The destructor gives back what the channel has taken.
use gaia_net.Base.{
  ℕ, zero, suc, ◌+◌, ◌==◌, ◌≡◌, refl, ap, sym, ◌∙◌, subst, Bool, true, false, List, ◌∷◌, Option,
  none, some, arith, ltb, ==_iff, if◌then◌else◌,
}
use gaia_net.Mem.Setup.Resources.{
  Process, open_both, construct, unattached, calls, ◌>>=◌, unmap, take_out, destruct, unmap_both,
  close,
}

-- The same mappings and descriptors are there.
abbrev pub Same : Process → Option Process → Type 0
Same p o = (p' : Process) × (o ≡ some p') × (p'.mapped ≡ p.mapped) × (p'.fds ≡ p.fds)

above : (n : ℕ) → (n + 1 == n) ≡ false
above n = ground arith

equal : (n : ℕ) → (n == n) ≡ true
equal n = (==_iff n n).1 refl

take_out_second : (n : ℕ) (rest : List ℕ) → take_out n ((n + 1) ∷ n ∷ rest) ≡ some ((n + 1) ∷ rest)
take_out_second n rest = rw (above n, equal n) refl

take_out_first : (n : ℕ) (rest : List ℕ) → take_out n (n ∷ rest) ≡ some rest
take_out_first n rest = rw (equal n) refl

unmap-some :
    (id : ℕ) (p : Process) (left : List ℕ)
    → take_out id p.mapped ≡ some left
    → unmap (some id) p ≡ some (record p { mapped = left })
unmap-some id p left e =
    ap (λ o. elim o [ none ↦ none | some l ↦ some (record p { mapped = l }) ]) e

close-some :
    (id : ℕ) (p : Process) (left : List ℕ)
    → take_out id p.fds ≡ some left
    → close (some id) p ≡ some (record p { fds = left })
close-some id p left e = ap (λ o. elim o [ none ↦ none | some l ↦ some (record p { fds = l }) ]) e

unmap_both-open_both :
    (p : Process)
    → unmap_both (open_both p).0 (open_both p).1
      ≡ some (record (open_both p).1 { mapped = p.mapped })
unmap_both-open_both p =
    ap (λ o. o >>= unmap (some (p.fresh + 1)))
      (unmap-some p.fresh (open_both p).1 _ (take_out_second p.fresh p.mapped))
    ∙ unmap-some (p.fresh + 1) (record (open_both p).1 { mapped = (p.fresh + 1) ∷ p.mapped })
        p.mapped (take_out_first (p.fresh + 1) p.mapped)

-- Both branches unmap a channel with both rings.
either_branch :
    (b : Bool) (p : Process) {A : Type 0} (o : A) (other : A)
    → (if b then o else if true then o else other) ≡ o
either_branch true p o other = refl
either_branch false p o other = refl

-- Whichever side it is, the destructor of a channel with both rings unmaps and closes them.
destruct-open_both :
    (from to : ℕ) (p : Process) → Same p (destruct from to (open_both p).0 (open_both p).1)
unfolding destruct
destruct-open_both from to p =
    let closes_both : Process → Option Process =
      λ q. close (some p.fresh) q >>= λ r. close (some (p.fresh + 1)) r in
    (
      record (open_both p).1 { mapped = p.mapped; fds = p.fds },
      ap (λ o. o >>= closes_both)
            (either_branch (ltb from to) p (unmap_both (open_both p).0 (open_both p).1)
                (some (open_both p).1)
              ∙ unmap_both-open_both p)
          ∙ ap (λ o. o >>= close (some (p.fresh + 1)))
              (close-some p.fresh (record (open_both p).1 { mapped = p.mapped }) _
                (take_out_second p.fresh p.fds))
          ∙ close-some (p.fresh + 1)
              (record (open_both p).1 { mapped = p.mapped; fds = (p.fresh + 1) ∷ p.fds }) p.fds
              (take_out_first (p.fresh + 1) p.fds),
      refl,
      refl,
    )

calls-open_both : (n : ℕ) (p : Process) → calls n (open_both p) ≡ open_both p
calls-open_both zero p = refl
calls-open_both (suc n) p = calls-open_both n p

-- A channel that was never used has nothing to give back.
destruct-unattached :
    (from to : ℕ) (p : Process)
    → ltb from to ≡ false
    → Same p (destruct from to (unattached p).0 (unattached p).1)
unfolding destruct
destruct-unattached from to p e = (p, rw e refl, refl, refl)

-- A channel of any two parties, any number of calls on it, each of which attaches first where that is still to be
-- done, and its destructor: no null pointer is read, nothing is unmapped or closed that is not open, and
-- afterwards the process has the mappings and the descriptors that it had before.
pub destruct-Same :
    (from to n : ℕ) (p : Process)
    → Same p (destruct from to (calls n (construct from to p)).0 (calls n (construct from to p)).1)
unfolding construct
destruct-Same from to n p = go (ltb from to) refl n
  where
    both : (k : ℕ) → Same p (destruct from to (calls k (open_both p)).0 (calls k (open_both p)).1)
    both k =
        subst (λ s. Same p (destruct from to s.0 s.1)) (sym (calls-open_both k p))
          (destruct-open_both from to p)

    go :
        (b : Bool)
        → ltb from to ≡ b
        → (k : ℕ)
        → Same p (
            destruct from to
              (calls k (if b then open_both p else unattached p)).0
              (calls k (if b then open_both p else unattached p)).1)
    go true e k = both k
    go false e zero = destruct-unattached from to p e
    go false e (suc k) = both k

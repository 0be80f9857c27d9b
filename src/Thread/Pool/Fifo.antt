-- ===== src/Thread/Pool/Fifo.antt =====
-- No task is lost, doubled or overtaken on its way through the pool, and no worker disappears.
use gaia_net.Base.{
  ℕ, zero, suc, ◌+◌, ◌≡◌, refl, ap, sym, ◌∙◌, Bool, true, false, List, [], ◌∷◌, ◌++◌, append_assoc,
  arith, inl, inr, Bool-cases,
}
use gaia_net.Thread.Pool.{
  Pool, create, submit, notify_one, enter, take_task, dequeue, enqueue, Step, submits, notifies,
  tests, enters, sleeps, wakes_up, goes_on, finishes, stops, notifies_all, Reach, here, next,
}

abbrev pub bit : Bool → ℕ
bit true = 1
bit false = 0

module _ {ℓ} {T : Type ℓ} where
  -- All workers, wherever they are.
  abbrev pub workers : Pool T → ℕ
  workers p =
      p.looping + p.entering + bit p.about_to_wait + p.asleep + p.woken + p.running + p.ended

  pub record Inv (n : ℕ) (p : Pool T) : Type ℓ where
    pub in_order : p.started ++ p.queue ≡ p.submitted
    pub all_there : workers p ≡ n

  -- A worker that holds the mutex takes the oldest task or none.
  take_task-Inv :
      (n : ℕ) (p : Pool T) (tasks : List T)
      → tasks ≡ p.queue
      → p.started ++ p.queue ≡ p.submitted
      → suc (workers p) ≡ n
      → Inv n (take_task (dequeue tasks) p)
  unfolding dequeue
  take_task-Inv n p [] e v w = record { in_order = v; all_there = ground arith }
  take_task-Inv n p (t ∷ q) e v w = record {
    in_order = append_assoc p.started (t ∷ []) q ∙ ap (λ l. p.started ++ l) e ∙ v;
    all_there = ground arith;
  }

  enter-Inv :
      (n : ℕ) (p : Pool T) (tasks : List T)
      → tasks ≡ p.queue
      → p.about_to_wait ≡ false
      → p.started ++ p.queue ≡ p.submitted
      → suc (workers p) ≡ n
      → Inv n (enter (dequeue tasks) p)
  unfolding dequeue
  enter-Inv n p [] e free v w = record { in_order = v; all_there = ground arith }
  enter-Inv n p (t ∷ q) e free v w = record {
    in_order = append_assoc p.started (t ∷ []) q ∙ ap (λ l. p.started ++ l) e ∙ v;
    all_there = ground arith;
  }

  notify_one-Inv : (n k : ℕ) (p : Pool T) → k ≡ p.asleep → Inv n p → Inv n (notify_one k p)
  notify_one-Inv n zero p e v = v
  notify_one-Inv n (suc k) p e v = record {
    in_order = v.in_order;
    all_there = omega (arith, v.all_there);
  }

  Step-Inv : (n : ℕ) (p q : Pool T) → Step p q → Inv n p → Inv n q
  unfolding submit enqueue
  Step-Inv n p q (submits t e) v = rw e (record {
    in_order = sym (append_assoc p.started p.queue (t ∷ [])) ∙ ap (λ l. l ++ t ∷ []) v.in_order;
    all_there = v.all_there;
  })
  Step-Inv n p q (notifies k h e) v = rw e (
      notify_one-Inv n p.asleep (record p { notices = k }) refl
        (record { in_order = v.in_order; all_there = v.all_there }))
  Step-Inv n p q (tests k h e) v = elim (Bool-cases p.shutdown) [
    | inl s ↦ rw (e, s) (record { in_order = v.in_order; all_there = omega (arith, v.all_there) })
    | inr s ↦ rw (e, s) (record { in_order = v.in_order; all_there = omega (arith, v.all_there) })
  ]
  Step-Inv n p q (enters k free h e) v = rw e (
      enter-Inv n (record p { entering = k }) p.queue refl free v.in_order
        (omega (arith, v.all_there)))
  Step-Inv n p q (sleeps h e) v =
      rw e (record { in_order = v.in_order; all_there = ground (arith, v.all_there) })
  Step-Inv n p q (wakes_up k h e) v =
      rw e (record { in_order = v.in_order; all_there = omega (arith, v.all_there) })
  Step-Inv n p q (goes_on k free h e) v = rw e (
      take_task-Inv n (record p { woken = k }) p.queue refl v.in_order (omega (arith, v.all_there)))
  Step-Inv n p q (finishes k h e) v =
      rw e (record { in_order = v.in_order; all_there = omega (arith, v.all_there) })
  Step-Inv n p q (stops free e) v = rw e (record { in_order = v.in_order; all_there = v.all_there })
  Step-Inv n p q (notifies_all k h e) v =
      rw e (record { in_order = v.in_order; all_there = omega (arith, v.all_there) })

  Reach-Inv : (n : ℕ) {p q : Pool T} → Inv n p → Reach p q → Inv n q
  Reach-Inv n v here = v
  Reach-Inv n v (next {q} {r} reach s) = Step-Inv n q r s (Reach-Inv n v reach)

  -- A pool of `n` workers, after any calls of `submit` and `shutdown` and whatever the workers do: the
  -- tasks that were started, in their order, and those in the queue are together the tasks that were
  -- submitted, in their order; and all workers are somewhere.
  pub pool_lem :
      (n : ℕ) {p : Pool T}
      → Reach (create n) p
      → (p.started ++ p.queue ≡ p.submitted) × (workers p ≡ n)
  unfolding create
  pool_lem n r =
      let v = Reach-Inv n (record { in_order = refl; all_there = omega arith }) r in
      (v.in_order, v.all_there)

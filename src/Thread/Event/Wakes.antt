-- ===== src/Thread/Event/Wakes.antt =====
-- Which waiting threads an event lets through.
use gaia_net.Base.{
  ℕ, zero, suc, ◌+◌, ◌≤◌, ◌<◌, ◌≡◌, refl, Bool, true, false, Bool-cases, inl, inr, arith,
}
use gaia_net.Thread.Event.{
  Event, create, notify_one, set, try, reset, Step, sets, notifies, resets, waits, wakes_up,
  retries, Reach, here, next,
}

-- An event that stays set counts as one more passage.
abbrev pub bit : Bool → ℕ
bit true = 1
bit false = 0

-- No more threads have passed than the event was raised; and when it is set while threads sleep,
-- one has been woken or is about to be.
pub record Inv (first : Bool) (e : Event) : Type 0 where
  pub auto : e.manual ≡ false
  pub counted : e.passed + bit e.is_set ≤ e.raised + bit first
  pub awake : e.is_set ≡ true → 0 < e.sleepers → 0 < e.woken + e.notices

notify_one-Inv :
    (first : Bool) (n k : ℕ) (e : Event)
    → n ≡ e.sleepers
    → Inv first e
    → Inv first (notify_one n (record e { notices = k }))
notify_one-Inv first zero k e h v = record {
  auto = v.auto;
  counted = v.counted;
  awake = λ on some_sleep. absurd (omega (arith, h, some_sleep));
}
notify_one-Inv first (suc n) k e h v = record {
  auto = v.auto;
  counted = v.counted;
  awake = λ on some_sleep. omega arith;
}

set-Inv : (first : Bool) (e : Event) → Inv first e → Inv first (set e)
unfolding set
set-Inv first e v = elim (Bool-cases e.is_set) [
  | inl on ↦
      rw on
        (record { auto = v.auto; counted = ground (arith, v.counted, on); awake = λ _. v.awake on })
  | inr off ↦ rw off (record {
    auto = v.auto;
    counted = ground (arith, v.counted, off);
    awake = λ on some_sleep. omega arith;
  })
]

-- One test by a waiting thread; an event without manual reset is not set after it.
try-Inv :
    (first : Bool) (e : Event)
    → e.manual ≡ false
    → e.passed + bit e.is_set ≤ e.raised + bit first
    → Inv first (try e)
unfolding try
try-Inv first e auto counted = elim (Bool-cases e.is_set) [
  | inl on ↦
      rw on (record { auto = auto; counted = ground arith; awake = λ h. absurd (ground arith) })
  | inr off ↦
      rw off (record { auto = auto; counted = ground arith; awake = λ h. absurd (ground arith) })
]

Step-Inv : (first : Bool) (e f : Event) → Step e f → Inv first e → Inv first f
unfolding reset
Step-Inv first e f (sets h) v = rw h (set-Inv first e v)
Step-Inv first e f (notifies n w h) v = rw h (notify_one-Inv first e.sleepers n e refl v)
Step-Inv first e f (wakes_up n w h) v =
    rw h (record { auto = v.auto; counted = v.counted; awake = λ on some_sleep. omega arith })
Step-Inv first e f (resets h) v = rw h (record {
  auto = v.auto;
  counted = omega (arith, v.counted);
  awake = λ on. absurd (ground arith);
})
Step-Inv first e f (waits h) v = rw h (try-Inv first e v.auto v.counted)
Step-Inv first e f (retries n w h) v =
    rw h (try-Inv first (record e { woken = n }) v.auto v.counted)

Reach-Inv : (first : Bool) {e f : Event} → Inv first e → Reach e f → Inv first f
Reach-Inv first v here = v
Reach-Inv first v (next {f} {g} r s) = Step-Inv first f g s (Reach-Inv first v r)

-- An event without manual reset, after any calls of `Set`, `Reset` and `Wait` by any threads: no more
-- threads have passed `Wait` than calls of `Set` have raised it, one more if it was set at first;
-- and while it is set and threads sleep, at least one has been woken and is to test it, or a call of `Set` is about to
-- notify one.
pub automatic_event_lem :
    (first : Bool) {e : Event}
    → Reach (create false first) e
    → (e.passed ≤ e.raised + bit first)
      × (e.is_set ≡ true → 0 < e.sleepers → 0 < e.woken + e.notices)
unfolding create
automatic_event_lem first {e} r =
    let v =
      Reach-Inv first
        (record { auto = refl; counted = omega arith; awake = λ on h. absurd (omega arith) }) r in
    (omega (arith, v.counted), v.awake)

-- Threads that come to a manual-reset event that is not set go to sleep.
asleep : ℕ → Event
unfolding create
asleep k = record (create true false) { sleepers = k }

fall_asleep : (k : ℕ) → Reach (create true false) (asleep k)
unfolding asleep create try
fall_asleep zero = here
fall_asleep (suc k) = next (fall_asleep k) (waits (ground arith))

-- A manual-reset event with at least two threads asleep: `Set` wakes one of them, and after that one
-- has passed the event stays set while the others sleep, with none woken and no notification to come; another `Set`
-- does nothing.
pub manual_event_strands :
    (k : ℕ)
    → (e : Event) × Reach (create true false) e
      × (e.is_set ≡ true)
      × (e.sleepers ≡ suc k)
      × (e.woken ≡ 0)
      × (e.notices ≡ 0)
      × (set e ≡ e)
unfolding asleep create set try
manual_event_strands k = (
  try (record (set (asleep (suc (suc k)))) { sleepers = suc k; woken = 0; notices = 0 }),
  next (next (next (fall_asleep (suc (suc k))) (sets refl)) (notifies 0 refl refl))
      (retries 0 refl refl),
  refl,
  refl,
  refl,
  refl,
  refl,
)

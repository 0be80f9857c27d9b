-- ===== src/Thread/Runner/Joined.antt =====
-- Which owners of a CThread come to its end.
use gaia_net.Base.{
  ℕ, ◌+◌, ◌≡◌, refl, ap₂, ◌∙◌, Bool, true, false, List, [], ◌∷◌, Option, none, some, arith, ◌&&◌,
  not, if◌then◌else◌,
}
use gaia_net.Thread.Runner.{CThread, create, start, wait, destroy, Call, starts, waits, run}

-- `Start` only without a thread, and a `Wait` after each; the flag says whether there is one.
abbrev pub paired : Bool → List Call → Bool
paired b [] = not b
paired b (starts ∷ cs) = not b && paired true cs
paired b (waits ∷ cs) = paired false cs

-- The number of starts.
abbrev pub starts_in : List Call → ℕ
starts_in [] = 0
starts_in (starts ∷ cs) = starts_in cs + 1
starts_in (waits ∷ cs) = starts_in cs

-- A thread that stands as its flag says.
abbrev pub at : Bool → ℕ → ℕ → CThread
at b s e = record { is_running = b; joinable = b; started = s; ended = e }

-- One more thread is to be joined if `b`.
abbrev running : Bool → ℕ
running true = 1
running false = 0

-- The end of the calls, where they are paired.
abbrev after : Bool → List Call → ℕ → ℕ → Option CThread
after b cs s e =
    if paired b cs then some (at false (s + starts_in cs) (e + running b + starts_in cs)) else none

after-same :
    (b : Bool) {s s' e e' : ℕ}
    → s ≡ s'
    → e ≡ e'
    → (if b then some (at false s e) else none) ≡ (if b then some (at false s' e') else none)
after-same b h k = ap₂ (λ m n. if b then some (at false m n) else none) h k

run-after : (b : Bool) (cs : List Call) (s e : ℕ) → run cs (at b s e) ≡ after b cs s e
unfolding start wait destroy
run-after true [] s e = refl
run-after false [] s e = after-same true (omega arith) (omega arith)
run-after true (starts ∷ cs) s e = refl
run-after false (starts ∷ cs) s e =
    run-after true cs (s + 1) e ∙ after-same (paired true cs) (omega arith) (omega arith)
run-after true (waits ∷ cs) s e =
    run-after false cs s (e + 1) ∙ after-same (paired false cs) (omega arith) (omega arith)
run-after false (waits ∷ cs) s e = run-after false cs s e

-- An owner of a CThread gets past its destructor exactly when it never calls `Start` twice without `Wait` in between,
-- and calls `Wait` after the last `Start`; then every thread that was started was joined, once, and
-- the flag is down. All other calls end the program.
pub run-create :
    (cs : List Call)
    → run cs create
      ≡ (if paired false cs then some (at false (starts_in cs) (starts_in cs)) else none)
unfolding create
run-create cs = run-after false cs 0 0 ∙ after-same (paired false cs) (omega arith) (omega arith)

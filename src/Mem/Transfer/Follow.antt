-- ===== src/Mem/Transfer/Follow.antt =====
-- The chunks that a sender writes, and a receiver that reads chunk by chunk.
use gaia_net.Base.{
  ℕ, ◌≤◌, ◌<◌, ◌≡◌, List, [], ◌∷◌, ◌++◌, append_assoc, append-nil, arith, Option, none, some,
  length, take, ◌==◌, if◌then◌else◌,
}
use gaia_net.Mem.Channel.{Prog, done, abort, write, read}

abbrev pub concat : List (List ℕ) → List ℕ
concat [] = []
concat (c ∷ cs) = c ++ concat cs

pub concat-snoc : (cs : List (List ℕ)) (c : List ℕ) → concat (cs ++ c ∷ []) ≡ concat cs ++ c
concat-snoc [] c = append-nil c
concat-snoc (d ∷ cs) c = rw (concat-snoc cs c, append_assoc d (concat cs) c)

module _ {ℓ} {A : Type ℓ} where
  abbrev pub writes : Prog A → List (List ℕ)
  writes (done a) = []
  writes abort = []
  writes (write src n k) = take n src ∷ writes k
  writes (read n k) = []

  -- A program that only writes, each time from enough memory, and at most a ring full.
  abbrev pub IsWriter : ℕ → Prog A → Type 0
  IsWriter cap (done a) = Unit {0}
  IsWriter cap abort = ⊥
  IsWriter cap (write src n k) = (0 < n) × (n ≤ length src) × (n ≤ cap) × IsWriter cap k
  IsWriter cap (read n k) = ⊥

  -- What a receiver returns that is handed these chunks, one for each of its reads.
  abbrev pub follow : Prog A → List (List ℕ) → Option A
  follow (done a) [] = some a
  follow (done a) (c ∷ cs) = none
  follow abort cs = none
  follow (write src n k) cs = none
  follow (read n k) [] = none
  follow (read n k) (c ∷ cs) = let rest = follow (k c) cs in if length c == n then rest else none

  -- The next read is that of the next chunk.
  pub follow-read :
      (b : A) (n : ℕ) (k : List ℕ → Prog A) (c : List ℕ) (cs : List (List ℕ))
      → follow (read n k) (c ∷ cs) ≡ some b
      → (length c ≡ n) × (follow (k c) cs ≡ some b)
  follow-read b n k c cs h = ground arith

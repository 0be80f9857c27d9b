-- ===== src/Mem/Transfer/Chunks.antt =====
-- The loops of `send` and `recv_body` cut the body into the same chunks.
use native.Mathlib.Nat.{div-add-mod', mod-lt}
use gaia_net.Base.{
  ℕ, zero, suc, ◌+◌, ◌-◌, ◌*◌, ◌^◌, ◌≤◌, ◌<◌, min, ◌≡◌, refl, ap, sym, ◌∙◌, List, [], ◌∷◌, ◌++◌,
  append_assoc, arith, length, take, drop, length-append, length-take, length-drop, drop-append,
  take-append-drop, lt→ltb, ◌==◌, ==_iff, true,
}
use gaia_net.Base.Word.{add32, sub32}
use gaia_net.Mem.View.{memcpy_at}
use gaia_net.Mem.Channel.{Prog, chunk_cnt, at_offset, store_at, send_chunks, recv_chunks}
use gaia_net.Mem.Transfer.Follow.{writes, IsWriter, follow}

-- `i` rounds of `chunk` bytes are what a body of `n` bytes takes.
pub record Rounds (chunk i n : ℕ) : Type 0 where
  pub enough : n ≤ i * chunk
  pub needed : i * chunk < n + chunk

pub chunk_cnt-Rounds :
    (n chunk : ℕ) → 0 < chunk → n + chunk ≤ 2 ^ 32 → Rounds chunk (chunk_cnt n chunk) n
unfolding chunk_cnt
chunk_cnt-Rounds n chunk h fits =
    let e : sub32 (add32 n chunk) 1 ≡ n + chunk - 1 = omega arith in
    rw e (record {
      enough = omega (arith, div-add-mod' (n + chunk - 1) chunk, mod-lt (n + chunk - 1) h);
      needed = omega (arith, div-add-mod' (n + chunk - 1) chunk);
    })

pub Rounds-pred :
    (chunk i n : ℕ)
    → 0 < chunk
    → Rounds chunk (suc i) n
    → (0 < n) × Rounds chunk i (n - min n chunk)
Rounds-pred chunk i n pos r = (
  grind (arith, r.needed),
  record { enough = grind (arith, r.enough); needed = grind (arith, r.needed) },
)

pub Rounds-zero : (chunk n : ℕ) → Rounds chunk zero n → n ≡ 0
Rounds-zero chunk n r = omega (arith, r.enough)

pub nil_of_length : (xs : List ℕ) → length xs ≡ 0 → xs ≡ []
nil_of_length [] h = refl
nil_of_length (x ∷ xs) h = absurd (omega arith)

-- Bytes copied behind a prefix of the buffer lengthen the prefix.
memcpy_at-append :
    (a b c : List ℕ) (pos : ℕ)
    → length a ≡ pos
    → length c ≤ length b
    → memcpy_at (a ++ b) pos c ≡ (a ++ c) ++ drop (length c) b
unfolding memcpy_at
memcpy_at-append [] b [] zero e h = refl
memcpy_at-append [] [] (x ∷ c) zero e h = absurd (omega arith)
memcpy_at-append [] (y ∷ b) (x ∷ c) zero e h =
    ap (◌∷◌ x) (memcpy_at-append [] b c zero refl (omega arith))
memcpy_at-append [] b c (suc pos) e h = absurd (omega arith)
memcpy_at-append (y ∷ a) b c zero e h = absurd (omega arith)
memcpy_at-append (y ∷ a) b [] (suc pos) e h =
    ap (◌∷◌ y) (memcpy_at-append a b [] pos (omega arith) h)
memcpy_at-append (y ∷ a) b (x ∷ c) (suc pos) e h =
    ap (◌∷◌ y) (memcpy_at-append a b (x ∷ c) pos (omega arith) h)

module _ (chunk : ℕ) (pos_chunk : 0 < chunk) (small : chunk < 2 ^ 31) where
  -- What one round does with the buffers of both sides.
  module _ (pos n : ℕ) (a rest b : List ℕ) (ha : length a ≡ pos) (hr : length rest ≡ n)
      (hb : length b ≡ n) (low : pos + n < 2 ^ 31) where
    pub at_offset_lem : at_offset (a ++ rest) pos ≡ rest
    at_offset_lem = rw (lt→ltb pos (2 ^ 31) (omega arith)) (drop-append pos a rest ha)

    store_at_lem :
        store_at (a ++ b) pos (take (min n chunk) rest)
        ≡ (a ++ take (min n chunk) rest) ++ drop (min n chunk) b
    store_at_lem = rw (lt→ltb pos (2 ^ 31) (omega arith)) (
        memcpy_at-append a b (take (min n chunk) rest) pos ha
          (omega (arith, length-take (min n chunk) rest))
        ∙ ap (λ t. (a ++ take (min n chunk) rest) ++ drop t b)
            (omega (arith, length-take (min n chunk) rest)))

    pub split : a ++ rest ≡ (a ++ take (min n chunk) rest) ++ drop (min n chunk) rest
    split = sym (
        append_assoc a (take (min n chunk) rest) (drop (min n chunk) rest)
        ∙ ap (◌++◌ a) (take-append-drop (min n chunk) rest))

  pub chunks-IsWriter {ℓ} :
      {A : Type ℓ} (i pos n : ℕ) (a rest : List ℕ) (p : Prog A)
      → length a ≡ pos
      → length rest ≡ n
      → pos + n < 2 ^ 31
      → Rounds chunk i n
      → IsWriter chunk p
      → IsWriter chunk (send_chunks i chunk (a ++ rest) pos n p)
  unfolding send_chunks
  chunks-IsWriter zero pos n a rest p ha hr low r w = w
  chunks-IsWriter (suc i) pos n a rest p ha hr low r w =
      let (more, r') = Rounds-pred chunk i n pos_chunk r in
      let next : add32 pos (min n chunk) ≡ pos + min n chunk = omega arith in
      let left : sub32 n (min n chunk) ≡ n - min n chunk = omega arith in
      (
        omega arith,
        rw (at_offset_lem pos n a rest rest ha hr hr low) (omega arith),
        omega arith,
        rw (next, left, split pos n a rest rest ha hr hr low)
            (chunks-IsWriter i (pos + min n chunk) (n - min n chunk) (a ++ take (min n chunk) rest)
              (drop (min n chunk) rest) p
              (omega
                (arith, length-append a (take (min n chunk) rest), length-take (min n chunk) rest))
              (omega (arith, length-drop (min n chunk) rest)) (omega arith) r' w),
      )

  -- The receiver's loop, fed with the chunks of the sender's, fills its buffer with the body.
  pub chunks-follow {ℓ κ} :
      {A : Type ℓ} {B : Type κ} (i pos n : ℕ) (a rest b : List ℕ) (p : Prog A) (k : List ℕ → Prog B)
      → length a ≡ pos
      → length rest ≡ n
      → length b ≡ n
      → pos + n < 2 ^ 31
      → Rounds chunk i n
      → follow
          (recv_chunks i chunk (a ++ b) pos n k)
          (writes (send_chunks i chunk (a ++ rest) pos n p))
        ≡ follow (k (a ++ rest)) (writes p)
  unfolding send_chunks recv_chunks
  chunks-follow zero pos n a rest b p k ha hr hb low r =
      let none_left : n ≡ 0 = Rounds-zero chunk n r in
      rw (nil_of_length b (omega arith), nil_of_length rest (omega arith))
  chunks-follow (suc i) pos n a rest b p k ha hr hb low r =
      let (more, r') = Rounds-pred chunk i n pos_chunk r in
      let next : add32 pos (min n chunk) ≡ pos + min n chunk = omega arith in
      let left : sub32 n (min n chunk) ≡ n - min n chunk = omega arith in
      let size : (length (take (min n chunk) rest) == min n chunk) ≡ true =
        (==_iff _ _).1 (omega (arith, length-take (min n chunk) rest)) in
      rw
        (
          at_offset_lem pos n a rest b ha hr hb low,
          next,
          left,
          size,
          store_at_lem pos n a rest b ha hr hb low,
          split pos n a rest b ha hr hb low,
        )
        (chunks-follow i (pos + min n chunk) (n - min n chunk) (a ++ take (min n chunk) rest)
          (drop (min n chunk) rest) (drop (min n chunk) b) p k
          (omega (arith, length-append a (take (min n chunk) rest), length-take (min n chunk) rest))
          (omega (arith, length-drop (min n chunk) rest))
          (omega (arith, length-drop (min n chunk) b)) (omega arith) r')

pub length-writes {ℓ} :
    {A : Type ℓ} (i chunk : ℕ) (buf : List ℕ) (pos n : ℕ) (p : Prog A)
    → length (writes (send_chunks i chunk buf pos n p)) ≡ i + length (writes p)
unfolding send_chunks
length-writes zero chunk buf pos n p = omega arith
length-writes (suc i) chunk buf pos n p =
    omega (arith, length-writes i chunk buf (add32 pos (min n chunk)) (sub32 n (min n chunk)) p)

-- ===== src/Mem/Transfer/Inv.antt =====
-- The invariant of a transfer: the ring holds whole chunks, in front of those still to be written,
-- and the receiver that reads them one by one returns `b`.
use gaia_net.Base.{
  ℕ, zero, suc, ◌+◌, ◌*◌, ◌<◌, ◌≡◌, refl, ap, sym, subst, ◌∙◌, List, [], ◌∷◌, ◌++◌, append_assoc,
  some, arith, length, take, drop, length-append, length-take, take-append, drop-append,
}
use gaia_net.Mem.View
use gaia_net.Mem.View.{View}
use gaia_net.Mem.View.Inv.{IsValid}
use gaia_net.Mem.View.Fifo.{contents}
use gaia_net.Mem.View.Refine.{write-IsValid, read-IsValid}
use gaia_net.Mem.View.Trace.{buf_size-write, buf_size-read}
use gaia_net.Mem.View.Calls.{contents-write, contents-read, write_goes, read_goes}
use gaia_net.Mem.Channel.{Prog, done, abort, write, read}
use gaia_net.Mem.Transfer.{Link, Step, sends, receives}
use gaia_net.Mem.Transfer.Follow.{concat, concat-snoc, writes, IsWriter, follow, follow-read}

module _ {ℓ κ} {A : Type ℓ} {B : Type κ} (b : B) where
  -- `left` counts the blocking calls that are still to be made, on both sides.
  pub record Inv (left : ℕ) (s : Link A B) : Type κ where
    pub valid : IsValid s.view
    pub inside : List (List ℕ)
    pub held : contents s.view ≡ concat inside
    pub writer : IsWriter s.view.buf_size s.sender
    pub reader : follow s.receiver (inside ++ writes s.sender) ≡ some b
    pub count : left ≡ 2 * length (writes s.sender) + length inside

  send-Inv :
      (v w : View) (src : List ℕ) (n : ℕ) (k : Prog A) (q : Prog B) (m : ℕ)
      → Inv m (record { view = v; sender = write src n k; receiver = q })
      → View.write v src n ≡ some w
      → (m' : ℕ) × (m ≡ suc m') × Inv m' (record { view = w; sender = k; receiver = q })
  send-Inv v w src n k q m inv e = (
    2 * length (writes k) + length (inv.inside ++ c ∷ []),
    omega (arith, inv.count, length-append inv.inside (c ∷ [])),
    record {
      valid = write-IsValid inv.valid src n inv.writer.2 inv.writer.1 e;
      inside = inv.inside ++ c ∷ [];
      held =
          contents-write inv.valid src n inv.writer.2 inv.writer.1 w e
          ∙ ap (λ t. t ++ c) inv.held
          ∙ sym (concat-snoc inv.inside c);
      writer = rw (buf_size-write v src n e) inv.writer.3;
      reader = ap (follow q) (append_assoc inv.inside (c ∷ []) (writes k)) ∙ inv.reader;
      count = refl;
    },
  )
    where
      c : List ℕ
      c = take n src

  -- With nothing in the ring the reader waits for the first byte of the next chunk.
  read_early :
      (n : ℕ) (k : List ℕ → Prog B) (cap : ℕ) (p : Prog A)
      → IsWriter cap p
      → follow (read n k) (writes p) ≡ some b
      → 0 < n
  read_early n k cap (done a) w h = cc
  read_early n k cap abort w h = cc
  read_early n k cap (write src l p) w h =
      omega (arith, (follow-read b n k (take l src) (writes p) h).0, length-take l src)
  read_early n k cap (read l f) w h = cc

  receive_chunk :
      (v w : View) (p : Prog A) (n : ℕ) (k : List ℕ → Prog B) (m : ℕ) (bs : List ℕ)
      → (ins : List (List ℕ)) → IsValid v
      → contents v ≡ concat ins
      → IsWriter v.buf_size p
      → follow (read n k) (ins ++ writes p) ≡ some b
      → m ≡ 2 * length (writes p) + length ins
      → View.read v n ≡ some (bs, w)
      → (m' : ℕ) × (m ≡ suc m') × Inv m' (record { view = w; sender = p; receiver = k bs })
  receive_chunk v w p n k m bs [] ok held wr fol count e = absurd (
      omega
        (arith, (contents-read ok n bs w e).0, ap length held, read_early n k v.buf_size p wr fol))
  receive_chunk v w p n k m bs (c ∷ cs) ok held wr fol count e = (
    2 * length (writes p) + length cs,
    omega arith,
    record {
      valid = read-IsValid ok n e;
      inside = cs;
      held = (contents-read ok n bs w e).2 ∙ ap (drop n) held ∙ drop-append n c (concat cs) size;
      writer = rw (buf_size-read v n e) wr;
      reader = rw got (follow-read b n k c (cs ++ writes p) fol).1;
      count = refl;
    },
  )
    where
      size : length c ≡ n
      size = (follow-read b n k c (cs ++ writes p) fol).0

      got : bs ≡ c
      got = (contents-read ok n bs w e).1 ∙ ap (take n) held ∙ take-append n c (concat cs) size

  -- Each step keeps the invariant and leaves one call less to be made.
  pub Step-Inv : (m : ℕ) {s t : Link A B} → Inv m s → Step s t → (m' : ℕ) × (m ≡ suc m') × Inv m' t
  Step-Inv m {s} {t} inv (sends src n k w es ew et) = rw et (
      send-Inv s.view w src n k s.receiver m
        (subst (λ p. Inv m (record { view = s.view; sender = p; receiver = s.receiver })) es inv)
        ew)
  Step-Inv m {s} {t} inv (receives n k bs w es ew et) = rw et (
      receive_chunk s.view w s.sender n k m bs inv.inside inv.valid inv.held inv.writer
        (subst (λ q. follow q (inv.inside ++ writes s.sender) ≡ some b) es inv.reader) inv.count ew)

  -- A transfer that is not over can go on.
  progress_with :
      (v : View) (p : Prog A) (q : Prog B) (m : ℕ) (ins : List (List ℕ))
      → IsValid v
      → contents v ≡ concat ins
      → IsWriter v.buf_size p
      → follow q (ins ++ writes p) ≡ some b
      → suc m ≡ 2 * length (writes p) + length ins
      → (t : Link A B) × Step (record { view = v; sender = p; receiver = q }) t
  progress_with v (done a) q m [] ok held wr fol count = absurd (omega arith)
  progress_with v abort q m ins ok held wr fol count = absurd wr
  progress_with v (read n k) q m ins ok held wr fol count = absurd wr
  progress_with v (write src n k) q m [] ok held wr fol count =
      let (w, e) = write_goes ok src n wr.2 wr.1 (omega (arith, ap length held)) in
      (_, sends src n k w refl e refl)
  progress_with v p (done x) m (c ∷ cs) ok held wr fol count = cc
  progress_with v p abort m (c ∷ cs) ok held wr fol count = cc
  progress_with v p (write src n k) m (c ∷ cs) ok held wr fol count = cc
  progress_with v p (read n k) m (c ∷ cs) ok held wr fol count =
      let size = (follow-read b n k c (cs ++ writes p) fol).0 in
      let (bs, w, e) =
        read_goes ok n (omega (arith, ap length held, length-append c (concat cs))) in
      (_, receives n k bs w refl e refl)

  pub progress : (m : ℕ) {s : Link A B} → Inv (suc m) s → (t : Link A B) × Step s t
  progress m {s} inv =
      progress_with s.view s.sender s.receiver m inv.inside inv.valid inv.held inv.writer inv.reader
        inv.count

  -- Both programs have run to their end, and the ring is empty.
  pub record Finished (s : Link A B) : Type (ℓ ⊔ κ) where
    pub sent : (a : A) × (s.sender ≡ done a)
    pub received : s.receiver ≡ done b
    pub drained : contents s.view ≡ []

  over_with :
      (v : View) (p : Prog A) (q : Prog B) (ins : List (List ℕ))
      → contents v ≡ concat ins
      → IsWriter v.buf_size p
      → follow q (ins ++ writes p) ≡ some b
      → 0 ≡ 2 * length (writes p) + length ins
      → Finished (record { view = v; sender = p; receiver = q })
  over_with v (done a) (done x) [] held wr fol count = record {
    sent = (a, refl);
    received = ground arith;
    drained = held;
  }
  over_with v (done a) abort [] held wr fol count = cc
  over_with v (done a) (write src n k) [] held wr fol count = cc
  over_with v (done a) (read n k) [] held wr fol count = cc
  over_with v abort q ins held wr fol count = absurd wr
  over_with v (write src n k) q ins held wr fol count = absurd (omega arith)
  over_with v (read n k) q ins held wr fol count = absurd wr
  over_with v (done a) q (c ∷ cs) held wr fol count = absurd (omega arith)

  pub over : {s : Link A B} → Inv zero s → Finished s
  over {s} inv =
      over_with s.view s.sender s.receiver inv.inside inv.held inv.writer inv.reader inv.count

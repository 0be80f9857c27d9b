-- ===== src/Mem/View/Trace.antt =====
-- Any sequence of attempts on a view, by either side, against the bounded queue.
use mathlib.Core.Option
use gaia_net.Base.{
  ℕ, ◌≤◌, ◌≡◌, refl, ap, ap₂, sym, ◌∙◌, List, [], ◌∷◌, Option, none, some, arith, length,
  take-length, Option-cases, inl, inr,
}
use gaia_net.Mem.Queue
use gaia_net.Mem.Queue.{Op, Reply, put_reply, get_reply}
use gaia_net.Mem.View.{View, put, get, read, write}
use gaia_net.Mem.View.Inv.{IsValid}
use gaia_net.Mem.View.Fifo.{contents}
use gaia_net.Mem.View.Refine.{write_refines, write-IsValid, read_refines, read-IsValid}

unfoldable pub step : View → Op → Reply × View
step v (Op.put bs) = put_reply v (write v bs (length bs))
step v (Op.get n) = get_reply v (read v n)

unfoldable pub run : View → List Op → List Reply
run v [] = []
run v (op ∷ ops) = let (r, w) = step v op in r ∷ run w ops

-- Every write fits into an empty ring.
abbrev pub Fits : ℕ → List Op → Type 0
Fits cap [] = Unit {0}
Fits cap (Op.put bs ∷ ops) = (length bs ≤ cap) × Fits cap ops
Fits cap (Op.get n ∷ ops) = Fits cap ops

put_reply-map :
    (v : View) (o : Option View)
    → put_reply (contents v) (Option.map contents o)
      ≡ ((put_reply v o).0, contents (put_reply v o).1)
put_reply-map v none = refl
put_reply-map v (some w) = refl

get_reply-map :
    (v : View) (o : Option (List ℕ × View))
    → get_reply (contents v) (Option.map (λ p. (p.0, contents p.1)) o)
      ≡ ((get_reply v o).0, contents (get_reply v o).1)
get_reply-map v none = refl
get_reply-map v (some (bs, w)) = refl

abbrev Keeps : View → View → Type 0
Keeps v w = IsValid w × (w.buf_size ≡ v.buf_size)

pub buf_size-write :
    (v : View) (bs : List ℕ) (n : ℕ) {w : View} → write v bs n ≡ some w → w.buf_size ≡ v.buf_size
unfolding write put
buf_size-write v bs n e = ground arith

pub buf_size-read :
    (v : View) (n : ℕ) {bs : List ℕ} {w : View} → read v n ≡ some (bs, w) → w.buf_size ≡ v.buf_size
unfolding read get
buf_size-read v n e = ground arith

put_reply-Keeps :
    {v : View} (ok : IsValid v) (bs : List ℕ)
    → length bs ≤ v.buf_size
    → Keeps v (put_reply v (write v bs (length bs))).1
put_reply-Keeps {v} ok bs h = elim (Option-cases (write v bs (length bs))) [
  | inl e ↦ rw e (ok, refl)
  | inr (w, e) ↦
      rw e (write-IsValid ok bs (length bs) h (omega arith) e, buf_size-write v bs (length bs) e)
]

get_reply-Keeps : {v : View} (ok : IsValid v) (n : ℕ) → Keeps v (get_reply v (read v n)).1
get_reply-Keeps {v} ok n = elim (Option-cases (read v n)) [
  | inl e ↦ rw e (ok, refl)
  | inr ((bs, w), e) ↦ rw e (read-IsValid ok n e, buf_size-read v n e)
]

-- One attempt answers as the queue does, and leaves a valid view of the queue's new content.
put_refines :
    {v : View} (ok : IsValid v) (bs : List ℕ)
    → length bs ≤ v.buf_size
    → let (r, w) = step v (Op.put bs) in
      (r, contents w) ≡ Queue.step v.buf_size (contents v) (Op.put bs)
unfolding step
put_refines {v} ok bs h =
    sym (put_reply-map v (write v bs (length bs)))
    ∙ ap (put_reply (contents v)) (
        write_refines ok bs (length bs) h (omega arith)
        ∙ ap (Queue.write v.buf_size (contents v)) (take-length (length bs) bs (omega arith)))

get_refines :
    {v : View} (ok : IsValid v) (n : ℕ)
    → let (r, w) = step v (Op.get n) in
      (r, contents w) ≡ Queue.step v.buf_size (contents v) (Op.get n)
unfolding step
get_refines {v} ok n =
    sym (get_reply-map v (read v n)) ∙ ap (get_reply (contents v)) (read_refines ok n)

step-Keeps-put :
    {v : View} (ok : IsValid v) (bs : List ℕ)
    → length bs ≤ v.buf_size
    → Keeps v (step v (Op.put bs)).1
unfolding step
step-Keeps-put ok bs h = put_reply-Keeps ok bs h

step-Keeps-get : {v : View} (ok : IsValid v) (n : ℕ) → Keeps v (step v (Op.get n)).1
unfolding step
step-Keeps-get ok n = get_reply-Keeps ok n

-- For any sequence of reads and writes, none of the writes longer than the ring, a valid view gives
-- the same answers as the bounded queue of its contents: the same calls wait, and each read that
-- does not wait gets the same bytes.
pub run_refines :
    (ops : List Op) {v : View}
    → IsValid v
    → Fits v.buf_size ops
    → run v ops ≡ Queue.run v.buf_size (contents v) ops
unfolding run Queue.run
run_refines [] ok h = refl
run_refines (Op.put bs ∷ ops) {v} ok h =
    let k = step-Keeps-put ok bs h.0 in
    ap₂ ◌∷◌ (ap (λ p. p.0) (put_refines ok bs h.0)) (
      run_refines ops k.0 (rw k.1 h.1)
      ∙ ap₂ (λ c q. Queue.run c q ops) k.1 (ap (λ p. p.1) (put_refines ok bs h.0)))
run_refines (Op.get n ∷ ops) {v} ok h =
    let k = step-Keeps-get ok n in
    ap₂ ◌∷◌ (ap (λ p. p.0) (get_refines ok n)) (
      run_refines ops k.0 (rw k.1 h)
      ∙ ap₂ (λ c q. Queue.run c q ops) k.1 (ap (λ p. p.1) (get_refines ok n)))

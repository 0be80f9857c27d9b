-- ===== src/Mem/View/Calls.antt =====
-- When a blocking call goes through, and what it does then, in terms of `contents`.
use gaia_net.Base.{ℕ, ◌+◌, ◌≤◌, ◌≡◌, ap, sym, ◌∙◌, List, ◌++◌, some, arith, length, take, drop}
use mathlib.Core.Option
use gaia_net.Mem.View.{View, put, get, can_put, can_get, read, write}
use gaia_net.Mem.View.Inv.{IsValid}
use gaia_net.Base.Word.{IsPow2-lt}
use gaia_net.Mem.View.Fifo.{contents, length-contents}
use gaia_net.Mem.View.Refine.{write_refines, read_refines}

module _ {v : View} (ok : IsValid v) (src : List ℕ) (n : ℕ) (fits : n ≤ v.buf_size)
    (enough : n ≤ length src) where
  pub contents-write : (w : View) → write v src n ≡ some w → contents w ≡ contents v ++ take n src
  contents-write w e =
      let same = ap (Option.map contents) (sym e) ∙ write_refines ok src n fits enough in
      ground (arith, same)

  pub write_goes : length (contents v) + n ≤ v.buf_size → (w : View) × (write v src n ≡ some w)
  unfolding write can_put
  write_goes h = (put v src n, ground (arith, length-contents v, IsPow2-lt ok.pow2))

module _ {v : View} (ok : IsValid v) (n : ℕ) where
  pub contents-read :
      (bs : List ℕ) (w : View)
      → read v n ≡ some (bs, w)
      → (n ≤ length (contents v)) × (bs ≡ take n (contents v)) × (contents w ≡ drop n (contents v))
  contents-read bs w e =
      let same =
        ap (Option.map (λ (p : List ℕ × View). (p.0, contents p.1))) (sym e) ∙ read_refines ok n in
      ground (arith, same)

  pub read_goes : n ≤ length (contents v) → (bs : List ℕ) × (w : View) × (read v n ≡ some (bs, w))
  unfolding read can_get
  read_goes h = ((get v n).0, (get v n).1, ground (arith, length-contents v))

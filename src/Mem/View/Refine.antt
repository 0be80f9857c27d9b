-- ===== src/Mem/View/Refine.antt =====
-- A valid view behaves as the bounded queue of its contents.
use mathlib.Core.Option
use gaia_net.Base.{
  ℕ, ◌+◌, ◌≤◌, ◌≡◌, ap, ◌∙◌, true, inl, inr, List, ◌++◌, some, arith, min, length, take, drop,
  length-take, leb, Bool-cases,
}
use gaia_net.Base.Word.{IsPow2-lt}
use gaia_net.Mem.Queue
use gaia_net.Mem.Queue.{Queue, Op, Reply, put_reply, get_reply}
use gaia_net.Mem.View.{View, put, get, can_put, can_get, read, write}
use gaia_net.Mem.View.Inv.{IsValid, used}
use gaia_net.Mem.View.Fifo.{
  contents, clip, length-contents, contents-put, put-IsValid, bytes-get, contents-get, get-IsValid,
}

-- A write that is not longer than the ring.
module _ {v : View} (ok : IsValid v) (src : List ℕ) (n : ℕ) (fits : n ≤ v.buf_size)
    (enough : n ≤ length src) where
  can_put_lem : can_put v n ≡ leb (length (contents v) + length (take n src)) v.buf_size
  unfolding can_put
  can_put_lem = ground (arith, length-contents v, length-take n src, ok.fits, IsPow2-lt ok.pow2)

  clip_lem : can_put v n ≡ true → clip v n ≡ n
  unfolding can_put
  clip_lem h = ground (arith, ok.fits, IsPow2-lt ok.pow2)

  put-append : can_put v n ≡ true → contents (put v src n) ≡ contents v ++ take n src
  put-append h =
      contents-put ok src n (omega arith) ∙ ap (λ k. contents v ++ take k src) (clip_lem h)

  -- `write` waits exactly while the bytes do not fit, and else appends all of them.
  pub write_refines :
      Option.map contents (write v src n) ≡ Queue.write v.buf_size (contents v) (take n src)
  unfolding write
  write_refines = elim (Bool-cases (can_put v n)) [
    | inl h ↦ rw (← can_put_lem, h) (ap some (put-append h))
    | inr h ↦ rw (← can_put_lem, h)
  ]

  pub write-IsValid : {w : View} → write v src n ≡ some w → IsValid w
  unfolding write
  write-IsValid h = ground (arith, put-IsValid ok src n (omega arith))

module _ {v : View} (ok : IsValid v) (n : ℕ) where
  can_get_lem : can_get v n ≡ leb n (length (contents v))
  unfolding can_get
  can_get_lem = rw (length-contents v)

  all_there : can_get v n ≡ true → min n (used v) ≡ n
  unfolding can_get
  all_there h = ground arith

  -- `read` waits exactly while there are fewer bytes, and else takes the oldest.
  pub read_refines : Option.map (λ p. (p.0, contents p.1)) (read v n) ≡ Queue.read (contents v) n
  unfolding read
  read_refines = elim (Bool-cases (can_get v n)) [
    | inl h ↦ rw (← can_get_lem, h) (ap some (pair h))
    | inr h ↦ rw (← can_get_lem, h)
  ]
    where
      pair :
          can_get v n ≡ true
          → ◌≡◌ {A = List ℕ × Queue}
              ((get v n).0, contents (get v n).1)
              (take n (contents v), drop n (contents v))
      pair h = λ i. (
        (bytes-get ok n ∙ ap (λ k. take k (contents v)) (all_there h)) i,
        (contents-get ok n ∙ ap (λ k. drop k (contents v)) (all_there h)) i,
      )

  pub read-IsValid : {bs : List ℕ} {w : View} → read v n ≡ some (bs, w) → IsValid w
  unfolding read
  read-IsValid h = ground (arith, get-IsValid ok n)

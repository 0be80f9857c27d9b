-- ===== src/Mem/Transfer/Message.antt =====
-- One message through an empty ring: `send` on one side, `recv` on the other.
use gaia_net.Base.{
  ℕ, ◌+◌, ◌-◌, ◌*◌, ◌%◌, ◌^◌, ◌≤◌, ◌<◌, ◌≡◌, refl, sym, List, [], none, some, arith, length, take,
  take-length, inl, inr, Bool-cases, ◌==◌, ==_iff, if◌then◌else◌,
}
use native.Mathlib.Nat.{div-eq_of_lt}
use gaia_net.Base.Word.{IsPow2, IsPow2-lt, u32_mod, add32, sub32}
use gaia_net.Base.Bytes.{encode32, decode32, length-encode32, decode32-encode32}
use gaia_net.IChannel.{IChannel, statistics_send, statistics_recv}
use gaia_net.Mem.View.{View}
use gaia_net.Mem.View.Inv.{IsValid}
use gaia_net.Mem.View.Fifo.{contents}
use gaia_net.Mem.Channel.{
  done, chunk_cnt, send, send_chunks, recv, recv_body, recv_chunks, recv_exact,
}
use gaia_net.Mem.Transfer.{Link, Steps}
use gaia_net.Mem.Transfer.Follow.{writes, IsWriter, follow}
use gaia_net.Mem.Transfer.Inv.{Inv}
use gaia_net.Mem.Transfer.Deliver.{Outcome, steps_outcome}
use gaia_net.Mem.Transfer.Chunks.{
  Rounds, chunk_cnt-Rounds, chunks-IsWriter, chunks-follow, length-writes,
}

pub whole_header : (n : ℕ) → take 4 (encode32 n) ≡ encode32 n
whole_header n = take-length 4 _ (omega (arith, length-encode32 n))

module _ (size : ℕ) (pow2 : IsPow2 size) (least : 8 ≤ size) (msg : List ℕ)
    (low : length msg < 2 ^ 31) where
  pub rounds : Rounds size (chunk_cnt (length msg) size) (length msg)
  rounds = chunk_cnt-Rounds (length msg) size (omega arith) (omega (arith, IsPow2-lt pow2))

  pub word : length msg % u32_mod ≡ length msg
  word = omega arith

  pub send-IsWriter : (c : IChannel) → IsWriter size (send size c msg (length msg))
  unfolding send
  send-IsWriter c = rw word (
    omega arith,
    omega (arith, length-encode32 (length msg)),
    omega arith,
    chunks-IsWriter size (omega arith) (IsPow2-lt pow2) (chunk_cnt (length msg) size) 0 (length msg)
        [] msg (done (statistics_send c (length msg))) refl refl (omega arith) rounds tt,
  )

  pub length-send :
      (c : IChannel)
      → length (writes (send size c msg (length msg))) ≡ 1 + chunk_cnt (length msg) size
  unfolding send
  length-send c = rw word (
      omega (
        arith,
        length-writes (chunk_cnt (length msg) size) size msg 0 (length msg)
            (done (statistics_send c (length msg))),
      ))

  body_follow :
      (c d : IChannel) (buf : List ℕ)
      → length buf ≡ length msg
      → follow (recv_body size d buf (length msg)) (
          writes (
            send_chunks
              (chunk_cnt (length msg) size)
              size
              msg
              0
              (length msg)
              (done (statistics_send c (length msg)))))
        ≡ some (statistics_recv d (length msg), msg)
  unfolding recv_body
  body_follow c d buf h = rw word (
      chunks-follow size (omega arith) (IsPow2-lt pow2) (chunk_cnt (length msg) size) 0 (length msg)
        [] msg buf (done (statistics_send c (length msg)))
        (λ filled. done (statistics_recv d (length msg), filled)) refl refl h (omega arith) rounds)

  header : decode32 (encode32 (length msg)) ≡ length msg
  header = decode32-encode32 (length msg) (omega arith)

  pub recv-send :
      (c d : IChannel) (resized : ℕ → List ℕ)
      → ((m : ℕ) → length (resized m) ≡ m)
      → follow (recv size d resized) (writes (send size c msg (length msg)))
        ≡ some (statistics_recv d (length msg), msg)
  unfolding send recv
  recv-send c d resized h =
      rw (word, whole_header (length msg), length-encode32 (length msg), header, h (length msg))
        (body_follow c d (resized (length msg)) (h (length msg)))

  -- On a ring of a power-of-two size from 8 on: of what `send` writes for a message shorter than 2
  -- GiB, `recv(buf, length)` gets the message exactly when it is told its length, and otherwise
  -- fails its assertion.
  pub recv_exact-send :
      (c d : IChannel) (buf : List ℕ)
      → follow (recv_exact size d buf (length buf)) (writes (send size c msg (length msg)))
        ≡ (if length msg == length buf then some (statistics_recv d (length msg), msg) else none)
  unfolding send recv_exact
  recv_exact-send c d buf = elim (Bool-cases (length msg == length buf)) [
    | inl e ↦
        let same : length buf ≡ length msg = sym ((==_iff _ _).0 e) in
        rw (word, whole_header (length msg), length-encode32 (length msg), header, e, same)
          (body_follow c d buf same)
    | inr e ↦ rw (word, whole_header (length msg), length-encode32 (length msg), header, e)
  ]

  start-Inv :
      (v : View) (c d : IChannel) (resized : ℕ → List ℕ)
      → IsValid v
      → v.buf_size ≡ size
      → contents v ≡ []
      → ((m : ℕ) → length (resized m) ≡ m)
      → Inv
          (statistics_recv d (length msg), msg)
          (2 * (1 + chunk_cnt (length msg) size))
          (record {
            view = v;
            sender = send size c msg (length msg);
            receiver = recv size d resized;
          })
  start-Inv v c d resized ok eq empty h = record {
    valid = ok;
    inside = [];
    held = empty;
    writer = rw eq (send-IsWriter c);
    reader = recv-send c d resized h;
    count = omega (arith, length-send c);
  }

  -- `send` of a message shorter than 2 GiB on one side of an empty valid ring, of any power-of-two
  -- size from 8 on and with counters anywhere, and `recv` on the other side, in any interleaving:
  -- a run has at most two blocking calls for the header and for each chunk; before that many calls
  -- are made one side can go on, and then both have returned, the receiver with the message and
  -- with its counters updated, and the ring is empty. The string's new bytes are arbitrary.
  pub message_delivered :
      (v : View) (c d : IChannel) (resized : ℕ → List ℕ) {n : ℕ}
      {t : Link IChannel (IChannel × List ℕ)}
      → IsValid v
      → v.buf_size ≡ size
      → contents v ≡ []
      → ((m : ℕ) → length (resized m) ≡ m)
      → Steps n
          (record {
            view = v;
            sender = send size c msg (length msg);
            receiver = recv size d resized;
          })
          t
      → Outcome (statistics_recv d (length msg), msg) (2 * (1 + chunk_cnt (length msg) size)) n t
  message_delivered v c d resized {n} ok eq empty h steps =
      steps_outcome _ _ n (start-Inv v c d resized ok eq empty h) steps

chunk_cnt_wraps : (size n : ℕ) → IsPow2 size → n < 2 ^ 32 → 2 ^ 32 < n + size → chunk_cnt n size ≡ 0
unfolding chunk_cnt
chunk_cnt_wraps size n p small near =
    let e : sub32 (add32 n size) 1 ≡ n + size - 2 ^ 32 - 1 = omega (arith, IsPow2-lt p) in
    rw e (div-eq_of_lt (omega arith))

-- A message whose length comes within one ring size of 2 ^ 32: the rounded-up division wraps, so
-- `send` writes the header alone, and `recv` returns the string as it was resized, with none of the
-- message in it, and counts it as received.
pub send_near_limit :
    (size : ℕ) (c d : IChannel) (buf : List ℕ) (n : ℕ) (resized : ℕ → List ℕ)
    → IsPow2 size
    → n < 2 ^ 32
    → 2 ^ 32 < n + size
    → ((m : ℕ) → length (resized m) ≡ m)
    → follow (recv size d resized) (writes (send size c buf n))
      ≡ some (statistics_recv d n, resized n)
unfolding send recv recv_body send_chunks recv_chunks
send_near_limit size c d buf n resized p small near h =
    let same : n % u32_mod ≡ n = omega arith in
    rw
      (
        same,
        whole_header n,
        length-encode32 n,
        decode32-encode32 n small,
        h n,
        same,
        chunk_cnt_wraps size n p small near,
      )
      refl

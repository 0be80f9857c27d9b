-- ===== src/Mem/Transfer/Bounds.antt =====
-- Which memory `send` reads, and what it writes.
use gaia_net.Base.{
  ℕ, zero, suc, ◌+◌, ◌-◌, ◌^◌, ◌≤◌, ◌<◌, min, ◌≡◌, refl, ap, sym, ◌∙◌, List, [], ◌++◌, append_assoc,
  append-nil, arith, length, take, drop, length-append, length-take, length-drop, take-append-drop,
}
use gaia_net.Base.Word.{IsPow2, IsPow2-lt, add32, sub32}
use gaia_net.Base.Bytes.{encode32}
use gaia_net.IChannel.{IChannel, statistics_send}
use gaia_net.Mem.Channel.{Prog, done, send, send_chunks, chunk_cnt}
use gaia_net.Mem.Transfer.Follow.{concat, writes, IsWriter}
use gaia_net.Mem.Transfer.Chunks.{
  Rounds, Rounds-pred, Rounds-zero, nil_of_length, at_offset_lem, split,
}
use gaia_net.Mem.Transfer.Message.{rounds, word, whole_header, send-IsWriter, length-send}

module _ (chunk : ℕ) (pos_chunk : 0 < chunk) (small : chunk < 2 ^ 31) where
  -- The blocks of the loop are the rest of the body.
  concat-chunks {ℓ} :
      {A : Type ℓ} (i pos n : ℕ) (a rest : List ℕ) (p : Prog A)
      → length a ≡ pos
      → length rest ≡ n
      → pos + n < 2 ^ 31
      → Rounds chunk i n
      → concat (writes (send_chunks i chunk (a ++ rest) pos n p)) ≡ rest ++ concat (writes p)
  unfolding send_chunks
  concat-chunks zero pos n a rest p ha hr low r =
      let none_left : n ≡ 0 = Rounds-zero chunk n r in rw (nil_of_length rest (omega arith))
  concat-chunks (suc i) pos n a rest p ha hr low r =
      let (more, r') = Rounds-pred chunk i n pos_chunk r in
      let next : add32 pos (min n chunk) ≡ pos + min n chunk = omega arith in
      let left : sub32 n (min n chunk) ≡ n - min n chunk = omega arith in
      rw
        (
          at_offset_lem chunk pos_chunk small pos n a rest rest ha hr hr low,
          next,
          left,
          split chunk pos_chunk small pos n a rest rest ha hr hr low,
        )
        (ap (◌++◌ (take (min n chunk) rest)) (
            concat-chunks i (pos + min n chunk) (n - min n chunk) (a ++ take (min n chunk) rest)
              (drop (min n chunk) rest) p
              (omega
                (arith, length-append a (take (min n chunk) rest), length-take (min n chunk) rest))
              (omega (arith, length-drop (min n chunk) rest)) (omega arith) r')
          ∙ sym
              (append_assoc (take (min n chunk) rest) (drop (min n chunk) rest) (concat (writes p)))
          ∙ ap (λ t. t ++ concat (writes p)) (take-append-drop (min n chunk) rest))

-- `send` of a message shorter than 2 GiB to a ring of a power-of-two size from 8 on: every block that
-- it writes has at least one byte and at most as many as the ring, and is read from within the message
-- or the header; there is one for the header and as many more as full rings cover the message and
-- one less do not; and the blocks are together the length in four bytes and then the message.
pub send_bounds :
    (size : ℕ) (msg : List ℕ) (c : IChannel)
    → IsPow2 size
    → 8 ≤ size
    → length msg < 2 ^ 31
    → IsWriter size (send size c msg (length msg))
      × (length (writes (send size c msg (length msg))) ≡ 1 + chunk_cnt (length msg) size)
      × Rounds size (chunk_cnt (length msg) size) (length msg)
      × (concat (writes (send size c msg (length msg))) ≡ encode32 (length msg) ++ msg)
unfolding send
send_bounds size msg c pow2 least low = (
  send-IsWriter size pow2 least msg low c,
  length-send size pow2 least msg low c,
  rounds size pow2 least msg low,
  rw (word size pow2 least msg low, whole_header (length msg))
      (ap (◌++◌ (encode32 (length msg))) (
        concat-chunks size (omega arith) (IsPow2-lt pow2) (chunk_cnt (length msg) size) 0
          (length msg) [] msg (done (statistics_send c (length msg))) refl refl (omega arith)
          (rounds size pow2 least msg low)
        ∙ append-nil msg)),
)

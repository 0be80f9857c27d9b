-- ===== src/Mem/Channel.antt =====
-- `MemChannel::send` and `MemChannel::recv` of src/memchannel.cpp, after the attach: a header of
-- four bytes with the length, then the body in chunks of the ring's size. Each is a program over
-- the blocking calls of the view that it uses.
use gaia_net.Base.{
  ℕ, zero, suc, ◌/◌, ◌%◌, ◌^◌, min, List, [], if◌then◌else◌, ltb, ◌==◌, drop, length,
}
use gaia_net.Base.Word.{u32_mod, add32, sub32}
use gaia_net.Base.Bytes.{encode32, decode32}
use gaia_net.IChannel.{IChannel, statistics_send, statistics_recv}
use gaia_net.Mem.View.{memcpy_at}

-- A run of code up to its next blocking call: `view->write(src, n)`, or `view->read(_, n)`, which
-- hands the bytes to the rest. `abort` is a failed assertion.
pub data Prog {ℓ} (A : Type ℓ) : Type ℓ where
  done : A → Prog A
  abort : Prog A
  write : List ℕ → ℕ → Prog A → Prog A
  read : ℕ → (List ℕ → Prog A) → Prog A

-- `int chunk_cnt = (body_len + chunk_size - 1) / chunk_size`, on unsigned words.
unfoldable pub chunk_cnt : ℕ → ℕ → ℕ
chunk_cnt body_len chunk_size = sub32 (add32 body_len chunk_size) 1 / chunk_size

-- The memory at `buf + pos` for an `int pos`, kept as its bit pattern. Where it is negative no
-- byte of the buffer is meant.
abbrev pub at_offset : List ℕ → ℕ → List ℕ
at_offset buf pos = if ltb pos (2 ^ 31) then drop pos buf else []

-- The bytes that arrive at `buf + pos`.
abbrev pub store_at : List ℕ → ℕ → List ℕ → List ℕ
store_at buf pos bytes = if ltb pos (2 ^ 31) then memcpy_at buf pos bytes else buf

-- The loop of `send`, with the rounds left. `k` is what comes after it.
unfoldable pub send_chunks {ℓ} : {A : Type ℓ} → ℕ → ℕ → List ℕ → ℕ → ℕ → Prog A → Prog A
send_chunks zero chunk_size buf pos body_len k = k
send_chunks (suc i) chunk_size buf pos body_len k =
    let len : ℕ = min body_len chunk_size in
    write (at_offset buf pos) len
      (send_chunks i chunk_size buf (add32 pos len) (sub32 body_len len) k)

-- `send(buf, nbytes)`.
unfoldable pub send : ℕ → IChannel → List ℕ → ℕ → Prog IChannel
send buf_size c buf nbytes =
    let body_len : ℕ = nbytes % u32_mod in
    write (encode32 body_len) 4 (
      send_chunks (chunk_cnt body_len buf_size) buf_size buf 0 body_len
        (done (statistics_send c nbytes)))

-- The loop of `recv_body`.
unfoldable pub recv_chunks {ℓ} : {A : Type ℓ} → ℕ → ℕ → List ℕ → ℕ → ℕ → (List ℕ → Prog A) → Prog A
recv_chunks zero chunk_size buf pos body_len k = k buf
recv_chunks (suc i) chunk_size buf pos body_len k =
    let len : ℕ = min body_len chunk_size in
    read len λ bytes.
      recv_chunks i chunk_size (store_at buf pos bytes) (add32 pos len) (sub32 body_len len) k

-- `recv_body(buf, length)`: the buffer as it leaves it, and the counters.
unfoldable pub recv_body : ℕ → IChannel → List ℕ → ℕ → Prog (IChannel × List ℕ)
recv_body buf_size c buf n =
    let body_len : ℕ = n % u32_mod in
    recv_chunks (chunk_cnt body_len buf_size) buf_size buf 0 body_len
      λ filled. done (statistics_recv c n, filled)

-- `recv(str)`. `resized n` is the string after `fast_resize` to `n`, its bytes not initialised.
unfoldable pub recv : ℕ → IChannel → (ℕ → List ℕ) → Prog (IChannel × List ℕ)
recv buf_size c resized =
    read 4 λ header. let str = resized (decode32 header) in recv_body buf_size c str (length str)

-- `recv(buf, length)`: the length in the header is asserted.
unfoldable pub recv_exact : ℕ → IChannel → List ℕ → ℕ → Prog (IChannel × List ℕ)
recv_exact buf_size c buf n =
    read 4 λ header. if decode32 header == n then recv_body buf_size c buf n else abort

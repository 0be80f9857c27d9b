-- ===== src/Channel/Copies.antt =====
-- The calls of src/channel.cpp that copy between the caller's memory and the strings of `real_send` and
-- `real_recv`, with and without compression.
pub mod Exchange
use gaia_net.Base.{ℕ, Bool, true, false, List, Option, none, some, leb, length, take, if◌then◌else◌}
use gaia_net.Base.Int.{ℤ}
use gaia_net.IChannel.{IChannel}
use gaia_net.Rpc.Client.{Client}
use gaia_net.Channel
use gaia_net.Channel.{Finished, failed_with, crash, pending, success, real_send}
use gaia_net.Channel.Frame.{Lz4, get_lz4_compress_str, get_lz4_decompress_str}
use gaia_net.Channel.Receive
use gaia_net.Channel.Receive.{real_recv}

-- `send(const void*, uint64_t)`, of memory with at least `nbytes` bytes.
unfoldable pub send_buffer : IChannel → Client → List ℕ → ℕ → (ℕ → Channel.Attempt) → Finished
send_buffer net c buf nbytes attempt = real_send net c (take nbytes buf) attempt

-- `send(std::string&)`.
unfoldable pub send_string : IChannel → Client → List ℕ → (ℕ → Channel.Attempt) → Finished
send_string net c str attempt = real_send net c str attempt

-- `send_with_compress(const void*, uint64_t)`.
unfoldable pub send_with_compress :
    Lz4 → IChannel → Client → List ℕ → ℕ → (ℕ → Channel.Attempt) → Finished
send_with_compress lz4 net c buf nbytes attempt =
    real_send net c (get_lz4_compress_str lz4 (take nbytes buf)) attempt

-- `send_with_compress(const std::string&)`.
unfoldable pub send_string_with_compress :
    Lz4 → IChannel → Client → List ℕ → (ℕ → Channel.Attempt) → Finished
send_string_with_compress lz4 net c str attempt =
    send_with_compress lz4 net c str (length str) attempt

-- What a receiving call comes to: the end of `real_recv`, an exception of its own, memory read beyond
-- the end of the string, or what the caller gets.
pub data Copied : Type 0 where
  ended : Finished → Copied
  threw : Copied
  overrun : Copied
  copied : IChannel → Client → List ℕ → Copied

abbrev pub on_received : Finished → (IChannel → Client → List ℕ → Copied) → Copied
on_received failed_with go = ended failed_with
on_received crash go = ended crash
on_received pending go = ended pending
on_received (success net c str) go = go net c str

abbrev pub copy_out : ℕ → IChannel → Client → List ℕ → Copied
copy_out n net c str = if leb n (length str) then copied net c (take n str) else overrun

abbrev pub on_plain : Option (List ℕ) → IChannel → Client → Copied
on_plain none net c = threw
on_plain (some plain) net c = copied net c plain

abbrev pub on_copied : Copied → (IChannel → Client → List ℕ → Copied) → Copied
on_copied (ended f) go = ended f
on_copied threw go = threw
on_copied overrun go = overrun
on_copied (copied net c str) go = go net c str

-- `recv(void*, uint64_t)`.
unfoldable pub recv_buffer : IChannel → ℤ → Client → ℕ → (ℕ → Receive.Attempt) → Copied
recv_buffer net timeout c n attempt = on_received (real_recv net timeout c attempt) (copy_out n)

-- `recv(std::string&)`.
unfoldable pub recv_string : IChannel → ℤ → Client → (ℕ → Receive.Attempt) → Copied
recv_string net timeout c attempt = on_received (real_recv net timeout c attempt) copied

-- `recv_with_decompress(std::string&)`.
unfoldable pub recv_string_with_decompress :
    Lz4 → IChannel → ℤ → Client → (ℕ → Receive.Attempt) → Copied
recv_string_with_decompress lz4 net timeout c attempt =
    on_received (real_recv net timeout c attempt)
      (λ net' c' frame. on_plain (get_lz4_decompress_str lz4 frame) net' c')

-- `recv_with_decompress(void*, uint64_t)`.
unfoldable pub recv_with_decompress :
    Lz4 → IChannel → ℤ → Client → ℕ → (ℕ → Receive.Attempt) → Copied
recv_with_decompress lz4 net timeout c n attempt =
    on_copied (recv_string_with_decompress lz4 net timeout c attempt) (copy_out n)

-- ===== src/Channel/Copies/Exchange.antt =====
-- Compressed text from one side to the other.
use gaia_net.Base.{ℕ, ◌≤◌, ◌≡◌, ap, ◌∙◌, List, length, take, take-length, leb, if◌then◌else◌, arith}
use gaia_net.Base.Int.{ℤ}
use gaia_net.IChannel.{IChannel}
use gaia_net.Rpc.Client.{Client}
use gaia_net.Channel
use gaia_net.Channel.{success, real_send}
use gaia_net.Channel.Frame.{Lz4, get_lz4_compress_str, get_lz4_decompress_str}
use gaia_net.Channel.Frame.RoundTrip.{max_input, Inverts, decompress-compress}
use gaia_net.Channel.Receive
use gaia_net.Channel.Receive.{real_recv}
use gaia_net.Channel.Copies.{
  send_with_compress, overrun, copied, on_received, copy_out, on_plain, on_copied,
  recv_string_with_decompress, recv_with_decompress,
}

-- With an LZ4 that inverts its own compression, and a text within its limit: `send_with_compress` of
-- the whole text sends its frame; and where a `real_recv` gets that frame, `recv_with_decompress`
-- into a string gives the text, and into memory the first `n` bytes of it, or it reads beyond the
-- end of the text when that has fewer.
pub compressed_exchange :
    (lz4 : Lz4) (plain : List ℕ) (net : IChannel) (c : Client) (sent : ℕ → Channel.Attempt)
    (peer : IChannel) (timeout : ℤ) (d : Client) (attempt : ℕ → Receive.Attempt) (peer' : IChannel)
    (d' : Client) (n : ℕ)
    → Inverts lz4
    → length plain ≤ max_input
    → real_recv peer timeout d attempt ≡ success peer' d' (get_lz4_compress_str lz4 plain)
    → (send_with_compress lz4 net c plain (length plain) sent
        ≡ real_send net c (get_lz4_compress_str lz4 plain) sent)
      × (recv_string_with_decompress lz4 peer timeout d attempt ≡ copied peer' d' plain)
      × (recv_with_decompress lz4 peer timeout d n attempt
          ≡ (if leb n (length plain) then copied peer' d' (take n plain) else overrun))
unfolding send_with_compress recv_string_with_decompress recv_with_decompress
compressed_exchange lz4 plain net c sent peer timeout d attempt peer' d' n inverts small got_frame =
    let whole : recv_string_with_decompress lz4 peer timeout d attempt ≡ copied peer' d' plain =
      ap (λ f. on_received f (λ x y frame. on_plain (get_lz4_decompress_str lz4 frame) x y))
        got_frame
      ∙ ap (λ o. on_plain o peer' d') (decompress-compress lz4 plain inverts small) in
    (
      ap (λ text. real_send net c (get_lz4_compress_str lz4 text) sent)
          (take-length (length plain) plain (omega arith)),
      whole,
      ap (λ o. on_copied o (copy_out n)) whole,
    )

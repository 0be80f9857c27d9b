-- ===== src/Channel/Frame/RoundTrip.antt =====
-- A frame is read back.
use gaia_net.Base.{
  ℕ, ◌%◌, ◌≤◌, ◌≡◌, refl, ap, List, [], ◌∷◌, some, length, take-append, drop-append, replicate,
  arith,
}
use gaia_net.Base.Word.{u32_mod}
use gaia_net.Base.Bytes.{encode32, length-encode32, decode32-encode32}
use gaia_net.Mem.View.{memcpy_at}
use gaia_net.Channel.Frame.{Lz4, get_lz4_compress_str, get_lz4_decompress_str}

-- LZ4_MAX_INPUT_SIZE: LZ4 takes no longer text.
abbrev pub max_input : ℕ
max_input = 2113929216

-- What LZ4 promises: text within its limit that is compressed into room for the bound is decompressed
-- to itself, given room for its length.
abbrev pub Inverts : Lz4 → Type 0
Inverts lz4 =
    (plain : List ℕ)
    → length plain ≤ max_input
    → lz4.decompress (lz4.compress plain (lz4.bound (length plain))) (length plain) ≡ plain

memcpy_at-whole : (plain : List ℕ) → memcpy_at (replicate (length plain) 0) 0 plain ≡ plain
unfolding memcpy_at
memcpy_at-whole [] = refl
memcpy_at-whole (x ∷ xs) = ap (◌∷◌ x) (memcpy_at-whole xs)

-- With an LZ4 that inverts its own compression, every text within LZ4's limit is read back from its
-- frame.
pub decompress-compress :
    (lz4 : Lz4) (plain : List ℕ)
    → Inverts lz4
    → length plain ≤ max_input
    → get_lz4_decompress_str lz4 (get_lz4_compress_str lz4 plain) ≡ some plain
unfolding get_lz4_compress_str get_lz4_decompress_str
decompress-compress lz4 plain h small =
    let word : length plain % u32_mod ≡ length plain = omega arith in
    rw
      (
        word,
        take-append 4 (encode32 (length plain)) (lz4.compress plain (lz4.bound (length plain)))
            (length-encode32 (length plain)),
        drop-append 4 (encode32 (length plain)) (lz4.compress plain (lz4.bound (length plain)))
            (length-encode32 (length plain)),
        decode32-encode32 (length plain) (omega arith),
        h plain small,
        memcpy_at-whole plain,
      )
      (ground arith)

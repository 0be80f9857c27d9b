-- ===== src/Channel/Frame.antt =====
-- The compressed frames of src/channel.cpp: the length of the plain text in four bytes, as an `int`,
-- then what LZ4 makes of it.
pub mod RoundTrip
use gaia_net.Base.{
  ℕ, Bool, List, ◌∷◌, ◌++◌, [], ◌^◌, ◌%◌, ◌-◌, Option, none, some, take, drop, length, replicate,
  if◌then◌else◌, ltb,
}
use gaia_net.Base.Word.{u32_mod}
use gaia_net.Base.Bytes.{encode32, decode32}
use gaia_net.Mem.View.{memcpy_at}

-- What the code takes from LZ4: `bound` is LZ4_compressBound; `compress` gives the bytes that
-- LZ4_compress_default writes into room for the given number, and `decompress` those that
-- LZ4_decompress_safe writes.
pub record Lz4 : Type 0 where
  pub bound : ℕ → ℕ
  pub compress : List ℕ → ℕ → List ℕ
  pub decompress : List ℕ → ℕ → List ℕ

-- `get_lz4_compress_str`.
unfoldable pub get_lz4_compress_str : Lz4 → List ℕ → List ℕ
get_lz4_compress_str lz4 plain =
    encode32 (length plain % u32_mod) ++ lz4.compress plain (lz4.bound (length plain))

-- `get_lz4_decompress_str`. `none`: `resize` throws on a negative length.
unfoldable pub get_lz4_decompress_str : Lz4 → List ℕ → Option (List ℕ)
get_lz4_decompress_str lz4 frame =
    let origin_len : ℕ = decode32 (take 4 frame) in
    if ltb origin_len (2 ^ 31)
    then some (memcpy_at (replicate origin_len 0) 0 (lz4.decompress (drop 4 frame) origin_len))
    else none

-- ===== src/Mem/View.antt =====
-- `detail::SharedMemoryView` of src/memchannel.cpp: a byte ring in shared memory whose two
-- counters are never reduced, so that they wrap at 2 ^ 32. The mutex makes `read` and `write`
-- atomic; the condition variable and the spin loop both come down to trying again, so one
-- attempt is modelled, with `none` where the loop goes round once more.
pub mod Arith
pub mod Copy
pub mod Block
pub mod Inv
pub mod Fifo
pub mod Refine
pub mod Trace
pub mod Calls
use Prim.Native.Nat.{bit_and}
use gaia_net.Base.{
  ℕ, ◌+◌, ◌-◌, min, Bool, true, false, ◌&&◌, List, [], ◌∷◌, ◌++◌, Option, none, some, take, drop,
  replicate, leb, ◌==◌, if◌then◌else◌,
}
use gaia_net.Base.Word.{add32, sub32}

-- `buffer` is the memory behind the header. `in` is a word of the language.
pub record View : Type 0 where
  pub buf_size : ℕ
  pub enable_cv : Bool
  pub client_attached : ℕ
  pub in_count : ℕ
  pub out_count : ℕ
  pub buffer : List ℕ

-- `init`, on mapped memory that already holds the bytes `memory`.
unfoldable pub init : List ℕ → ℕ → Bool → View
init memory size cv = record {
  buf_size = size;
  enable_cv = cv;
  client_attached = 0;
  in_count = 0;
  out_count = 0;
  buffer = memory;
}

abbrev pub same_flag : Bool → Bool → Bool
same_flag true b = b
same_flag false true = false
same_flag false false = true

-- `attach_init`: `none` where an assertion fails.
unfoldable pub attach_init : View → Bool → Option View
attach_init v cv =
    if v.client_attached + 1 == 1 && same_flag v.enable_cv cv
    then some (record v { client_attached = v.client_attached + 1 })
    else none

-- memcpy(dst + off, src, length src); bytes past the end of `dst` are dropped.
unfoldable pub memcpy_at : List ℕ → ℕ → List ℕ → List ℕ
memcpy_at dst off [] = dst
memcpy_at [] off (x ∷ xs) = []
memcpy_at (d ∷ dst) ℕ.zero (x ∷ xs) = x ∷ memcpy_at dst 0 xs
memcpy_at (d ∷ dst) (ℕ.suc off) (x ∷ xs) = d ∷ memcpy_at dst off (x ∷ xs)

-- `put(buf, len)`, where `src` is the memory at `buf`.
unfoldable pub put : View → List ℕ → ℕ → View
put v src n =
    let len : ℕ = min n (add32 (sub32 buf_size in_count) out_count) in
    let l : ℕ = min len (sub32 buf_size (bit_and in_count (buf_size - 1))) in
    let first = memcpy_at buffer (bit_and in_count (buf_size - 1)) (take l src) in
    record v {
      in_count = add32 in_count len;
      buffer = memcpy_at first 0 (take (len - l) (drop l src));
    }
  where
    open v use {buf_size, in_count, out_count, buffer}

-- `get(buf, len)`: the bytes that it copies out, and the view after it.
unfoldable pub get : View → ℕ → List ℕ × View
get v n =
    let len : ℕ = min n (sub32 in_count out_count) in
    let l : ℕ = min len (sub32 buf_size (bit_and out_count (buf_size - 1))) in
    let first = take l (drop (bit_and out_count (buf_size - 1)) buffer) in
    (first ++ take (len - l) buffer, record v { out_count = add32 out_count len })
  where
    open v use {buf_size, in_count, out_count, buffer}

unfoldable pub can_put : View → ℕ → Bool
can_put v size = leb (add32 (sub32 v.in_count v.out_count) size) v.buf_size

unfoldable pub can_get : View → ℕ → Bool
can_get v size = leb size (sub32 v.in_count v.out_count)

-- One attempt of `read(buf, len)`, under the mutex or spinning.
unfoldable pub read : View → ℕ → Option (List ℕ × View)
read v len = if can_get v len then some (get v len) else none

-- One attempt of `write(buf, len)`.
unfoldable pub write : View → List ℕ → ℕ → Option View
write v src len = if can_put v len then some (put v src len) else none

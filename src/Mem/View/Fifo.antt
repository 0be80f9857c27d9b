-- ===== src/Mem/View/Fifo.antt =====
-- The view as a queue of bytes: `contents` is what was put and not yet taken, oldest first.
use native.Mathlib.Nat.{mod-add-mod, add-mod_right, mod-lt}
use gaia_net.Base.{
  ℕ, ◌+◌, ◌-◌, ◌%◌, ◌≤◌, ◌<◌, ◌≡◌, sym, ap, ap₂, ◌∙◌, List, ◌++◌, arith, min, length, get_or, take,
  drop, take-tabulate_le, drop-tabulate_le, tabulate, tabulate_ext, tabulate-add, take-tabulate,
  length-tabulate,
}
use gaia_net.Base.Word.{add32, sub32, u32_mod, IsPow2-pos, IsPow2-lt, mask-mod, mod-u32}
use gaia_net.Mem.View.{View, put, get}
use gaia_net.Mem.View.Block.{splice, slice, splice_at, splice_behind, slice_lem}
use gaia_net.Mem.View.Copy.{length-memcpy_at}
use gaia_net.Mem.View.Inv.{IsValid, used}

-- The byte that lies `i` places behind the oldest one.
abbrev pub byte_at : View → ℕ → ℕ
byte_at v i = get_or v.buffer ((v.out_count + i) % v.buf_size) 0

unfoldable pub contents : View → List ℕ
contents v = tabulate (used v) (byte_at v)

pub length-contents : (v : View) → length (contents v) ≡ used v
unfolding contents
length-contents v = length-tabulate (used v) (byte_at v)

-- The number of bytes that a put of `n` takes: the room left bounds it.
abbrev pub clip : View → ℕ → ℕ
clip v n = min n (v.buf_size - used v)

module _ {v : View} (ok : IsValid v) where
  open v use {buf_size, in_count, out_count, buffer}

  pos : 0 < buf_size
  pos = IsPow2-pos ok.pow2

  start_in : in_count % buf_size ≡ (out_count + used v) % buf_size
  start_in =
      let e : in_count ≡ (out_count + used v) % u32_mod = omega (arith, ok.in_word, ok.out_word) in
      ap (λ t. t % buf_size) e ∙ mod-u32 ok.pow2 (out_count + used v)

  room : add32 (sub32 buf_size in_count) out_count ≡ buf_size - used v
  room = omega (arith, ok.in_word, ok.out_word, ok.fits, IsPow2-lt ok.pow2)

  to_end : (c : ℕ) → sub32 buf_size (c % buf_size) ≡ buf_size - c % buf_size
  to_end c = omega (arith, mod-lt c pos, IsPow2-lt ok.pow2)

  -- `put` is one splice at the place of the counter.
  put_lem :
      (src : List ℕ) (n : ℕ)
      → put v src n ≡ record v {
        in_count = add32 in_count (clip v n);
        buffer = splice buf_size buffer (in_count % buf_size) src (clip v n);
      }
  unfolding put
  put_lem src n = rw (room, mask-mod ok.pow2 in_count, to_end in_count)

  -- `get` is one slice from the place of the counter.
  get_lem :
      (n : ℕ)
      → get v n ≡ (
        slice buf_size buffer (out_count % buf_size) (min n (used v)),
        record v { out_count = add32 out_count (min n (used v)) },
      )
  unfolding get
  get_lem n = rw (mask-mod ok.pow2 out_count, to_end out_count)

  module _ (src : List ℕ) (n : ℕ) (enough : clip v n ≤ length src) where
    used-put : used (put v src n) ≡ used v + clip v n
    used-put =
        rw (put_lem src n) (omega (arith, ok.in_word, ok.out_word, ok.fits, IsPow2-lt ok.pow2))

    old_place :
        (i : ℕ)
        → i < used v
        → (out_count + i) % buf_size ≡ (in_count % buf_size + (buf_size - used v + i)) % buf_size
    old_place i lt =
        sym (add-mod_right (out_count + i) buf_size)
        ∙ ap (λ t. t % buf_size) (omega (arith, ok.fits))
        ∙ sym (mod-add-mod (out_count + used v) buf_size (buf_size - used v + i))
        ∙ ap (λ t. (t + (buf_size - used v + i)) % buf_size) (sym start_in)

    new_place :
        (j : ℕ) → (out_count + (used v + j)) % buf_size ≡ (in_count % buf_size + j) % buf_size
    new_place j =
        ap (λ t. t % buf_size) (omega arith)
        ∙ sym (mod-add-mod (out_count + used v) buf_size j)
        ∙ ap (λ t. (t + j) % buf_size) (sym start_in)

    spliced_byte : ℕ → ℕ
    spliced_byte i =
        get_or (splice buf_size buffer (in_count % buf_size) src (clip v n))
          ((out_count + i) % buf_size) 0

    old_bytes : (i : ℕ) → i < used v → spliced_byte i ≡ byte_at v i
    unfolding spliced_byte
    old_bytes i lt = rw (old_place i lt) (
        splice_behind buf_size buffer ok.memory (in_count % buf_size) (mod-lt in_count pos)
          (clip v n) (omega arith) src enough (buf_size - used v + i) (omega (arith, ok.fits))
          (omega (arith, ok.fits)))

    new_bytes : (j : ℕ) → j < clip v n → spliced_byte (used v + j) ≡ get_or src j 0
    unfolding spliced_byte
    new_bytes j lt = rw (new_place j) (
        splice_at buf_size buffer ok.memory (in_count % buf_size) (mod-lt in_count pos) (clip v n)
          (omega arith) src enough j lt)

    put-tabulate : contents (put v src n) ≡ tabulate (used v + clip v n) spliced_byte
    unfolding contents spliced_byte
    put-tabulate =
        ap (λ t. tabulate t (byte_at (put v src n))) used-put
        ∙ ap (λ w. tabulate (used v + clip v n) (byte_at w)) (put_lem src n)

    -- On a valid view, from memory with at least `n` bytes: `put` appends to the contents as many of
    -- the `n` bytes as there is room for, wherever the ring wraps.
    pub contents-put : contents (put v src n) ≡ contents v ++ take (clip v n) src
    unfolding contents
    contents-put =
        put-tabulate
        ∙ tabulate-add (used v) (clip v n) spliced_byte
        ∙ ap₂ ◌++◌ (tabulate_ext (used v) spliced_byte (byte_at v) old_bytes) (
            tabulate_ext (clip v n) _ (λ j. get_or src j 0) new_bytes
            ∙ sym (take-tabulate (clip v n) src 0 enough))

    pub put-IsValid : IsValid (put v src n)
    put-IsValid = rw (put_lem src n) (record {
      pow2 = ok.pow2;
      memory = length-splice;
      in_word = omega arith;
      out_word = ok.out_word;
      fits = omega (arith, ok.in_word, ok.out_word, ok.fits, IsPow2-lt ok.pow2);
    })
      where
        length-splice :
            length (splice buf_size buffer (in_count % buf_size) src (clip v n)) ≡ buf_size
        length-splice = length-memcpy_at _ 0 _ ∙ length-memcpy_at buffer _ _ ∙ ok.memory

  module _ (n : ℕ) where
    got_place : (j : ℕ) → (out_count % buf_size + j) % buf_size ≡ (out_count + j) % buf_size
    got_place j = mod-add-mod out_count buf_size j

    -- `get` hands out the oldest bytes, as many as there are.
    pub bytes-get : (get v n).0 ≡ take (min n (used v)) (contents v)
    unfolding contents
    bytes-get =
        ap (λ p. p.0) (get_lem n)
        ∙ slice_lem buf_size buffer ok.memory (out_count % buf_size) (mod-lt out_count pos)
            (min n (used v)) (omega (arith, ok.fits))
        ∙ tabulate_ext (min n (used v)) _ (byte_at v)
            (λ j lt. ap (λ t. get_or buffer t 0) (got_place j))
        ∙ sym (take-tabulate_le (min n (used v)) (used v) (byte_at v) (omega arith))

    next_place :
        (i : ℕ)
        → (add32 out_count (min n (used v)) + i) % buf_size
          ≡ (out_count + (min n (used v) + i)) % buf_size
    next_place i =
        sym (mod-add-mod (add32 out_count (min n (used v))) buf_size i)
        ∙ ap (λ t. (t + i) % buf_size) (mod-u32 ok.pow2 (out_count + min n (used v)))
        ∙ mod-add-mod (out_count + min n (used v)) buf_size i
        ∙ ap (λ t. t % buf_size) (omega arith)

    used-get : used (get v n).1 ≡ used v - min n (used v)
    used-get = rw (get_lem n) (omega (arith, ok.in_word, ok.out_word, ok.fits, IsPow2-lt ok.pow2))

    -- What it leaves is the rest.
    pub contents-get : contents (get v n).1 ≡ drop (min n (used v)) (contents v)
    unfolding contents
    contents-get =
        ap (λ t. tabulate t (byte_at (get v n).1)) used-get
        ∙ ap (λ w. tabulate (used v - min n (used v)) (byte_at w)) (ap (λ p. p.1) (get_lem n))
        ∙ tabulate_ext (used v - min n (used v)) _ (λ i. byte_at v (min n (used v) + i))
            (λ i lt. ap (λ t. get_or buffer t 0) (next_place i))
        ∙ sym (drop-tabulate_le (min n (used v)) (used v) (byte_at v) (omega arith))

    pub get-IsValid : IsValid (get v n).1
    get-IsValid = rw (get_lem n) (record {
      pow2 = ok.pow2;
      memory = ok.memory;
      in_word = ok.in_word;
      out_word = omega arith;
      fits = omega (arith, ok.in_word, ok.out_word, ok.fits, IsPow2-lt ok.pow2);
    })

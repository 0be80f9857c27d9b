-- ===== src/Mem/View/Inv.antt =====
-- What holds of a view between two calls.
use gaia_net.Base.{ℕ, ◌≤◌, ◌<◌, ◌≡◌, Bool, List, arith, length}
use gaia_net.Base.Word.{sub32, u32_mod, IsPow2}
use gaia_net.Mem.View.{View, init}

-- The number of bytes that were put and not yet taken, counted over the wrap.
abbrev pub used : View → ℕ
used v = sub32 v.in_count v.out_count

pub record IsValid (v : View) : Type 0 where
  pub pow2 : IsPow2 v.buf_size
  pub memory : length v.buffer ≡ v.buf_size
  pub in_word : v.in_count < u32_mod
  pub out_word : v.out_count < u32_mod
  pub fits : used v ≤ v.buf_size

pub init-IsValid :
    (m : List ℕ) (size : ℕ) (cv : Bool) → IsPow2 size → length m ≡ size → IsValid (init m size cv)
unfolding init
init-IsValid m size cv p h = record {
  pow2 = p;
  memory = h;
  in_word = omega arith;
  out_word = omega arith;
  fits = omega arith;
}

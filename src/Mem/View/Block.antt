-- ===== src/Mem/View/Block.antt =====
-- The two copies of `put` and of `get` as one block that goes round the ring.
use gaia_net.Base.{
  ℕ, ◌+◌, ◌-◌, ◌%◌, ◌≤◌, ◌<◌, ◌≡◌, sym, ap, ap₂, ◌∙◌, inl, inr, List, ◌++◌, arith, min, length,
  get_or, take, drop, length-take, length-drop, get_or-take, get_or-drop, tabulate, tabulate_ext,
  tabulate-add, take-tabulate,
}
use gaia_net.Mem.View.{memcpy_at}
use gaia_net.Mem.View.Arith.{mod_once}
use gaia_net.Mem.View.Copy.{length-memcpy_at, get_or-memcpy_at_in, get_or-memcpy_at_out}

-- `k` bytes of `src` written from index `r` on, going round at `n`.
abbrev pub splice : ℕ → List ℕ → ℕ → List ℕ → ℕ → List ℕ
splice n memory r src k =
    let l : ℕ = min k (n - r) in
    memcpy_at (memcpy_at memory r (take l src)) 0 (take (k - l) (drop l src))

-- `k` bytes read from index `r` on, going round at `n`.
abbrev pub slice : ℕ → List ℕ → ℕ → ℕ → List ℕ
slice n memory r k = let l : ℕ = min k (n - r) in take l (drop r memory) ++ take (k - l) memory

module _ (n : ℕ) (m : List ℕ) (mem : length m ≡ n) (r : ℕ) (start : r < n) (k : ℕ)
    (small : k ≤ n) where
  module _ (src : List ℕ) (enough : k ≤ length src) where
    length_first : length (take (min k (n - r)) src) ≡ min k (n - r)
    length_first = omega (arith, length-take (min k (n - r)) src)

    length_second : length (take (k - min k (n - r)) (drop (min k (n - r)) src)) ≡ k - min k (n - r)
    length_second = omega (
      arith,
      length-take (k - min k (n - r)) (drop (min k (n - r)) src),
      length-drop (min k (n - r)) src,
    )

    splice_at_direct :
        (j p : ℕ) → j < k → p ≡ r + j → p < n → get_or (splice n m r src k) p 0 ≡ get_or src j 0
    splice_at_direct j p lt e low =
        get_or-memcpy_at_out _ 0 _ p (inr (omega (arith, length_second)))
        ∙ get_or-memcpy_at_in m r _ p j e (omega (arith, length_first)) (omega arith)
        ∙ get_or-take (min k (n - r)) src j 0 (omega arith)

    splice_at_round :
        (j p : ℕ) → j < k → p + n ≡ r + j → get_or (splice n m r src k) p 0 ≡ get_or src j 0
    splice_at_round j p lt e =
        get_or-memcpy_at_in _ 0 _ p p (omega arith) (omega (arith, length_second))
          (omega (arith, length-memcpy_at m r (take (min k (n - r)) src)))
        ∙ get_or-take _ _ p 0 (omega arith)
        ∙ get_or-drop (min k (n - r)) src p 0
        ∙ ap (λ t. get_or src t 0) (omega arith)

    -- Inside the block stands the source.
    pub splice_at : (j : ℕ) → j < k → get_or (splice n m r src k) ((r + j) % n) 0 ≡ get_or src j 0
    splice_at j lt = elim (mod_once n (r + j) (omega arith)) [
      | inl (h, e) ↦ splice_at_direct j ((r + j) % n) lt e (omega arith)
      | inr (h, e) ↦ splice_at_round j ((r + j) % n) lt (omega arith)
    ]

    -- Behind the block, up to its start one round later, the memory is as before.
    pub splice_behind :
        (j : ℕ)
        → k ≤ j
        → j < n
        → get_or (splice n m r src k) ((r + j) % n) 0 ≡ get_or m ((r + j) % n) 0
    splice_behind j ge lt =
        get_or-memcpy_at_out _ 0 _ ((r + j) % n)
          (inr (omega (arith, length_second, mod_once n (r + j) (omega arith))))
        ∙ get_or-memcpy_at_out m r _ ((r + j) % n)
            (omega (arith, length_first, mod_once n (r + j) (omega arith)))

  pub slice_lem : slice n m r k ≡ tabulate k (λ i. get_or m ((r + i) % n) 0)
  slice_lem =
      ap₂ ◌++◌ first second ∙ sym (tabulate-add l (k - l) _) ∙ ap (λ t. tabulate t at) (omega arith)
    where
      l : ℕ
      l = min k (n - r)

      at : ℕ → ℕ
      at i = get_or m ((r + i) % n) 0

      first : take l (drop r m) ≡ tabulate l at
      first =
          take-tabulate l (drop r m) 0 (omega (arith, length-drop r m))
          ∙ tabulate_ext l _ at (λ i lt.
            get_or-drop r m i 0
            ∙ ap (λ t. get_or m t 0) (omega (arith, mod_once n (r + i) (omega arith))))

      second : take (k - l) m ≡ tabulate (k - l) (λ i. at (l + i))
      second =
          take-tabulate (k - l) m 0 (omega arith)
          ∙ tabulate_ext (k - l) _ (λ i. at (l + i))
              (λ i lt.
                ap (λ t. get_or m t 0) (omega (arith, mod_once n (r + (l + i)) (omega arith))))

-- ===== src/Rpc/Recv/Session.antt =====
-- Successive calls of `Recv` on a stream that carries numbered messages.
use gaia_net.Base.{
  ℕ, zero, suc, ◌+◌, ◌≤◌, ◌≡◌, refl, ap, ◌⊎◌, inl, inr, Bool, true, List, [], ◌∷◌, ◌++◌, map,
  length, arith,
}
use gaia_net.Base.Int.{ℤ, pos, negsuc, ◌≤ℤ◌}
use gaia_net.Base.Bytes.{encode32, same_bytes_self}
use gaia_net.Rpc.Recv.{
  RedisDataVersion, Event, item, nothing, error, State, Outcome, got, Verdict, continue, magic,
  init_redis_data_version, on_indexed, on_item, on_settled, on_event, in_time, turn, Reply,
  recv_from, recv,
}
use gaia_net.Rpc.Recv.Safety.{settled}
use gaia_net.Rpc.Recv.Stream.{
  indexed, Carries, end, fresh, repeated, control, idle, caught, before, on_fresh, on_repeated,
  on_control, on_quiet,
}

-- The timeout allows `n` rounds, or any number.
abbrev pub Patient : ℤ → ℕ → Type 0
Patient timeout n = (pos n ≤ℤ timeout) ⊎ (timeout ≡ pos 0)

Patient-in_time : (t : ℤ) (n i : ℕ) → Patient t n → i ≤ n → in_time t i ≡ true
Patient-in_time t n i (inl p) h = ground arith
Patient-in_time t n i (inr p) h = rw p (ground arith)

module _ (t : ℤ) (cr : Bool) where
  -- The call returns the first message and leaves a stream of the others.
  Delivered : ℕ → ℕ → List (List ℕ) → Reply → Type 0
  Delivered n k [] r = Unit {0}
  Delivered n k (m ∷ ms) r =
      (rest : List Event) × (r ≡ (got m, settled (before (suc k)), rest))
      × Carries cr (suc k) ms rest
      × (length rest ≤ n)

  turn_lem :
      (i : ℕ) (s : State) (e : Event) (es : List Event) (v : Verdict) (s' : State)
      → in_time t i ≡ true
      → on_event cr s e ≡ (v, s')
      → recv_from t cr i s (e ∷ es)
        ≡ turn (v, s') es (λ u. recv_from t cr (i + 1) u es) (λ u. recv_from t cr 1 u es)
  unfolding recv_from
  turn_lem i s e es v s' h j = rw (h, j)

  item_lem :
      (idx idx' : ℤ) (v : Verdict) (bytes : List ℕ)
      → on_indexed idx bytes ≡ (v, idx')
      → on_event cr (settled idx) (item bytes) ≡ (v, settled idx')
  unfolding on_event on_item
  item_lem idx idx' v bytes h = rw h

  module _ (n : ℕ) (patient : Patient t n) where
    next_message :
        (i : ℕ) {k : ℕ} {ms : List (List ℕ)} {es : List Event}
        → Carries cr k ms es
        → i + length es ≤ suc n
        → Delivered n k ms (recv_from t cr i (settled (before k)) es)
    unfolding Delivered on_event
    next_message i end h = tt
    next_message i (fresh {k} {ms} {es} m low c) h = (
      es,
      turn_lem i _ (indexed k m) es _ _ (Patient-in_time t n i patient (omega arith))
          (item_lem _ _ _ _ (on_fresh k m low)),
      c,
      omega arith,
    )
    next_message i (repeated {k} {ms} {es} j m old low c) h =
        rw
          (turn_lem i _ (indexed j m) es _ _ (Patient-in_time t n i patient (omega arith))
            (item_lem _ _ _ _ (on_repeated k j m old low)))
          (next_message 1 c (omega arith))
    next_message i (control {k} {ms} {es} cmd low high c) h =
        rw
          (turn_lem i _ (indexed cmd []) es _ _ (Patient-in_time t n i patient (omega arith))
            (item_lem _ _ _ _ (on_control k cmd low high)))
          (next_message (i + 1) c (omega arith))
    next_message i (idle {k} {ms} {es} status empty quiet c) h =
        rw
          (turn_lem i (settled (before k)) (nothing status empty) es continue (settled (before k))
            (Patient-in_time t n i patient (omega arith))
            (ap (λ v. (v, settled (before k))) (on_quiet cr status empty quiet)))
          (next_message (i + 1) c (omega arith))
    next_message i (caught {k} {ms} {es} c) h =
        rw
          (turn_lem i (settled (before k)) error es continue (settled (before k))
            (Patient-in_time t n i patient (omega arith)) refl)
          (next_message (i + 1) c (omega arith))

-- The outcomes of `n` calls in turn.
unfoldable pub calls : ℤ → Bool → ℕ → State → List Event → List Outcome
calls t cr zero s es = []
calls t cr (suc n) s es = let (o, s', rest) = recv t cr s es in o ∷ calls t cr n s' rest

module _ (t : ℤ) (cr : Bool) (n : ℕ) (patient : Patient t n) where
  -- On a stream that carries messages with indices from the next one on, with repetitions of older
  -- ones, control commands, empty waits and caught errors anywhere, at most as many events as the
  -- timeout allows: the calls return exactly the messages, each once and in order.
  pub stream_received :
      (ms : List (List ℕ)) {k : ℕ} {es : List Event}
      → Carries cr k ms es
      → length es ≤ n
      → calls t cr (length ms) (settled (before k)) es ≡ map got ms
  unfolding calls recv Delivered
  stream_received [] c h = refl
  stream_received (m ∷ ms) {k} {es} c h =
      let (rest, e, c', h') = next_message t cr n patient 1 c (omega arith) in
      rw e (ap (◌∷◌ (got m)) (stream_received ms {k = suc k} {es = rest} c' h'))

-- The marked first item settles the version, and is then read like any other.
init-magic :
    (bytes : List ℕ) → init_redis_data_version (magic ++ bytes) ≡ (RedisDataVersion.v2, bytes)
unfolding init_redis_data_version
init-magic bytes = rw (same_bytes_self magic)

abbrev pub unsettled : State
unsettled = record { data_version = RedisDataVersion.not_inited; recv_idx = negsuc 0 }

item-magic :
    (bytes : List ℕ) → on_item unsettled (magic ++ bytes) ≡ on_item (settled (negsuc 0)) bytes
unfolding on_item
item-magic bytes = ap (on_settled (negsuc 0)) (init-magic bytes)

first_item :
    (t : ℤ) (cr : Bool) (bytes : List ℕ) (es : List Event)
    → in_time t 1 ≡ true
    → recv t cr unsettled (item (magic ++ bytes) ∷ es)
      ≡ recv t cr (settled (negsuc 0)) (item bytes ∷ es)
unfolding recv recv_from on_event
first_item t cr bytes es h = rw h (
    ap (λ r. turn r es (λ s'. recv_from t cr (1 + 1) s' es) (λ s'. recv_from t cr 1 s' es))
      (item-magic bytes))

-- A new client whose first item is marked with the magic string and carries the first message reads
-- the whole stream, from index 0 on.
pub session_received :
    (t : ℤ) (cr : Bool) (m : List ℕ) (ms : List (List ℕ)) {es : List Event}
    → Carries cr 1 ms es
    → Patient t (suc (length es))
    → calls t cr (suc (length ms)) unsettled (item (magic ++ encode32 0 ++ m) ∷ es)
      ≡ map got (m ∷ ms)
unfolding calls
session_received t cr m ms {es} c patient =
    rw (first_item t cr (encode32 0 ++ m) es (Patient-in_time t _ 1 patient (omega arith))) (
      stream_received t cr (suc (length es)) patient (m ∷ ms) (fresh m (omega arith) c)
        (omega arith))

-- ===== src/Rpc/Recv/Safety.antt =====
-- What any call of `Recv` does, whatever redis answers.
use gaia_net.Base.{
  ℕ, ◌+◌, ◌≤◌, ◌≡◌, refl, ap, Bool, List, [], ◌∷◌, ◌++◌, ◌&&◌, not, ltb, ◌==◌, length, drop, arith,
  inl, inr, Bool-cases,
}
use gaia_net.Base.Int.{ℤ, pos, ltb_ℤ, eqb_ℤ, inc, int32_at, eqb_ℤ→eq}
use gaia_net.Rpc.Recv.{
  RedisDataVersion, Event, item, nothing, error, State, Outcome, got, failed, need_resend, overrun,
  waits, out_of_range, Verdict, return, continue, again, on_indexed, on_item, on_event, on_nothing,
  in_time, turn, Reply, recv_from, recv, RecvThreadStatus,
}

-- The state after the version has been settled to v2, with the last index `idx`.
abbrev pub settled : ℤ → State
settled idx = record { data_version = RedisDataVersion.v2; recv_idx = idx }

-- A content is returned from the item with the next index, and moves the index there. Any other
-- end of the call leaves the index.
abbrev pub Advances : ℤ → List Event → Outcome × State × List Event → Type 0
Advances idx es (got content, s, rest) =
    (s ≡ settled (inc idx))
    × ((before : List Event) × (bytes : List ℕ) × (es ≡ before ++ item bytes ∷ rest)
        × (int32_at bytes ≡ inc idx)
        × (4 ≤ length bytes)
        × (content ≡ drop 4 bytes))
Advances idx es (failed, s, rest) = s ≡ settled idx
Advances idx es (need_resend, s, rest) = s ≡ settled idx
Advances idx es (overrun, s, rest) = s ≡ settled idx
Advances idx es (out_of_range, s, rest) = s ≡ settled idx
Advances idx es (waits, s, rest) = s ≡ settled idx

Advances-cons :
    (idx : ℤ) (e : Event) (es : List Event) (r : Outcome × State × List Event)
    → Advances idx es r
    → Advances idx (e ∷ es) r
Advances-cons idx e es (got content, s, rest) (h, t) =
    (h, (e ∷ t.0, t.1, ap (◌∷◌ e) t.2, t.3, t.4, t.5))
Advances-cons idx e es (failed, s, rest) h = h
Advances-cons idx e es (need_resend, s, rest) h = h
Advances-cons idx e es (overrun, s, rest) h = h
Advances-cons idx e es (out_of_range, s, rest) h = h
Advances-cons idx e es (waits, s, rest) h = h

-- What one event does to a call.
abbrev Judges : ℤ → Event → List Event → Verdict × State → Type 0
Judges idx e es (return outcome, s) = Advances idx (e ∷ es) (outcome, s, es)
Judges idx e es (continue, s) = s ≡ settled idx
Judges idx e es (again, s) = s ≡ settled idx

abbrev to_state : Verdict × ℤ → Verdict × State
to_state (v, idx) = (v, settled idx)

indexed-Judges :
    (idx : ℤ) (bytes : List ℕ) (es : List Event)
    → Judges idx (item bytes) es (to_state (on_indexed idx bytes))
unfolding on_indexed
indexed-Judges idx bytes es = elim (Bool-cases (ltb (length bytes) 3)) [
  | inl short ↦ rw short refl
  | inr enough ↦
      rw enough (elim (Bool-cases (length bytes == 4 && ltb_ℤ (int32_at bytes) (pos 0))) [
        | inl control ↦ rw control refl
        | inr data_item ↦ rw data_item (elim (Bool-cases (eqb_ℤ (int32_at bytes) (inc idx))) [
          | inl next ↦ rw next (elim (Bool-cases (length bytes == 3)) [
            | inl three ↦ rw three refl
            | inr more ↦ rw more (
              ap settled (eqb_ℤ→eq _ _ next),
              ([], bytes, refl, eqb_ℤ→eq _ _ next, ground arith, refl),
            )
          ])
          | inr other ↦ rw other (elim (Bool-cases (ltb_ℤ (int32_at bytes) (inc idx))) [
            | inl old ↦ rw old refl
            | inr gap ↦ rw gap refl
          ])
        ])
      ])
]

nothing-Judges :
    (cr : Bool) (idx : ℤ) (status : RecvThreadStatus) (empty : Bool) (es : List Event)
    → Judges idx (nothing status empty) es (on_nothing cr status empty, settled idx)
unfolding on_nothing
nothing-Judges cr idx RecvThreadStatus.not_inited empty es = refl
nothing-Judges cr idx RecvThreadStatus.started empty es = refl
nothing-Judges cr idx RecvThreadStatus.finished empty es = elim (Bool-cases (not empty && cr)) [
  | inl h ↦ rw h refl
  | inr h ↦ rw h refl
]

event-Judges :
    (cr : Bool) (idx : ℤ) (e : Event) (es : List Event)
    → Judges idx e es (on_event cr (settled idx) e)
unfolding on_event on_item
event-Judges cr idx (item bytes) es = indexed-Judges idx bytes es
event-Judges cr idx (nothing status empty) es = nothing-Judges cr idx status empty es
event-Judges cr idx error es = refl

turn-Advances :
    (idx : ℤ) (e : Event) (es : List Event) (r : Verdict × State) (on anew : State → Reply)
    → Judges idx e es r
    → Advances idx es (on (settled idx))
    → Advances idx es (anew (settled idx))
    → Advances idx (e ∷ es) (turn r es on anew)
turn-Advances idx e es (return outcome, s) on anew j h k = j
turn-Advances idx e es (continue, s) on anew j h k =
    rw j (Advances-cons idx e es (on (settled idx)) h)
turn-Advances idx e es (again, s) on anew j h k =
    rw j (Advances-cons idx e es (anew (settled idx)) k)

recv_from-Advances :
    (t : ℤ) (cr : Bool) (i : ℕ) (idx : ℤ) (es : List Event)
    → Advances idx es (recv_from t cr i (settled idx) es)
unfolding recv_from
recv_from-Advances t cr i idx [] = elim (Bool-cases (in_time t i)) [
  | inl h ↦ rw h refl
  | inr h ↦ rw h refl
]
recv_from-Advances t cr i idx (e ∷ es) = elim (Bool-cases (in_time t i)) [
  | inl h ↦ rw h (
      turn-Advances idx e es _ _ _ (event-Judges cr idx e es)
        (recv_from-Advances t cr (i + 1) idx es) (recv_from-Advances t cr 1 idx es))
  | inr h ↦ rw h refl
]

-- Once the data version is settled to v2, whatever redis answers: `Recv` returns a content only
-- from an item whose index follows the last one, cuts off the index, and moves the last index to
-- it; in every other case (timeout, gap, a request to resend, a string too short) the last index
-- stays.
pub recv-Advances :
    (t : ℤ) (cr : Bool) (idx : ℤ) (es : List Event) → Advances idx es (recv t cr (settled idx) es)
unfolding recv
recv-Advances t cr idx es = recv_from-Advances t cr 1 idx es

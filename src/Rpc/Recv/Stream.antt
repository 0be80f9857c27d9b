-- ===== src/Rpc/Recv/Stream.antt =====
-- A stream of numbered messages, with repetitions, control commands, empty waits and errors mixed
-- in, and the successive calls of `Recv` that read it.
use gaia_net.Base.{
  ℕ, zero, suc, ◌+◌, ◌^◌, ◌≤◌, ◌<◌, ◌≡◌, refl, ap, ◌⊎◌, Bool, true, false, List, [], ◌∷◌, ◌++◌,
  length, drop-append, length-append, arith,
}
use gaia_net.Base.Int.{ℤ, pos, negsuc, inc, int32_at, signed32}
use gaia_net.Base.Bytes.{encode32, decode32, length-encode32}
use gaia_net.Rpc.Recv.{
  RecvThreadStatus, Event, item, nothing, error, got, return, continue, again, on_indexed,
  on_nothing,
}

-- An item as the loop takes it apart: the index in four bytes, then the content.
abbrev pub indexed : ℕ → List ℕ → Event
indexed k content = item (encode32 k ++ content)

-- Nothing came, and there is no reason to resend.
abbrev pub Idle : Bool → RecvThreadStatus → Bool → Type 0
Idle can_resend RecvThreadStatus.finished queue_empty = (queue_empty ≡ true) ⊎ (can_resend ≡ false)
Idle can_resend RecvThreadStatus.started queue_empty = Unit {0}
Idle can_resend RecvThreadStatus.not_inited queue_empty = Unit {0}

-- The events carry the messages with the indices from `k` on, in this order.
pub data Carries (can_resend : Bool) : ℕ → List (List ℕ) → List Event → Type 0 where
  end : {k : ℕ} → Carries can_resend k [] []
  fresh :
      {k : ℕ} {ms : List (List ℕ)} {es : List Event} (m : List ℕ)
      → k < 2 ^ 31
      → Carries can_resend (suc k) ms es
      → Carries can_resend k (m ∷ ms) (indexed k m ∷ es)
  repeated :
      {k : ℕ} {ms : List (List ℕ)} {es : List Event} (j : ℕ) (m : List ℕ)
      → j < k
      → k ≤ 2 ^ 31
      → Carries can_resend k ms es
      → Carries can_resend k ms (indexed j m ∷ es)
  control :
      {k : ℕ} {ms : List (List ℕ)} {es : List Event} (cmd : ℕ)
      → 2 ^ 31 ≤ cmd
      → cmd < 2 ^ 32
      → Carries can_resend k ms es
      → Carries can_resend k ms (indexed cmd [] ∷ es)
  idle :
      {k : ℕ} {ms : List (List ℕ)} {es : List Event} (status : RecvThreadStatus) (empty : Bool)
      → Idle can_resend status empty
      → Carries can_resend k ms es
      → Carries can_resend k ms (nothing status empty ∷ es)
  caught :
      {k : ℕ} {ms : List (List ℕ)} {es : List Event}
      → Carries can_resend k ms es
      → Carries can_resend k ms (error ∷ es)

-- `m_recv_idx` when `k` is the next index.
abbrev pub before : ℕ → ℤ
before zero = negsuc 0
before (suc k) = pos k

int32_at-encode32 : (k : ℕ) (m : List ℕ) → k < 2 ^ 32 → int32_at (encode32 k ++ m) ≡ signed32 k
unfolding int32_at encode32 decode32
int32_at-encode32 k m h = ap signed32 (omega arith)

length-indexed : (k : ℕ) (m : List ℕ) → length (encode32 k ++ m) ≡ 4 + length m
length-indexed k m = omega (arith, length-append (encode32 k) m, length-encode32 k)

inc-before : (k : ℕ) → inc (before k) ≡ pos k
inc-before zero = refl
inc-before (suc k) = ap pos (omega arith)

-- What the loop makes of each kind of event.
pub on_fresh :
    (k : ℕ) (m : List ℕ)
    → k < 2 ^ 31
    → on_indexed (before k) (encode32 k ++ m) ≡ (return (got m), before (suc k))
unfolding on_indexed
on_fresh k m h =
    rw
      (
        length-indexed k m,
        int32_at-encode32 k m (omega arith),
        inc-before k,
        drop-append 4 (encode32 k) m (length-encode32 k),
      )
      (ground arith)

pub on_repeated :
    (k j : ℕ) (m : List ℕ)
    → j < k
    → k ≤ 2 ^ 31
    → on_indexed (before k) (encode32 j ++ m) ≡ (again, before k)
unfolding on_indexed
on_repeated k j m h l =
    rw (length-indexed j m, int32_at-encode32 j m (omega arith), inc-before k) (ground arith)

pub on_control :
    (k cmd : ℕ)
    → 2 ^ 31 ≤ cmd
    → cmd < 2 ^ 32
    → on_indexed (before k) (encode32 cmd ++ []) ≡ (continue, before k)
unfolding on_indexed
on_control k cmd h l = rw (length-indexed cmd [], int32_at-encode32 cmd [] l) (ground arith)

pub on_quiet :
    (cr : Bool) (status : RecvThreadStatus) (empty : Bool)
    → Idle cr status empty
    → on_nothing cr status empty ≡ continue
unfolding on_nothing
on_quiet cr RecvThreadStatus.not_inited empty h = refl
on_quiet cr RecvThreadStatus.started empty h = refl
on_quiet cr RecvThreadStatus.finished empty h = ground arith

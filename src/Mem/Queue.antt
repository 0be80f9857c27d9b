-- ===== src/Mem/Queue.antt =====
-- What `SharedMemoryView` promises: a bounded first-in first-out queue of bytes, where a call
-- that cannot be served waits (`none`).
use gaia_net.Base.{
  ℕ, ◌+◌, List, [], ◌∷◌, ◌++◌, Option, none, some, length, take, drop, leb, if◌then◌else◌,
}

abbrev pub Queue : Type 0
Queue = List ℕ

abbrev pub write : ℕ → Queue → List ℕ → Option Queue
write cap q bytes = if leb (length q + length bytes) cap then some (q ++ bytes) else none

abbrev pub read : Queue → ℕ → Option (List ℕ × Queue)
read q n = if leb n (length q) then some (take n q, drop n q) else none

-- Attempts of a writer and a reader in some order. One that waits leaves the queue as it was.
pub data Op : Type 0 where
  put : List ℕ → Op
  get : ℕ → Op

pub data Reply : Type 0 where
  waits : Reply
  wrote : Reply
  bytes : List ℕ → Reply

abbrev pub put_reply {ℓ} : {A : Type ℓ} → A → Option A → Reply × A
put_reply old none = (waits, old)
put_reply old (some new) = (wrote, new)

abbrev pub get_reply {ℓ} : {A : Type ℓ} → A → Option (List ℕ × A) → Reply × A
get_reply old none = (waits, old)
get_reply old (some (bs, new)) = (bytes bs, new)

abbrev pub step : ℕ → Queue → Op → Reply × Queue
step cap q (put bs) = put_reply q (write cap q bs)
step cap q (get n) = get_reply q (read q n)

unfoldable pub run : ℕ → Queue → List Op → List Reply
run cap q [] = []
run cap q (op ∷ ops) = let (r, q') = step cap q op in r ∷ run cap q' ops

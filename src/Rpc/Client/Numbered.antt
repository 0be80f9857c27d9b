-- ===== src/Rpc/Client/Numbered.antt =====
-- The packets that wait for an acknowledgement are numbered without a gap up to the next number.
use gaia_net.Base.{ℕ, suc, ◌≤◌, ◌≡◌, refl, Bool, true, false, List, [], ◌∷◌, ◌++◌, arith, some}
use native.Mathlib.Numerals.{add-one}
use gaia_net.Rpc.Client.{Packet, Client, packet_of, on_ack, returns, send_ready, resend}

-- Numbered `from`, `from + 1`, … up to but not including `to`.
abbrev pub Numbered : ℕ → List Packet → ℕ → Type 0
Numbered from [] to = from ≡ to
Numbered from (p ∷ ps) to = (p.seq ≡ from) × Numbered (suc from) ps to

pub Numbered-snoc :
    (from to : ℕ) (ps : List Packet) (p : Packet)
    → Numbered from ps to
    → p.seq ≡ to
    → Numbered from (ps ++ p ∷ []) (suc to)
Numbered-snoc from to [] p h e = (omega arith, omega arith)
Numbered-snoc from to (q ∷ ps) p h e = (h.0, Numbered-snoc (suc from) to ps p h.1 e)

pub Numbered-le : (from to : ℕ) (ps : List Packet) → Numbered from ps to → from ≤ to
Numbered-le from to [] h = omega arith
Numbered-le from to (p ∷ ps) h = omega (arith, Numbered-le (suc from) to ps h.1)

-- The queue of a client, with the number of the first packet in it.
pub record IsNumbered (first : ℕ) (c : Client) : Type 0 where
  pub queued : Numbered first c.notack_queue c.seq

-- A packet that `Send` could write takes the next number, at the end of the queue.
pub send-IsNumbered :
    (c c' : Client) (first : ℕ) (taskid content rest : List ℕ) (ok written : Bool)
    → IsNumbered first c
    → send_ready c taskid content written ≡ returns ok rest c'
    → IsNumbered first c'
unfolding send_ready
send-IsNumbered c c' first taskid content rest ok written v e =
    let more =
      Numbered-snoc first c.seq c.notack_queue (packet_of c taskid content) v.queued refl in
    ground (arith, more, add-one c.seq)

-- An acknowledgement takes the first packet off.
pub on_ack-IsNumbered :
    (c c' : Client) (first ack : ℕ)
    → IsNumbered first c
    → on_ack c ack ≡ some c'
    → IsNumbered (suc first) c'
unfolding on_ack
on_ack-IsNumbered c c' first ack v e = ground arith

-- What is written again is the queue, from its first packet on.
pub resend-Numbered :
    (first to : ℕ) (ps : List Packet) (fits : List Bool)
    → Numbered first ps to
    → (end : ℕ) × Numbered first (resend ps fits).0 end
      × (end ≤ to)
      × ((resend ps fits).1 ≡ true → end ≡ to)
unfolding resend
resend-Numbered first to [] fits h = (first, refl, omega arith, λ _. h)
resend-Numbered first to (p ∷ ps) [] h = (first, refl, Numbered-le first to (p ∷ ps) h, λ e. cc)
resend-Numbered first to (p ∷ ps) (false ∷ fits) h =
    (first, refl, Numbered-le first to (p ∷ ps) h, λ e. cc)
resend-Numbered first to (p ∷ ps) (true ∷ fits) h =
    let (end, n, le, full) = resend-Numbered (suc first) to ps fits h.1 in (end, (h.0, n), le, full)

-- ===== src/Rpc/Pipe/Inv.antt =====
-- No packet is ever lost, and none overtakes another.
use gaia_net.Base.{
  ℕ, suc, ◌≤◌, ◌<◌, ◌≡◌, sym, ◌∙◌, Bool, true, false, List, [], ◌∷◌, ◌++◌, length, arith, ◌⊎◌, inl,
  inr, get_or, get_or-append_left, length-append,
}
use gaia_net.Rpc.Client.{Packet, resend, v2}
use gaia_net.Rpc.Client.Numbered.{Numbered}
use gaia_net.Rpc.Pipe.{Pipe}

-- Each packet is the next one in number, or the repetition of an older one.
abbrev pub Gapless : ℕ → List Packet → ℕ → Type 0
Gapless n [] end = n ≡ end
Gapless n (p ∷ ps) end = ((p.seq ≡ n) × Gapless (suc n) ps end) ⊎ ((p.seq < n) × Gapless n ps end)

-- The acknowledgements are numbered without a gap.
abbrev pub Counted : ℕ → List ℕ → ℕ → Type 0
Counted from [] to = from ≡ to
Counted from (a ∷ acks) to = (a ≡ from) × Counted (suc from) acks to

-- Every packet has the body that was sent under its number.
abbrev pub Logged : List (List ℕ) → List Packet → Type 0
Logged log [] = Unit {0}
Logged log (p ∷ ps) = (p.seq < length log) × (p.body ≡ get_or log p.seq []) × Logged log ps

pub Gapless-snoc :
    (n end : ℕ) (ps : List Packet) (p : Packet)
    → Gapless n ps end
    → p.seq ≡ end
    → Gapless n (ps ++ p ∷ []) (suc end)
Gapless-snoc n end [] p h e = inl (omega arith, omega arith)
Gapless-snoc n end (q ∷ ps) p (inl h) e = inl (h.0, Gapless-snoc (suc n) end ps p h.1 e)
Gapless-snoc n end (q ∷ ps) p (inr h) e = inr (h.0, Gapless-snoc n end ps p h.1 e)

pub Gapless-old :
    (n end : ℕ) (ps : List Packet) (p : Packet)
    → Gapless n ps end
    → p.seq < end
    → Gapless n (ps ++ p ∷ []) end
Gapless-old n end [] p h e = inr (omega arith, h)
Gapless-old n end (q ∷ ps) p (inl h) e = inl (h.0, Gapless-old (suc n) end ps p h.1 e)
Gapless-old n end (q ∷ ps) p (inr h) e = inr (h.0, Gapless-old n end ps p h.1 e)

pub Counted-snoc :
    (from to : ℕ) (acks : List ℕ) (a : ℕ)
    → Counted from acks to
    → a ≡ to
    → Counted from (acks ++ a ∷ []) (suc to)
Counted-snoc from to [] a h e = (omega arith, omega arith)
Counted-snoc from to (b ∷ acks) a h e = (h.0, Counted-snoc (suc from) to acks a h.1 e)

pub Logged-snoc :
    (log : List (List ℕ)) (ps : List Packet) (p : Packet)
    → Logged log ps
    → p.seq < length log
    → p.body ≡ get_or log p.seq []
    → Logged log (ps ++ p ∷ [])
Logged-snoc log [] p h lt e = (lt, e, tt)
Logged-snoc log (q ∷ ps) p h lt e = (h.0, h.1, Logged-snoc log ps p h.2 lt e)

pub Logged-grow :
    (log : List (List ℕ)) (m : List ℕ) (ps : List Packet)
    → Logged log ps
    → Logged (log ++ m ∷ []) ps
Logged-grow log m [] h = tt
Logged-grow log m (p ∷ ps) h = (
  omega (arith, h.0, length-append log (m ∷ [])),
  h.1 ∙ sym (get_or-append_left log (m ∷ []) p.seq [] h.0),
  Logged-grow log m ps h.2,
)

pub Logged-resend :
    (log : List (List ℕ)) (ps : List Packet) (fits : List Bool)
    → Logged log ps
    → Logged log (resend ps fits).0
unfolding resend
Logged-resend log [] fits h = tt
Logged-resend log (p ∷ ps) [] h = tt
Logged-resend log (p ∷ ps) (false ∷ fits) h = tt
Logged-resend log (p ∷ ps) (true ∷ fits) h = (h.0, h.1, Logged-resend log ps fits h.2)

-- `first`: the oldest packet without an acknowledgement; `wire`: the next to come off the stream;
-- `end`: the next to be written on it; `seen`: the next that the far end has never had.
pub record Inv (s : Pipe) : Type 0 where
  pub first : ℕ
  pub wire : ℕ
  pub end : ℕ
  pub seen : ℕ
  pub version : s.client.rpc_version ≡ v2
  pub queued : Numbered first s.client.notack_queue s.client.seq
  pub counted : Counted first s.acks wire
  pub written : Numbered wire s.on_wire end
  pub whole : s.live ≡ true → end ≡ s.client.seq
  pub not_past : end ≤ s.client.seq
  pub known : wire ≤ seen
  pub bounded : seen ≤ s.client.seq
  pub gapless : Gapless 0 s.delivered seen
  pub all_logged : length s.log ≡ s.client.seq
  pub queue_logged : Logged s.log s.client.notack_queue
  pub wire_logged : Logged s.log s.on_wire
  pub delivered_logged : Logged s.log s.delivered

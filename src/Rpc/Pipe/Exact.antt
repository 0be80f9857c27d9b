-- ===== src/Rpc/Pipe/Exact.antt =====
-- From `Send` on one side to `Recv` on the other.
use gaia_net.Base.{
  ℕ, suc, ◌+◌, ◌-◌, ◌^◌, ◌≤◌, ◌<◌, ◌≡◌, ap, sym, ◌∙◌, subst, Bool, List, [], ◌∷◌, map, length, take,
  length-take, get_or, arith, inl, inr, tabulate, tabulate_ext, take-tabulate, length-map,
}
use gaia_net.Base.Int.{ℤ, negsuc}
use gaia_net.Rpc.Recv.{Event, got}
use gaia_net.Rpc.Recv.Safety.{settled}
use gaia_net.Rpc.Recv.Stream.{indexed, Carries, end, fresh, repeated}
use gaia_net.Rpc.Recv.Session.{Patient, calls, stream_received}
use gaia_net.Rpc.Client.{Packet}
use gaia_net.Rpc.Client.Numbered.{Numbered}
use gaia_net.Rpc.Pipe
use gaia_net.Rpc.Pipe.{Pipe, Reach}
use gaia_net.Rpc.Pipe.Inv.{Gapless, Logged, Inv}
use gaia_net.Rpc.Pipe.Steps.{Counted-le, Reach-Inv, fresh-Inv}

-- A packet as the peer puts it into redis: its number in four bytes, then the body.
abbrev pub to_event : Packet → Event
to_event p = indexed p.seq p.body

Gapless-le : (n to : ℕ) (ps : List Packet) → Gapless n ps to → n ≤ to
Gapless-le n to [] h = omega arith
Gapless-le n to (p ∷ ps) (inl h) = omega (arith, Gapless-le (suc n) to ps h.1)
Gapless-le n to (p ∷ ps) (inr h) = Gapless-le n to ps h.1

-- The messages with the numbers from `n` up to `to`.
abbrev part : List (List ℕ) → ℕ → ℕ → List (List ℕ)
part log n to = tabulate (to - n) (λ i. get_or log (n + i) [])

part-cons :
    (log : List (List ℕ)) (n to : ℕ)
    → n < to
    → part log n to ≡ get_or log n [] ∷ part log (suc n) to
part-cons log n to h =
    let size : to - n ≡ suc (to - suc n) = omega arith in
    ap (λ k. tabulate k (λ i. get_or log (n + i) [])) size
    ∙ ap (λ m. m ∷ tabulate (to - suc n) (λ i. get_or log (n + suc i) []))
        (ap (λ k. get_or log k []) (omega arith))
    ∙ ap (◌∷◌ (get_or log n [])) (
        tabulate_ext (to - suc n) _ (λ i. get_or log (suc n + i) [])
          (λ i lt. ap (λ k. get_or log k []) (omega arith)))

-- What has been delivered is a stream of the messages, with repetitions.
delivered-Carries :
    (cr : Bool) (log : List (List ℕ)) (n to : ℕ) (ps : List Packet)
    → to ≤ 2 ^ 31
    → Gapless n ps to
    → Logged log ps
    → Carries cr n (part log n to) (map to_event ps)
delivered-Carries cr log n to [] low h l =
    let none_left : to - n ≡ 0 = omega arith in rw none_left end
delivered-Carries cr log n to (p ∷ ps) low (inl h) l =
    let more = Gapless-le (suc n) to ps h.1 in
    rw (part-cons log n to more, h.0, l.1, h.0)
      (fresh (get_or log n []) (omega arith) (delivered-Carries cr log (suc n) to ps low h.1 l.2))
delivered-Carries cr log n to (p ∷ ps) low (inr h) l =
    repeated p.seq p.body h.0 (omega (arith, Gapless-le n to ps h.1))
      (delivered-Carries cr log n to ps low h.1 l.2)

part-whole : (log : List (List ℕ)) (to : ℕ) → to ≤ length log → part log 0 to ≡ take to log
part-whole log to h =
    ap (λ k. tabulate k (λ i. get_or log (0 + i) [])) (omega arith)
    ∙ tabulate_ext to _ (λ i. get_or log i []) (λ i lt. ap (λ k. get_or log k []) (omega arith))
    ∙ sym (take-tabulate to log [] h)

seen_length : (log : List (List ℕ)) (n : ℕ) → n ≤ length log → length (take n log) ≡ n
seen_length log n h = omega (arith, length-take n log)

-- A sender of the second version on a peer that keeps the order of each stream, over any history of
-- sends, deliveries, acknowledgements, failed writes and reconnections: at any moment, a receiver
-- that has patience for as many events as were delivered gets the first `seen` messages that were
-- sent, each once and in order, however often packets were written again; and `seen` is the number
-- of all messages sent as soon as the queue of unacknowledged packets is empty.
pub exact_delivery :
    (partyid to_partyid : ℕ) (use_redis : Bool) (t : ℤ) (cr : Bool) {s : Pipe}
    → Reach (Pipe.fresh partyid to_partyid use_redis) s
    → s.client.seq ≤ 2 ^ 31
    → Patient t (length s.delivered)
    → (seen : ℕ) × (seen ≤ length s.log)
      × (calls t cr seen (settled (negsuc 0)) (map to_event s.delivered)
          ≡ map got (take seen s.log))
      × (s.client.notack_queue ≡ [] → seen ≡ length s.log)
exact_delivery partyid to_partyid use_redis t cr {s} r low patient =
    (v.seen, omega (arith, v.bounded, v.all_logged), received, complete)
  where
    v : Inv s
    v = Reach-Inv (fresh-Inv partyid to_partyid use_redis) r

    stream : Carries cr 0 (take v.seen s.log) (map to_event s.delivered)
    stream =
        subst (λ ms. Carries cr 0 ms (map to_event s.delivered))
          (part-whole s.log v.seen (omega (arith, v.bounded, v.all_logged)))
          (delivered-Carries cr s.log 0 v.seen s.delivered (omega (arith, v.bounded)) v.gapless
            v.delivered_logged)

    received :
        calls t cr v.seen (settled (negsuc 0)) (map to_event s.delivered)
        ≡ map got (take v.seen s.log)
    received =
        subst
          (λ n.
            calls t cr n (settled (negsuc 0)) (map to_event s.delivered)
            ≡ map got (take v.seen s.log))
          (seen_length s.log v.seen (omega (arith, v.bounded, v.all_logged)))
          (stream_received t cr (length s.delivered) patient (take v.seen s.log) stream
            (omega (arith, length-map s.delivered to_event)))

    complete : s.client.notack_queue ≡ [] → v.seen ≡ length s.log
    complete e =
        let all : v.first ≡ s.client.seq =
          subst (λ q. Numbered v.first q s.client.seq) e v.queued in
        omega (arith, Counted-le v.first v.wire s.acks v.counted, v.known, v.bounded, v.all_logged)

-- ===== src/Channel/Peer/Talks.antt =====
-- From calls of `real_send` on one side to calls of `Recv` on the other.
use gaia_net.Base.{
  ℕ, ◌+◌, ◌%◌, ◌^◌, ◌≤◌, ◌≡◌, ◌≢◌, inl, inr, refl, ap, sym, ◌∙◌, subst, Bool, false, List, [], ◌∷◌,
  ◌++◌, map, take, length, arith, tabulate, length-append,
}
use gaia_net.Base.Int.{ℤ, negsuc}
use gaia_net.IChannel.{IChannel, statistics_send, statistics_recv, size_mod}
use gaia_net.Rpc.Recv.{got}
use gaia_net.Rpc.Recv.Safety.{settled}
use gaia_net.Rpc.Recv.Session.{Patient, calls}
use gaia_net.Rpc.Pipe
use gaia_net.Rpc.Pipe.{Pipe, Reach, here}
use gaia_net.Rpc.Pipe.Exact.{to_event, exact_delivery}
use gaia_net.Channel.{Attempt, attempts_max, real_send, success}
use gaia_net.Channel.Peer.{Plays, Talk, silent, passes, hears, says}
use gaia_net.Channel.Receive.{recv_loop, real_recv}
use gaia_net.Channel.Peer.Answers.{Hears-Reach, conclude-counts}
use gaia_net.Rpc.Pipe.Steps.{Reach-Inv, fresh-Inv}
use gaia_net.Channel.Peer.Runs.{Reach-trans}
use gaia_net.Channel.Peer.Attempts.{Finishes, real_send-Finishes}

next_count :
    (a b : ℕ) → a % size_mod ≡ b % size_mod → (a + 1) % size_mod % size_mod ≡ (b + 1) % size_mod
next_count a b e = omega (arith, e)

module _ (partyid to_partyid : ℕ) (use_redis : Bool) (net : IChannel) where
  abbrev first : Pipe
  first = Pipe.fresh partyid to_partyid use_redis

  -- A call that has moved its content out has added it.
  says_log :
      (content : List ℕ) (attempt : ℕ → Attempt) (net' net'' : IChannel) (t u : Pipe)
      → Reach first t
      → content ≢ []
      → Plays net'.channel_id content t (tabulate attempts_max attempt) u
      → real_send net' t.client content attempt ≡ success net'' u.client []
      → Reach first u
        × (u.log ≡ t.log ++ content ∷ [])
        × (net'' ≡ statistics_send net' (length content))
  says_log content attempt net' net'' t u r some plays e =
      let (more, means) =
        real_send-Finishes partyid to_partyid use_redis net' content attempt r plays in
      let (counted, c, out) = subst (Finishes t.log net' content u) e means in
      elim out [
        | inl (l, g) ↦ (Reach-trans r more, g, counted)
        | inr (l, g) ↦ absurd (some (sym l))
      ]

  -- The pipe's messages are the contents, and each was counted.
  pub Talk-log :
      {contents : List (List ℕ)} {net' : IChannel} {t : Pipe}
      → Talk net first contents net' t
      → Reach first t
        × (t.log ≡ contents)
        × (net'.packet_send % size_mod ≡ (net.packet_send + length contents) % size_mod)
  unfolding statistics_send statistics_recv real_recv
  Talk-log silent = (here, refl, ap (λ n. n % size_mod) (omega arith))
  Talk-log (passes talk between same) =
      let (r, log, counted) = Talk-log talk in (Reach-trans r between, same ∙ log, counted)
  Talk-log (hears {contents} {net'} {net''} {t} {u} timeout content attempt talk heard e) =
      let (r, log, counted) = Talk-log talk in
      let (more, same) =
        Hears-Reach timeout (Reach-Inv (fresh-Inv partyid to_partyid use_redis) r) heard in
      (
        Reach-trans r more,
        same ∙ log,
        ap (λ n. n.packet_send % size_mod)
              (conclude-counts net' net'' u.client content
                (recv_loop timeout (tabulate attempts_max attempt) t.client [] false) e)
            ∙ counted,
      )
  Talk-log (says {contents} {net'} {net''} {t} {u} content attempt talk some plays e) =
      let (r, log, counted) = Talk-log talk in
      let (ru, logu, count) = says_log content attempt net' net'' t u r some plays e in
      (
        ru,
        logu ∙ ap (λ l. l ++ content ∷ []) log,
        ap (λ n. n.packet_send % size_mod) count
            ∙ next_count net'.packet_send (net.packet_send + length contents) counted
            ∙ ap (λ n. n % size_mod) (omega (arith, length-append contents (content ∷ []))),
      )

-- A channel of the second version, on a peer that keeps the order of each stream, where each client's
-- thread has begun before the client is given up in a call, and any calls of `real_send` with contents that
-- are not empty, each of which returns with its content moved out, with any calls of `real_recv` that
-- return, flushes, acknowledgements and reconnections in between: at any moment, a receiver that has
-- patience for as many events as were delivered gets the first `seen` contents, each once and in order,
-- where `seen` is the number of all of them as soon as no packet waits for an acknowledgement; and the
-- channel's counter of messages has grown by their number.
pub contents_delivered :
    (partyid to_partyid : ℕ) (use_redis : Bool) (net : IChannel) (τ : ℤ) (cr : Bool)
    {contents : List (List ℕ)} {net' : IChannel} {s : Pipe}
    → Talk net (Pipe.fresh partyid to_partyid use_redis) contents net' s
    → s.client.seq ≤ 2 ^ 31
    → Patient τ (length s.delivered)
    → (seen : ℕ) × (seen ≤ length contents)
      × (calls τ cr seen (settled (negsuc 0)) (map to_event s.delivered)
          ≡ map got (take seen contents))
      × (s.client.notack_queue ≡ [] → seen ≡ length contents)
      × (net'.packet_send % size_mod ≡ (net.packet_send + length contents) % size_mod)
contents_delivered partyid to_partyid use_redis net τ cr {contents} {net'} {s} talk low patient =
    let (r, log, counted) = Talk-log partyid to_partyid use_redis net talk in
    let (seen, le, same, whole) = exact_delivery partyid to_partyid use_redis τ cr r low patient in
    (
      seen,
      subst (λ l. seen ≤ length l) log le,
      same ∙ ap (λ l. map got (take seen l)) log,
      (λ e. whole e ∙ ap length log),
      counted,
    )

-- ===== src/Channel/Peer/Answers.antt =====
-- A run of `real_recv` is a history of the pipe that adds no message.
use gaia_net.Base.{ℕ, ◌≡◌, refl, ◌∙◌, true, false, List, length}
use gaia_net.Base.Int.{ℤ}
use gaia_net.IChannel.{IChannel, statistics_recv}
use gaia_net.Rpc.Client.{Client}
use gaia_net.Rpc.Pipe.{Pipe, Reach, here, next, receives}
use gaia_net.Rpc.Pipe.Inv.{Inv}
use gaia_net.Rpc.Pipe.Steps.{Reach-Inv}
use gaia_net.Channel.{Ended, threw, crashed, blocked, ended, success}
use gaia_net.Channel.Receive
use gaia_net.Channel.Receive.{conclude}
use gaia_net.Channel.Peer.{Before, after_recv, Hears, all_tried, answers, unreached, renews}
use gaia_net.Channel.Peer.Runs.{
  Reach-trans, Delivered-Reach, Delivered-kept, Before-Reach, Before-kept, renewed_Reach,
}

-- A call of `Recv` in an attempt.
asked_Reach :
    (timeout : ℤ) (s t : Pipe) (a : Receive.Attempt)
    → Inv s
    → Before s a.acks a.read_end t
    → Reach s (after_recv timeout a.events t)
asked_Reach timeout s t a v b =
    next (Before-Reach s t a.acks a.read_end v b) (receives timeout true a.events refl)

-- The attempts are a history of the pipe, and none of them sends.
pub Hears-Reach :
    (timeout : ℤ) {s t : Pipe} {attempts : List Receive.Attempt}
    → Inv s
    → Hears timeout s attempts t
    → Reach s t × (t.log ≡ s.log)
Hears-Reach timeout v all_tried = (here, refl)
Hears-Reach timeout {s} v (answers {t} {a} {rest} b o) =
    (asked_Reach timeout s t a v b, (Before-kept s t a.acks a.read_end b).1)
Hears-Reach timeout {s} v (unreached {t} {u} {a} {rest} more b o g c d e) = (
  Reach-trans (asked_Reach timeout s t a v b) (Delivered-Reach d),
  (Delivered-kept d).1 ∙ (Before-kept s t a.acks a.read_end b).1,
)
Hears-Reach timeout {s} v (renews {t} {u} {v = end} {a} {rest} more b o g c d e hears) =
    let ru = Reach-trans (asked_Reach timeout s t a v b) (Delivered-Reach d) in
    let whole =
      Reach-trans ru (renewed_Reach u a.then_new.late more a.then_new.fits (Reach-Inv v ru) e) in
    let (later, same) = Hears-Reach timeout (Reach-Inv v whole) hears in
    (Reach-trans whole later, same ∙ (Delivered-kept d).1 ∙ (Before-kept s t a.acks a.read_end b).1)

-- A call of `real_recv` that returns has counted what it returns.
pub conclude-counts :
    (net net' : IChannel) (c : Client) (content : List ℕ) (r : Ended)
    → conclude net r ≡ success net' c content
    → net' ≡ statistics_recv net (length content)
conclude-counts net net' c content threw e = cc
conclude-counts net net' c content crashed e = cc
conclude-counts net net' c content blocked e = cc
conclude-counts net net' c content (ended true str u) e = cc
conclude-counts net net' c content (ended false str u) e = cc

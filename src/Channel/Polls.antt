-- ===== src/Channel/Polls.antt =====
-- `real_recv` of src/channel.cpp without redis: a loop that asks the second client until its `Recv`
-- returns true.
use gaia_net.Base.{ℕ, ◌≡◌, refl, true, false, List, [], ◌∷◌, length}
use gaia_net.IChannel.{IChannel, statistics_recv}
use gaia_net.Rpc.Pull.{PullReply, not_ok, not_found, found, PullResult, returns, throws, pull}

-- The call is not over when the answers are used up.
pub data Polled : Type 0 where
  threw : Polled
  polling : Polled
  received : IChannel → List ℕ → Polled

abbrev on_pull : PullResult → IChannel → Polled → Polled
on_pull (returns true str) net rest = received (statistics_recv net (length str)) str
on_pull (returns false str) net rest = rest
on_pull throws net rest = threw

unfoldable pub poll_loop : IChannel → List PullReply → Polled
poll_loop net [] = polling
poll_loop net (r ∷ rest) = on_pull (pull r) net (poll_loop net rest)

-- The loop never asks twice: what the first answer is decides the call.
pub poll_loop-once :
    (net : IChannel) (r : PullReply) (rest other : List PullReply)
    → poll_loop net (r ∷ rest) ≡ poll_loop net (r ∷ other)
unfolding poll_loop pull
poll_loop-once net not_ok rest other = refl
poll_loop-once net not_found rest other = refl
poll_loop-once net (found body) rest other = refl

-- ===== src/Channel.antt =====
-- The retry loops of src/channel.cpp: `real_send`, `real_recv` over redis, and `flush`. Each makes
-- up to 120 attempts and replaces the client after one that fails. Whatever gRPC, redis and the
-- other thread do meanwhile is in the record of the attempt.
pub mod Retry
pub mod Receive
pub mod Flush
pub mod Frame
pub mod Copies
pub mod Life
pub mod Peer
pub mod Polls
mod Tests
use gaia_net.Base.{
  ℕ, zero, suc, ◌≡◌, ◌⊎◌, inl, inr, refl, Bool, true, false, not, ◌||◌, ◌&&◌, List, [], ◌∷◌, Option,
  none, some, if◌then◌else◌, tabulate, length,
}
use gaia_net.Base.Int.{ℤ}
use gaia_net.IChannel.{IChannel, statistics_send, statistics_recv}
use gaia_net.Rpc.Recv.{
  Event, State, Outcome, got, failed, need_resend, overrun, out_of_range, waits, recv,
}
use gaia_net.Rpc.Client.{
  is_v2, Packet, Client, VersionReply, SendResult, throws, crashes, returns, send,
}
use gaia_net.Rpc.Flush.{read_acks, left_waiting, thread_turn}
use gaia_net.Rpc.Pipe.{successor}

-- What happens when a client is given up: `begun` says whether its thread has begun when `finish` looks at the
-- status, `late` acknowledgements are read before the thread is joined, `connects` says whether the server is
-- reached, and `fits` which of the packets can be written again.
pub record Reconnection : Type 0 where
  pub begun : Bool
  pub late : List ℕ
  pub connects : Bool
  pub fits : List Bool

-- What comes of it: the client is deleted with a thread that `finish` has not joined, which ends the program; `finish`
-- waits for a thread that waits for a packet; `create_channel` throws; or a new client goes on, with the result of
-- `set_continue_status`.
pub data Renewal : Type 0 where
  aborts : Renewal
  hangs : Renewal
  no_server : Renewal
  gets_new : Bool → Client → Renewal

-- finish, get_continue_status, destroy_channel, create_channel, set_continue_status; `waiting`: the thread waits
-- already with an acknowledgement that has found no packet.
unfoldable pub reconnect : Bool → Client → Reconnection → Renewal
reconnect waiting c r =
    if not r.begun && is_v2 c
    then aborts
    else if waiting || left_waiting r.late c
    then hangs
    else if r.connects
    then (let (ok, c', out) = successor (read_acks r.late c) r.fits in gets_new ok c')
    else no_server

pub Renewal-cases :
    (r : Renewal)
    → ((r ≡ aborts) ⊎ (r ≡ hangs))
      ⊎ ((r ≡ no_server) ⊎ ((ok : Bool) × (c : Client) × (r ≡ gets_new ok c)))
Renewal-cases aborts = inl (inl refl)
Renewal-cases hangs = inl (inr refl)
Renewal-cases no_server = inr (inl refl)
Renewal-cases (gets_new ok c) = inr (inr (ok, c, refl))

-- One attempt to send. `acks` are read, and the reading thread ends if `read_end`, before the
-- call; the version calls answer `replies`; the write answers `written`.
pub record Attempt : Type 0 where
  pub acks : List ℕ
  pub read_end : Bool
  pub replies : ℕ → VersionReply
  pub written : Bool
  pub then_new : Reconnection

-- How a loop ends: by an exception, by a crash, not yet, or with the last `ret`, the content and the client.
pub data Ended : Type 0 where
  threw : Ended
  crashed : Ended
  blocked : Ended
  ended : Bool → List ℕ → Client → Ended

-- After a new client is made, or is not.
abbrev pub on_new : Renewal → (Client → Bool → Ended) → Ended
on_new aborts go = crashed
on_new hangs go = blocked
on_new no_server go = threw
on_new (gets_new ok c) go = go c ok

-- After a call of `Send`: leave the loop, or reconnect and go round again.
abbrev pub on_sent : SendResult → Bool → Attempt → (List ℕ → Client → Bool → Ended) → Ended
on_sent throws waiting a go = threw
on_sent crashes waiting a go = crashed
on_sent (returns true left c) waiting a go = ended true left c
on_sent (returns false left c) waiting a go = on_new (reconnect waiting c a.then_new) (go left)

-- The loop of `real_send`, over the attempts that are left.
unfoldable pub send_loop : List Attempt → Client → List ℕ → List ℕ → Bool → Ended
send_loop [] c taskid content ret = ended ret content c
send_loop (a ∷ rest) c taskid content ret =
    on_sent (send (thread_turn a.acks a.read_end c) taskid content a.replies a.written)
      (left_waiting a.acks c) a (λ left c' ok. send_loop rest c' taskid left ok)

abbrev pub attempts_max : ℕ
attempts_max = 120

-- What a call leaves behind.
pub data Finished : Type 0 where
  failed_with : Finished
  crash : Finished
  pending : Finished
  success : IChannel → Client → List ℕ → Finished

abbrev pub conclude : IChannel → ℕ → Ended → Finished
conclude net nbytes threw = failed_with
conclude net nbytes crashed = crash
conclude net nbytes blocked = pending
conclude net nbytes (ended true left c) = success (statistics_send net nbytes) c left
conclude net nbytes (ended false left c) = failed_with

-- `real_send`: the counters, the client, and the string that was to be moved out.
unfoldable pub real_send : IChannel → Client → List ℕ → (ℕ → Attempt) → Finished
real_send net c content attempt =
    conclude net (length content)
      (send_loop (tabulate attempts_max attempt) c net.channel_id content false)

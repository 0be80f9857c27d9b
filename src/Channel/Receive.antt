-- ===== src/Channel/Receive.antt =====
-- `real_recv` of src/channel.cpp over redis.
pub mod Resumes
use gaia_net.Base.{ℕ, Bool, true, false, List, [], ◌∷◌, Option, none, some, tabulate, length}
use gaia_net.Base.Int.{ℤ}
use gaia_net.IChannel.{IChannel, statistics_recv}
use gaia_net.Rpc.Recv.{
  Event, State, Outcome, got, failed, need_resend, overrun, out_of_range, waits, recv, Reply,
}
use gaia_net.Rpc.Client.{Client, recv_state, with_state}
use gaia_net.Rpc.Flush.{thread_turn, left_waiting}
use gaia_net.Channel.{
  Reconnection, reconnect, Ended, threw, crashed, blocked, ended, on_new, attempts_max, Finished,
  failed_with, crash, pending, success,
}

-- One attempt to receive: what the acknowledging thread does first, and what redis answers.
pub record Attempt : Type 0 where
  pub acks : List ℕ
  pub read_end : Bool
  pub events : List Event
  pub then_new : Reconnection

-- After a call of `Recv`: leave the loop, or reconnect and go round again if it asks to.
abbrev pub on_recv :
    Outcome → Bool → Client → List ℕ → Reconnection → (Client → Bool → Ended) → Ended
on_recv (got content) waiting c str r go = ended true content c
on_recv failed waiting c str r go = ended false str c
on_recv need_resend waiting c str r go = on_new (reconnect waiting c r) go
on_recv overrun waiting c str r go = crashed
on_recv out_of_range waiting c str r go = threw
on_recv waits waiting c str r go = blocked

abbrev pub on_reply :
    Reply → Bool → Client → List ℕ → Reconnection → (Client → Bool → Ended) → Ended
on_reply (o, s, es) waiting c str r go = on_recv o waiting (with_state c s) str r go

-- The loop, over the attempts that are left. `str` is `move_in_str`.
unfoldable pub recv_loop : ℤ → List Attempt → Client → List ℕ → Bool → Ended
recv_loop timeout [] c str ret = ended ret str c
recv_loop timeout (a ∷ rest) c str ret =
    let c' = thread_turn a.acks a.read_end c in
    on_reply (recv timeout true (recv_state c') a.events) (left_waiting a.acks c) c' str a.then_new
      (λ c'' ok. recv_loop timeout rest c'' str ok)

abbrev pub conclude : IChannel → Ended → Finished
conclude net threw = failed_with
conclude net crashed = crash
conclude net blocked = pending
conclude net (ended true str c) = success (statistics_recv net (length str)) c str
conclude net (ended false str c) = failed_with

-- `real_recv` into an empty string.
unfoldable pub real_recv : IChannel → ℤ → Client → (ℕ → Attempt) → Finished
real_recv net timeout c attempt =
    conclude net (recv_loop timeout (tabulate attempts_max attempt) c [] false)

-- ===== src/Channel/Flush.antt =====
-- `flush` of src/channel.cpp.
pub mod Settles
use gaia_net.Base.{ℕ, Bool, true, false, List, [], ◌∷◌, Option, none, some, tabulate}
use gaia_net.Rpc.Client.{Client}
use gaia_net.Rpc.Flush.{Lap, Waited, wait_flush}
use gaia_net.Channel.{
  Reconnection, Renewal, aborts, hangs, no_server, gets_new, reconnect, attempts_max,
}

pub record Attempt : Type 0 where
  pub laps : ℕ → Lap
  pub then_new : Reconnection

-- How the loop ends: with its answer and the client, by the exception of `create_channel`, by the end
-- of the program, in the join of a thread that waits, or still waiting after more rounds than `wait_flush` can take.
pub data Flushed : Type 0 where
  says : Bool → Client → Flushed
  threw : Flushed
  aborted : Flushed
  joining : Flushed
  stuck : Flushed

-- Rounds of one `wait_flush` of ten seconds.
abbrev pub rounds_max : ℕ
rounds_max = 11

abbrev pub on_new : Renewal → (Client → Flushed) → Flushed
on_new aborts go = aborted
on_new hangs go = joining
on_new no_server go = threw
on_new (gets_new ok c) go = go c

-- A wait that asks for a reconnection has packets left, so that the thread does not wait for one.
abbrev pub on_waited : Option Waited → Reconnection → (Client → Flushed) → Flushed
on_waited none r go = stuck
on_waited (some (true, need_retry, c)) r go = says true c
on_waited (some (false, false, c)) r go = says false c
on_waited (some (false, true, c)) r go = on_new (reconnect false c r) go

-- The loop, over the attempts that are left.
unfoldable pub flush_loop : List Attempt → Client → Flushed
flush_loop [] c = says true c
flush_loop (a ∷ rest) c =
    on_waited (wait_flush rounds_max 10000 c a.laps) a.then_new (λ c'. flush_loop rest c')

unfoldable pub flush : Client → (ℕ → Attempt) → Flushed
flush c attempt = flush_loop (tabulate attempts_max attempt) c

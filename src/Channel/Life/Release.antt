-- ===== src/Channel/Life/Release.antt =====
-- That over redis a channel uses no client that is gone, and leaves none behind.
use gaia_net.Base.{ℕ, ◌≡◌, false, List, [], ◌∷◌}
use gaia_net.Channel.Life.{
  Pointer, unset, null, to, Life, Outcome, undefined, throws, returns, Call, call, destruct,
}
use gaia_net.Channel.Life.Owned.{Owned}

-- A caller that makes calls until one leaves it without a client, catching all exceptions, and then gives the
-- channel up.
abbrev pub go_on : Pointer → Life → (Life → Outcome) → Outcome
go_on unset l go = destruct l
go_on null l go = destruct l
go_on (to i) l go = go l

abbrev pub caught : Outcome → (Life → Outcome) → Outcome
caught undefined go = undefined
caught (throws l) go = go_on l.client l go
caught (returns l) go = go_on l.client l go

abbrev pub use_channel : List Call → Life → Outcome
use_channel [] l = destruct l
use_channel (c ∷ cs) l = caught (call c l) (use_channel cs)

-- The channel is gone, and no client is alive.
abbrev pub Released : Outcome → Type 0
Released undefined = ⊥
Released (throws l) = ⊥
Released (returns l) = (k : ℕ) → l.live k ≡ false

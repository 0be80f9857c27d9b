-- ===== src/IChannel.antt =====
-- The base class of the channels, src/ichannel.h: who talks to whom, and the traffic counters,
-- which are `std::size_t` and wrap at 2 ^ 64.
use gaia_net.Base.{ℕ, ◌+◌, ◌%◌, ◌^◌, List}

pub record IChannel : Type 0 where
  pub channel_id : List ℕ
  pub from_party : ℕ
  pub to_party : ℕ
  pub bytes_send : ℕ
  pub bytes_recv : ℕ
  pub packet_send : ℕ
  pub packet_recv : ℕ

abbrev pub size_mod : ℕ
size_mod = 2 ^ 64

-- The constructor.
unfoldable pub create : List ℕ → ℕ → ℕ → IChannel
create id from to = record {
  channel_id = id;
  from_party = from;
  to_party = to;
  bytes_send = 0;
  bytes_recv = 0;
  packet_send = 0;
  packet_recv = 0;
}

unfoldable pub statistics_send : IChannel → ℕ → IChannel
statistics_send c nbytes = record c {
  bytes_send = (c.bytes_send + nbytes) % size_mod;
  packet_send = (c.packet_send + 1) % size_mod;
}

unfoldable pub statistics_recv : IChannel → ℕ → IChannel
statistics_recv c nbytes = record c {
  bytes_recv = (c.bytes_recv + nbytes) % size_mod;
  packet_recv = (c.packet_recv + 1) % size_mod;
}

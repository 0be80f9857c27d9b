-- ===== src/Mem/Setup/Tests.antt =====
-- Two parties that set up a channel and talk.
use gaia_net.Base.{
  ap, ℕ, ◌+◌, ◌≡◌, refl, List, [], ◌∷◌, ◌++◌, arith, none, some, true, inl, replicate, length,
  length-replicate,
}
use gaia_net.Base.Bytes.{encode32}
use gaia_net.Base.Word.{IsPow2}
use gaia_net.IChannel.{IChannel}
use gaia_net.Mem.View
use gaia_net.Mem.View.{View}
use gaia_net.Mem.Channel.{send, chunk_cnt}
use gaia_net.Mem.Setup.{Store, construct}
use gaia_net.Mem.Setup.Pairing.{Paired, construct-attach}
use gaia_net.Mem.Setup.Conversation.{conversation_delivered}
use gaia_net.Mem.Transfer.{Link, here}
use gaia_net.Mem.Transfer.Chunks.{Rounds}
use gaia_net.Mem.Transfer.Follow.{concat, writes, IsWriter}
use gaia_net.Mem.Transfer.Deliver.{Outcome}
use gaia_net.Mem.Transfer.Bounds.{send_bounds}
use gaia_net.Mem.Transfer.Session.{Received, send_all, recv_all, received}

abbrev sixteen : IsPow2 16
sixteen = record { exponent = 4; small = omega arith; power = refl }

abbrev ping : List ℕ
ping = 80 ∷ []

abbrev long : List ℕ
long = 1 ∷ 2 ∷ 3 ∷ 4 ∷ 5 ∷ 6 ∷ 7 ∷ 8 ∷ 9 ∷ 10 ∷ 11 ∷ 12 ∷ 13 ∷ 14 ∷ 15 ∷ 16 ∷ 17 ∷ 18 ∷ []

blank : ℕ → List ℕ
blank n = replicate n 0

length-blank : (n : ℕ) → length (blank n) ≡ n
unfolding blank
length-blank n = length-replicate n 0

abbrev net : IChannel
net = record {
  channel_id = 116 ∷ [];
  from_party = 0;
  to_party = 1;
  bytes_send = 0;
  bytes_recv = 0;
  packet_send = 0;
  packet_recv = 0;
}

send_bounds_example :
    IsWriter 16 (send 16 net long 18)
    × (length (writes (send 16 net long 18)) ≡ 1 + chunk_cnt 18 16)
    × Rounds 16 (chunk_cnt 18 16) 18
    × (concat (writes (send 16 net long 18)) ≡ encode32 18 ++ long)
send_bounds_example = send_bounds 16 long net sixteen (omega arith) (omega arith)

-- A store without names.
abbrev bare : Store
bare = record { names = λ key. none; objects = λ id. View.init [] 0 true; fresh = 0 }

set_up : Paired bare 1 12 ping true 16
set_up = construct-attach bare 1 12 ping true 16 (omega arith)

abbrev link : Link IChannel Received
link = record {
  view = set_up.0.objects 0;
  sender = send_all 16 set_up.1.net (long ∷ ping ∷ []);
  receiver = recv_all 16 set_up.2.net blank 2;
}

conversation_delivered_example :
    (set_up.2.recv_buf ≡ some 0)
    × Outcome (received set_up.2.net (long ∷ ping ∷ []), long ∷ ping ∷ []) 10 0 link
unfolding chunk_cnt
conversation_delivered_example =
    conversation_delivered bare 1 12 ping true 16 (omega arith) set_up.1 set_up.2
      (construct bare 1 12 ping true 16).0 set_up.0
      (ap (λ a. ((construct bare 1 12 ping true 16).0, a)) set_up.3) set_up.4 set_up.1 set_up.2 0
      (long ∷ ping ∷ []) blank sixteen (omega arith) (inl (refl, refl)) set_up.5 (omega arith)
      length-blank here

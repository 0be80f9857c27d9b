-- ===== src/Mem/Tests.antt =====
-- Runs of the shared-memory channel on small inputs.
use gaia_net.Base.{
  ℕ, ◌-◌, ◌^◌, ◌≡◌, refl, List, [], ◌∷◌, arith, length, some, none, true, replicate,
  length-replicate,
}
use gaia_net.Base.Word.{IsPow2}
use gaia_net.IChannel.{IChannel, statistics_recv}
use gaia_net.Mem.Queue
use gaia_net.Mem.Queue.{Op}
use gaia_net.Mem.View
use gaia_net.Mem.View.{View, init, put, get, can_put, can_get, memcpy_at}
use gaia_net.Mem.View.Inv.{IsValid}
use gaia_net.Mem.View.Fifo.{contents}
use gaia_net.Mem.View.Trace
use gaia_net.Mem.View.Trace.{run_refines}
use gaia_net.Mem.Channel.{send, recv, chunk_cnt}
use gaia_net.Mem.Setup.{Store}
use gaia_net.Mem.Setup.Pairing.{Paired, construct-attach}
use gaia_net.Mem.Transfer.{Link, Steps, here, next, sends, receives}
use gaia_net.Mem.Transfer.Follow.{writes, follow}
use gaia_net.Mem.Transfer.Deliver.{Outcome}
use gaia_net.Mem.Transfer.Message.{message_delivered, send_near_limit}

abbrev eight : IsPow2 8
eight = record { exponent = 3; small = omega arith; power = refl }

-- Three bytes, the last of them at the front of the memory, with the counters about to wrap.
abbrev wrapping : View
wrapping = record {
  buf_size = 8;
  enable_cv = true;
  client_attached = 1;
  in_count = 1;
  out_count = 2 ^ 32 - 2;
  buffer = 30 ∷ 0 ∷ 0 ∷ 0 ∷ 0 ∷ 0 ∷ 10 ∷ 20 ∷ [];
}

wrapping-IsValid : IsValid wrapping
wrapping-IsValid = record {
  pow2 = eight;
  memory = refl;
  in_word = omega arith;
  out_word = omega arith;
  fits = omega arith;
}

contents-wrapping : contents wrapping ≡ 10 ∷ 20 ∷ 30 ∷ []
unfolding contents
contents-wrapping = refl

abbrev script : List Op
script =
    Op.get 4 ∷ Op.put (1 ∷ 2 ∷ 3 ∷ 4 ∷ 5 ∷ []) ∷ Op.put (6 ∷ []) ∷ Op.get 6 ∷ Op.put (6 ∷ []) ∷ []

run_refines_example : Trace.run wrapping script ≡ Queue.run 8 (10 ∷ 20 ∷ 30 ∷ []) script
unfolding contents
run_refines_example = run_refines script wrapping-IsValid (omega arith)

abbrev alice : IChannel
alice = record {
  channel_id = 116 ∷ [];
  from_party = 0;
  to_party = 1;
  bytes_send = 0;
  bytes_recv = 0;
  packet_send = 0;
  packet_recv = 0;
}

abbrev hello : List ℕ
hello = 104 ∷ 101 ∷ 108 ∷ 108 ∷ 111 ∷ 33 ∷ 33 ∷ 33 ∷ 33 ∷ 46 ∷ []

abbrev fresh : View
fresh = record {
  buf_size = 8;
  enable_cv = true;
  client_attached = 1;
  in_count = 2 ^ 32 - 2;
  out_count = 2 ^ 32 - 2;
  buffer = 0 ∷ 0 ∷ 0 ∷ 0 ∷ 0 ∷ 0 ∷ 0 ∷ 0 ∷ [];
}

fresh-IsValid : IsValid fresh
fresh-IsValid = record {
  pow2 = eight;
  memory = refl;
  in_word = omega arith;
  out_word = omega arith;
  fits = omega arith;
}

-- A resized string, kept shut so that a long one is never written out.
zeros : ℕ → List ℕ
zeros n = replicate n 0

length-zeros : (n : ℕ) → length (zeros n) ≡ n
unfolding zeros
length-zeros n = length-replicate n 0

abbrev begin : Link IChannel (IChannel × List ℕ)
begin = record { view = fresh; sender = send 8 alice hello 10; receiver = recv 8 alice zeros }

-- The header is written, and read.
header_steps : (t : Link IChannel (IChannel × List ℕ)) × Steps 2 begin t
unfolding send recv View.write View.read put get can_put can_get memcpy_at
header_steps =
    (_, next (sends _ _ _ _ refl refl refl) (next (receives _ _ _ _ refl refl refl) here))

message_delivered_example : Outcome (statistics_recv alice 10, hello) 6 2 header_steps.0
unfolding contents chunk_cnt
message_delivered_example =
    message_delivered 8 eight (omega arith) hello (omega arith) fresh alice alice zeros
      fresh-IsValid refl refl length-zeros header_steps.1

send_near_limit_example :
    follow (recv 8 alice zeros) (writes (send 8 alice hello (2 ^ 32 - 1)))
    ≡ some (statistics_recv alice (2 ^ 32 - 1), zeros (2 ^ 32 - 1))
send_near_limit_example =
    send_near_limit 8 alice alice hello (2 ^ 32 - 1) zeros eight (omega arith) (omega arith)
      length-zeros

-- A store without names.
abbrev nothing_yet : Store
nothing_yet = record { names = λ key. none; objects = λ id. fresh; fresh = 0 }

construct-attach_example : Paired nothing_yet 1 12 hello true 16
construct-attach_example = construct-attach nothing_yet 1 12 hello true 16 (omega arith)

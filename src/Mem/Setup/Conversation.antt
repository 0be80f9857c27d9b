-- ===== src/Mem/Setup/Conversation.antt =====
-- Set-up and messages together: what one party sends after both have set up, the other receives.
use gaia_net.Base.{
  ℕ, ◌+◌, ◌*◌, ◌≤◌, ◌<◌, ◌≡◌, refl, ap, sym, ◌∙◌, subst, ◌⊎◌, inl, inr, Bool, List, [], some,
  length, length-replicate, arith,
}
use gaia_net.Base.Word.{IsPow2}
use gaia_net.IChannel
use gaia_net.Mem.View
use gaia_net.Mem.View.{View}
use gaia_net.Mem.View.Inv.{IsValid}
use gaia_net.Mem.View.Fifo.{contents}
use gaia_net.Mem.Setup.{Store, MemChannel, construct, attach, done}
use gaia_net.Mem.Setup.Pairing.{shared, construct-attach}
use gaia_net.Mem.Transfer.{Link, Steps}
use gaia_net.Mem.Transfer.Deliver.{Outcome}
use gaia_net.Mem.Transfer.Session.{
  Received, send_all, recv_all, received, blocks, Short, messages_delivered,
}

shared-IsValid : (size : ℕ) (cv : Bool) → IsPow2 size → IsValid (shared size cv)
unfolding View.init
shared-IsValid size cv p = record {
  pow2 = p;
  memory = length-replicate size 0;
  in_word = omega arith;
  out_word = omega arith;
  fits = omega arith;
}

contents-shared : (size : ℕ) (cv : Bool) → contents (shared size cv) ≡ []
unfolding contents View.init
contents-shared size cv = refl

size_shared : (size : ℕ) (cv : Bool) → (shared size cv).buf_size ≡ size
unfolding View.init
size_shared size cv = refl

module _ (s : Store) (from to : ℕ) (taskid : List ℕ) (cv : Bool) (size : ℕ) (below : from < to)
    (a b : MemChannel) (s' t : Store) (first : construct s from to taskid cv size ≡ (s', a))
    (second : attach s' (construct s' to from taskid cv size).1 ≡ done t b) where
  both :
      (a.send_buf ≡ some s.fresh)
      × (b.recv_buf ≡ some s.fresh)
      × (b.send_buf ≡ some (s.fresh + 1))
      × (a.recv_buf ≡ some (s.fresh + 1))
      × (t.objects s.fresh ≡ shared size cv)
      × (t.objects (s.fresh + 1) ≡ shared size cv)
  both =
      let (t0, a0, b0, ea, eb, sa, rb, sb, ra, one, two, gone, gone', rest) =
        construct-attach s from to taskid cv size below in
      let same_a : a ≡ a0 = ap (λ r. r.1) (sym first) ∙ ea in
      let met : done t b ≡ done t0 b0 =
        sym second
        ∙ ap (λ r. attach r (construct r to from taskid cv size).1) (ap (λ r. r.0) (sym first))
        ∙ eb in
      let same_t : t ≡ t0 = cc in
      let same_b : b ≡ b0 = cc in
      (
        ap (λ c. c.send_buf) same_a ∙ sa,
        ap (λ c. c.recv_buf) same_b ∙ rb,
        ap (λ c. c.send_buf) same_b ∙ sb,
        ap (λ c. c.recv_buf) same_a ∙ ra,
        ap (λ r. r.objects s.fresh) same_t ∙ one,
        ap (λ r. r.objects (s.fresh + 1)) same_t ∙ two,
      )

  -- The ring between the two, in either direction, is new.
  ring :
      (x y : MemChannel) (id : ℕ)
      → ((x ≡ a) × (y ≡ b)) ⊎ ((x ≡ b) × (y ≡ a))
      → x.send_buf ≡ some id
      → (y.recv_buf ≡ some id) × (t.objects id ≡ shared size cv)
  ring x y id (inl (p, q)) h =
      let (sa, rb, sb, ra, one, two) = both in
      let found : some id ≡ some s.fresh = sym h ∙ ap (λ c. c.send_buf) p ∙ sa in
      let same : id ≡ s.fresh = cc in
      (ap (λ c. c.recv_buf) q ∙ rb ∙ sym found, ap t.objects same ∙ one)
  ring x y id (inr (p, q)) h =
      let (sa, rb, sb, ra, one, two) = both in
      let found : some id ≡ some (s.fresh + 1) = sym h ∙ ap (λ c. c.send_buf) p ∙ sb in
      let same : id ≡ s.fresh + 1 = cc in
      (ap (λ c. c.recv_buf) q ∙ ra ∙ sym found, ap t.objects same ∙ two)

  -- The party with the smaller number has constructed its channel, on any store, and the other one has
  -- constructed its own with the same settings and attached, with a ring of a power-of-two size from 8
  -- on. Then, in either direction, the second party receives from the ring that the first sends on; and
  -- of any messages shorter than 2 GiB that the first sends there and the second receives, in any
  -- interleaving: before two blocking calls are made for each header and each chunk one side can go
  -- on, and then both have returned, the receiver with the messages in order, each counted once, and
  -- the ring is empty.
  pub conversation_delivered :
      (x y : MemChannel) (id : ℕ) (ms : List (List ℕ)) (resized : ℕ → List ℕ) {n : ℕ}
      {l : Link IChannel.IChannel Received}
      → IsPow2 size
      → 8 ≤ size
      → ((x ≡ a) × (y ≡ b)) ⊎ ((x ≡ b) × (y ≡ a))
      → x.send_buf ≡ some id
      → Short ms
      → ((m : ℕ) → length (resized m) ≡ m)
      → Steps n
          (record {
            view = t.objects id;
            sender = send_all size x.net ms;
            receiver = recv_all size y.net resized (length ms);
          })
          l
      → (y.recv_buf ≡ some id) × Outcome (received y.net ms, ms) (2 * blocks size ms) n l
  conversation_delivered x y id ms resized {n} {l} pow2 least way h short len steps =
      let (meets, new) = ring x y id way h in
      (
        meets,
        messages_delivered size pow2 least ms (t.objects id) x.net y.net resized short
            (subst IsValid (sym new) (shared-IsValid size cv pow2))
            (ap (λ v. v.buf_size) new ∙ same_size) (ap contents new ∙ contents-shared size cv) len
            steps,
      )
    where
      same_size : (shared size cv).buf_size ≡ size
      same_size = size_shared size cv

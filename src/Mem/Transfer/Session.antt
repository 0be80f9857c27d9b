-- ===== src/Mem/Transfer/Session.antt =====
-- Several messages, one after another, over one ring.
use gaia_net.Base.{
  ℕ, zero, suc, ◌+◌, ◌*◌, ◌^◌, ◌≤◌, ◌<◌, ◌≡◌, refl, ap, sym, ◌∙◌, List, [], ◌∷◌, ◌++◌, append-nil,
  some, none, min, take, ◌%◌, Option, arith, length, length-append, ==_iff,
}
use gaia_net.Base.Word.{IsPow2, add32, sub32, u32_mod}
use gaia_net.IChannel.{IChannel, statistics_send, statistics_recv}
use gaia_net.Mem.View.{View}
use gaia_net.Mem.View.Inv.{IsValid}
use gaia_net.Mem.View.Fifo.{contents}
use gaia_net.Mem.Channel.{Prog, done, abort, write, read, send, recv, chunk_cnt, send_chunks}
use gaia_net.Mem.Transfer.{Link, Steps}
use gaia_net.Mem.Transfer.Follow.{writes, IsWriter, follow, follow-read}
use gaia_net.Mem.Transfer.Deliver.{Outcome, steps_outcome}
use gaia_net.Mem.Transfer.Message.{send-IsWriter, length-send, recv-send}

-- One program after another.
module _ {ℓ κ} {A : Type ℓ} {B : Type κ} where
  abbrev pub bind : Prog A → (A → Prog B) → Prog B
  bind (done a) f = f a
  bind abort f = abort
  bind (write src n k) f = write src n (bind k f)
  bind (read n k) f = read n (λ bs. bind (k bs) f)

-- A caller that sends messages, and one that receives `n` of them.
unfoldable pub send_all : ℕ → IChannel → List (List ℕ) → Prog IChannel
send_all size c [] = done c
send_all size c (m ∷ ms) = bind (send size c m (length m)) (λ c'. send_all size c' ms)

abbrev pub Received : Type 0
Received = IChannel × List (List ℕ)

abbrev add_first : List ℕ → Received → Prog Received
add_first m (d, ms) = done (d, m ∷ ms)

unfoldable pub recv_all : ℕ → IChannel → (ℕ → List ℕ) → ℕ → Prog Received
recv_all size d resized zero = done (d, [])
recv_all size d resized (suc n) =
    bind (recv size d resized) (λ r. bind (recv_all size r.0 resized n) (add_first r.1))

-- The receiver's counters after the messages.
abbrev pub received : IChannel → List (List ℕ) → IChannel
received d [] = d
received d (m ∷ ms) = received (statistics_recv d (length m)) ms

-- The blocking calls of each side.
abbrev pub blocks : ℕ → List (List ℕ) → ℕ
blocks size [] = 0
blocks size (m ∷ ms) = 1 + chunk_cnt (length m) size + blocks size ms

abbrev pub Short : List (List ℕ) → Type 0
Short [] = Unit {0}
Short (m ∷ ms) = (length m < 2 ^ 31) × Short ms

-- What a program that only writes returns.
abbrev ended {ℓ} : {A : Type ℓ} → Prog A → Option A
ended (done a) = some a
ended abort = none
ended (write src n k) = ended k
ended (read n k) = none

module _ {ℓ κ} {A : Type ℓ} {B : Type κ} where
  bind-IsWriter :
      (cap : ℕ) (p : Prog A) (f : A → Prog B)
      → IsWriter cap p
      → ((a : A) → IsWriter cap (f a))
      → IsWriter cap (bind p f)
  bind-IsWriter cap (done a) f w h = h a
  bind-IsWriter cap abort f w h = absurd w
  bind-IsWriter cap (write src n k) f w h = (w.0, w.1, w.2, bind-IsWriter cap k f w.3 h)
  bind-IsWriter cap (read n k) f w h = absurd w

  writes-bind :
      (p : Prog A) (a : A) (f : A → Prog B)
      → ended p ≡ some a
      → writes (bind p f) ≡ writes p ++ writes (f a)
  writes-bind (done x) a f e = let same : x ≡ a = cc in ap (λ y. writes (f y)) same
  writes-bind abort a f e = cc
  writes-bind (write src n k) a f e = ap (◌∷◌ (take n src)) (writes-bind k a f e)
  writes-bind (read n k) a f e = cc

  follow-bind :
      (q : Prog A) (b : A) (f : A → Prog B) (xs ys : List (List ℕ))
      → follow q xs ≡ some b
      → follow (bind q f) (xs ++ ys) ≡ follow (f b) ys
  follow-bind (done x) b f [] ys e = let same : x ≡ b = cc in ap (λ y. follow (f y) ys) same
  follow-bind (done x) b f (c ∷ cs) ys e = cc
  follow-bind abort b f xs ys e = cc
  follow-bind (write src n k) b f xs ys e = cc
  follow-bind (read n k) b f [] ys e = cc
  follow-bind (read n k) b f (c ∷ cs) ys e =
      let (size, rest) = follow-read b n k c cs e in
      rw ((==_iff _ _).1 size) (follow-bind (k c) b f cs ys rest)

ended-chunks {ℓ} :
    {A : Type ℓ} (i chunk : ℕ) (buf : List ℕ) (pos n : ℕ) (p : Prog A)
    → ended (send_chunks i chunk buf pos n p) ≡ ended p
unfolding send_chunks
ended-chunks zero chunk buf pos n p = refl
ended-chunks (suc i) chunk buf pos n p =
    ended-chunks i chunk buf (add32 pos (min n chunk)) (sub32 n (min n chunk)) p

ended-send :
    (size : ℕ) (c : IChannel) (m : List ℕ)
    → ended (send size c m (length m)) ≡ some (statistics_send c (length m))
unfolding send
ended-send size c m =
    ended-chunks (chunk_cnt (length m % u32_mod) size) size m 0 (length m % u32_mod)
      (done (statistics_send c (length m)))

module _ (size : ℕ) (pow2 : IsPow2 size) (least : 8 ≤ size) where
  send_all-IsWriter :
      (ms : List (List ℕ)) (c : IChannel) → Short ms → IsWriter size (send_all size c ms)
  unfolding send_all
  send_all-IsWriter [] c h = tt
  send_all-IsWriter (m ∷ ms) c h =
      bind-IsWriter size (send size c m (length m)) (λ c'. send_all size c' ms)
        (send-IsWriter size pow2 least m h.0 c) (λ c'. send_all-IsWriter ms c' h.1)

  writes-send_all :
      (m : List ℕ) (ms : List (List ℕ)) (c : IChannel)
      → writes (send_all size c (m ∷ ms))
        ≡ writes (send size c m (length m))
          ++ writes (send_all size (statistics_send c (length m)) ms)
  unfolding send_all
  writes-send_all m ms c =
      writes-bind (send size c m (length m)) (statistics_send c (length m))
        (λ c'. send_all size c' ms) (ended-send size c m)

  length-send_all :
      (ms : List (List ℕ)) (c : IChannel)
      → Short ms
      → length (writes (send_all size c ms)) ≡ blocks size ms
  unfolding send_all
  length-send_all [] c h = refl
  length-send_all (m ∷ ms) c h =
      ap length (writes-send_all m ms c)
      ∙ omega (
        arith,
        length-append (writes (send size c m (length m)))
            (writes (send_all size (statistics_send c (length m)) ms)),
        length-send size pow2 least m h.0 c,
        length-send_all ms (statistics_send c (length m)) h.1,
      )

  recv_all-send_all :
      (ms : List (List ℕ)) (c d : IChannel) (resized : ℕ → List ℕ)
      → Short ms
      → ((m : ℕ) → length (resized m) ≡ m)
      → follow (recv_all size d resized (length ms)) (writes (send_all size c ms))
        ≡ some (received d ms, ms)
  unfolding recv_all send_all
  recv_all-send_all [] c d resized h len = refl
  recv_all-send_all (m ∷ ms) c d resized h len =
      let c' = statistics_send c (length m) in
      let d' = statistics_recv d (length m) in
      let more = writes (send_all size c' ms) in
      ap (follow (recv_all size d resized (suc (length ms)))) (writes-send_all m ms c)
      ∙ follow-bind (recv size d resized) (d', m)
          (λ r. bind (recv_all size r.0 resized (length ms)) (add_first r.1))
          (writes (send size c m (length m))) more (recv-send size pow2 least m h.0 c d resized len)
      ∙ ap (follow (bind (recv_all size d' resized (length ms)) (add_first m)))
          (sym (append-nil more))
      ∙ follow-bind (recv_all size d' resized (length ms)) (received d' ms, ms) (add_first m) more
          [] (recv_all-send_all ms c' d' resized h.1 len)

  -- Any messages shorter than 2 GiB, sent one after another on one side of an empty valid ring, of any
  -- power-of-two size from 8 on and with counters anywhere, and received on the other side, in any
  -- interleaving: before two blocking calls are made for each header and each chunk, one side can go
  -- on, and then both have returned, the receiver with the messages in order, each counted once, and
  -- the ring is empty.
  pub messages_delivered :
      (ms : List (List ℕ)) (v : View) (c d : IChannel) (resized : ℕ → List ℕ) {n : ℕ}
      {t : Link IChannel Received}
      → Short ms
      → IsValid v
      → v.buf_size ≡ size
      → contents v ≡ []
      → ((m : ℕ) → length (resized m) ≡ m)
      → Steps n
          (record {
            view = v;
            sender = send_all size c ms;
            receiver = recv_all size d resized (length ms);
          })
          t
      → Outcome (received d ms, ms) (2 * blocks size ms) n t
  messages_delivered ms v c d resized {n} short ok eq empty len steps =
      steps_outcome _ _ n
        (record {
          valid = ok;
          inside = [];
          held = empty;
          writer = rw eq (send_all-IsWriter ms c short);
          reader = recv_all-send_all ms c d resized short len;
          count = omega (arith, length-send_all ms c short);
        })
        steps

-- ===== src/Channel/Peer/Attempts.antt =====
-- A run of `real_send` is a history of the pipe.
use gaia_net.Base.{
  ℕ, ◌+◌, ◌≡◌, ◌⊎◌, inl, inr, refl, ap, sym, ◌∙◌, subst, Bool, true, false, List, [], ◌∷◌, ◌++◌,
  tabulate, arith, length,
}
use gaia_net.Base.Int.{leb_ℤ}
use gaia_net.IChannel.{IChannel, statistics_send}
use gaia_net.Rpc.Client.{
  Client, VersionReply, v2, packet_of, thread_over, returns, send, send_ready, init_sender, new,
}
use gaia_net.Rpc.Flush.{read_acks, left_waiting, thread_turn}
use gaia_net.Rpc.Pipe
use gaia_net.Rpc.Pipe.{
  Pipe, Step, Reach, here, next, sends, refused, delivers, acknowledged, thread_ends, reconnects,
  successor,
}
use gaia_net.Rpc.Pipe.Inv.{Inv}
use gaia_net.Rpc.Pipe.Steps.{Reach-Inv, fresh-Inv}
use gaia_net.Channel.{
  Attempt, Reconnection, no_server, gets_new, Ended, threw, crashed, blocked, ended, reconnect,
  send_loop, real_send, conclude, attempts_max, Finished, failed_with, crash, pending, success,
}
use gaia_net.Channel.Peer.{
  Before, Fails, renewed, with_packet, Plays, all_made, writes, unreached, renews,
}
use gaia_net.Channel.{on_new, on_sent}
use gaia_net.Channel.Peer.Runs.{
  Reach-trans, Delivered-Reach, Delivered-kept, reads_through, renewed_Reach, Before-Reach,
  Before-through, Before-kept, Reach-Open,
}

-- `Send` on a client of the second version.
send_known :
    (c : Client) (taskid content : List ℕ) (replies : ℕ → VersionReply) (written : Bool)
    → c.rpc_version ≡ v2
    → send c taskid content replies written ≡ send_ready c taskid content written
unfolding send
send_known c taskid content replies written h = rw h refl

send_written :
    (c : Client) (taskid content : List ℕ)
    → c.rpc_version ≡ v2
    → c.stream_open ≡ true
    → thread_over c.recv_thread_status ≡ false
    → send_ready c taskid content true
      ≡ returns true [] (record c {
        seq = c.seq + 1;
        notack_queue = c.notack_queue ++ packet_of c taskid content ∷ [];
      })
unfolding send_ready
send_written c taskid content h o f = ground arith

send_failed :
    (c : Client) (taskid content : List ℕ) (a : Attempt)
    → c.rpc_version ≡ v2
    → c.stream_open ≡ true
    → Fails a c
    → send c taskid content a.replies a.written ≡ returns false content c
unfolding send send_ready
send_failed c taskid content a h o (inl f) = ground arith
send_failed c taskid content a h o (inr f) = ground arith

fresh-Open :
    (partyid to_partyid : ℕ) (use_redis : Bool)
    → (Pipe.fresh partyid to_partyid use_redis).client.stream_open ≡ true
unfolding init_sender new
fresh-Open partyid to_partyid use_redis = refl

-- What the end of the loop says of the pipe after it, where `log` was sent before.
abbrev Explains : List (List ℕ) → List ℕ → Pipe → Ended → Type 0
Explains log content t threw = t.log ≡ log
Explains log content t crashed = ⊥
Explains log content t blocked = ⊥
Explains log content t (ended ok left c) =
    (c ≡ t.client)
    × (((ok ≡ true) × (left ≡ []) × (t.log ≡ log ++ content ∷ []))
        ⊎ ((left ≡ content) × (t.log ≡ log)))

not_reached :
    (c : Client) (n : Reconnection)
    → n.begun ≡ true
    → left_waiting n.late c ≡ false
    → n.connects ≡ false
    → reconnect false c n ≡ no_server
unfolding reconnect
not_reached c n b w h = rw (b, w, h) refl

reached :
    (c : Client) (n : Reconnection)
    → n.begun ≡ true
    → left_waiting n.late c ≡ false
    → n.connects ≡ true
    → reconnect false c n
      ≡ (let (ok, c', out) = successor (read_acks n.late c) n.fits in gets_new ok c')
unfolding reconnect
reached c n b w h = rw (b, w, h) refl

send-Fails :
    (taskid content : List ℕ) (s t : Pipe) (a : Attempt)
    → Inv s
    → s.client.stream_open ≡ true
    → Before s a.acks a.read_end t
    → Fails a t.client
    → send (thread_turn a.acks a.read_end s.client) taskid content a.replies a.written
      ≡ returns false content t.client
send-Fails taskid content s t a v o b f =
    let r = Before-Reach s t a.acks a.read_end v b in
    ap (λ c. send c taskid content a.replies a.written)
      (sym (Before-kept s t a.acks a.read_end b).0)
    ∙ send_failed t.client taskid content a (Reach-Inv v r).version (Reach-Open v r o) f

-- After a call that fails, the client is given up.
gives_up :
    (taskid content : List ℕ) (rest : List Attempt) (s t : Pipe) (a : Attempt)
    → Inv s
    → s.client.stream_open ≡ true
    → Before s a.acks a.read_end t
    → Fails a t.client
    → on_sent
        (send (thread_turn a.acks a.read_end s.client) taskid content a.replies a.written)
        (left_waiting a.acks s.client)
        a
        (λ left c ok. send_loop rest c taskid left ok)
      ≡ on_new (reconnect false t.client a.then_new) (λ c ok. send_loop rest c taskid content ok)
gives_up taskid content rest s t a v o b f =
    ap
      (λ x.
        on_sent x (left_waiting a.acks s.client) a (λ left c ok. send_loop rest c taskid left ok))
      (send-Fails taskid content s t a v o b f)
    ∙ ap
        (λ w. on_new (reconnect w t.client a.then_new) (λ c ok. send_loop rest c taskid content ok))
        (Before-through s t a.acks a.read_end v b)

loop_Explains :
    (taskid content : List ℕ) (ret : Bool) {s t : Pipe} {attempts : List Attempt}
    → Inv s
    → s.client.stream_open ≡ true
    → Plays taskid content s attempts t
    → Reach s t × Explains s.log content t (send_loop attempts s.client taskid content ret)
unfolding send_loop
loop_Explains taskid content ret v o all_made = (here, (refl, inr (refl, refl)))
loop_Explains taskid content ret {s} v o (writes {t} {a} {rest} b f w l) =
    let r = Before-Reach s t a.acks a.read_end v b in
    let version = (Reach-Inv v r).version in
    let went = send_written t.client taskid content version (Reach-Open v r o) f in
    let e =
      ap (λ c. send c taskid content a.replies a.written)
        (sym (Before-kept s t a.acks a.read_end b).0)
      ∙ send_known t.client taskid content a.replies a.written version
      ∙ ap (send_ready t.client taskid content) w
      ∙ went in
    (
      next r (sends taskid content _ l (ap (leb_ℤ v2) version) went refl),
      subst
          (λ x. Explains s.log content (with_packet taskid content t) (
            on_sent x (left_waiting a.acks s.client) a
              (λ left c ok. send_loop rest c taskid left ok)))
          (sym e)
          (
            refl,
            inl (
              refl,
              refl,
              ap (λ log. log ++ content ∷ []) (Before-kept s t a.acks a.read_end b).1,
            ),
          ),
    )
loop_Explains taskid content ret {s} v o (unreached {t} {u} {a} {rest} more b f g c d e) =
    let r = Before-Reach s t a.acks a.read_end v b in
    let ru = Reach-trans r (Delivered-Reach d) in
    let same = (Delivered-kept d).0 in
    let late =
      ap (left_waiting a.then_new.late) (sym same)
      ∙ reads_through a.then_new.late more u (Reach-Inv v ru) e in
    (
      ru,
      subst (Explains s.log content u) (sym (gives_up taskid content rest s t a v o b f)) (
          subst
            (λ x. Explains s.log content u (on_new x (λ c ok. send_loop rest c taskid content ok)))
            (sym (not_reached t.client a.then_new g late c))
            ((Delivered-kept d).1 ∙ (Before-kept s t a.acks a.read_end b).1)),
    )
loop_Explains taskid content ret {s} v o
      (renews {t} {u} {v = end} {a} {rest} more b f g c d e plays) =
    let r = Before-Reach s t a.acks a.read_end v b in
    let ru = Reach-trans r (Delivered-Reach d) in
    let whole =
      Reach-trans ru (renewed_Reach u a.then_new.late more a.then_new.fits (Reach-Inv v ru) e) in
    let renewed_ok = (successor (read_acks a.then_new.late u.client) a.then_new.fits).0 in
    let (more_runs, means) =
      loop_Explains taskid content renewed_ok (Reach-Inv v whole) (Reach-Open v whole o) plays in
    let made : reconnect false t.client a.then_new
        ≡ gets_new renewed_ok (renewed u a.then_new.late a.then_new.fits).client =
      ap (λ x. reconnect false x a.then_new) (sym (Delivered-kept d).0)
      ∙ reached u.client a.then_new g (reads_through a.then_new.late more u (Reach-Inv v ru) e) c in
    (
      Reach-trans whole more_runs,
      subst (Explains s.log content end) (sym (gives_up taskid content rest s t a v o b f)) (
          subst
            (λ x.
              Explains s.log content end (on_new x (λ c ok. send_loop rest c taskid content ok)))
            (sym made)
            (subst
              (λ log. Explains log content end (
                on_new (gets_new renewed_ok (renewed u a.then_new.late a.then_new.fits).client)
                  (λ c ok. send_loop rest c taskid content ok)))
              ((Delivered-kept d).1 ∙ (Before-kept s t a.acks a.read_end b).1) means)),
    )

-- What the result of `real_send` says of the pipe after it.
abbrev pub Finishes : List (List ℕ) → IChannel → List ℕ → Pipe → Finished → Type 0
Finishes log net content t failed_with = t.log ≡ log
Finishes log net content t crash = ⊥
Finishes log net content t pending = ⊥
Finishes log net content t (success net' c left) =
    (net' ≡ statistics_send net (length content))
    × (c ≡ t.client)
    × (((left ≡ []) × (t.log ≡ log ++ content ∷ [])) ⊎ ((left ≡ content) × (t.log ≡ log)))

Explains-Finishes :
    (log : List (List ℕ)) (net : IChannel) (content : List ℕ) (t : Pipe) (r : Ended)
    → Explains log content t r
    → Finishes log net content t (conclude net (length content) r)
Explains-Finishes log net content t threw h = h
Explains-Finishes log net content t crashed h = h
Explains-Finishes log net content t blocked h = h
Explains-Finishes log net content t (ended true left c) (e, inl (ok, l, g)) = (refl, e, inl (l, g))
Explains-Finishes log net content t (ended true left c) (e, inr h) = (refl, e, inr h)
Explains-Finishes log net content t (ended false left c) (e, inl (ok, l, g)) = cc
Explains-Finishes log net content t (ended false left c) (e, inr (l, g)) = g

-- A call of `real_send` by a client of the second version with an open stream, on a peer that keeps the
-- order of each stream, from a pipe that was reached from a fresh one, where each client's thread has begun
-- before the client is given up: the attempts are a history of the pipe, and `real_send` does not crash.
-- When it returns, the client is the pipe's and the content was moved out exactly when it was added to what
-- is sent, once, as the last message; and when it fails with an assertion or an exception, nothing was
-- added.
pub real_send-Finishes :
    (partyid to_partyid : ℕ) (use_redis : Bool) (net : IChannel) (content : List ℕ)
    (attempt : ℕ → Attempt) {s t : Pipe}
    → Reach (Pipe.fresh partyid to_partyid use_redis) s
    → Plays net.channel_id content s (tabulate attempts_max attempt) t
    → Reach s t × Finishes s.log net content t (real_send net s.client content attempt)
unfolding real_send
real_send-Finishes partyid to_partyid use_redis net content attempt {s} {t} r plays =
    let v = fresh-Inv partyid to_partyid use_redis in
    let (runs, means) =
      loop_Explains net.channel_id content false (Reach-Inv v r)
        (Reach-Open v r (fresh-Open partyid to_partyid use_redis)) plays in
    (runs, Explains-Finishes s.log net content t _ means)

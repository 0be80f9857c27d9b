-- ===== src/Rpc/Client/Sends.antt =====
-- `Send` on every branch.
use gaia_net.Base.{
  ℕ, ◌+◌, ◌≡◌, refl, ◌⊎◌, inl, inr, not, if◌then◌else◌, Bool, true, false, List, [], ◌∷◌, ◌++◌,
}
use gaia_net.Base.Int.{eqb_ℤ}
use gaia_net.Rpc.Client.{
  Client, VersionReply, is_v2, not_inited, packet_of, SendResult, throws, crashes, returns,
  send_ready, send, thread_over,
}

-- What a result says of the call.
abbrev pub Explains : Client → List ℕ → List ℕ → Bool → SendResult → Type 0
Explains c taskid content written throws = ⊥
Explains c taskid content written crashes =
    (c.stream_open ≡ false) × (thread_over c.recv_thread_status ≡ false)
Explains c taskid content written (returns true rest c') =
    (rest ≡ [])
    × (written ≡ true)
    × (c.stream_open ≡ true)
    × (thread_over c.recv_thread_status ≡ false)
    × (((is_v2 c ≡ true)
          × (c' ≡ record c {
            seq = c.seq + 1;
            notack_queue = c.notack_queue ++ packet_of c taskid content ∷ [];
          }))
        ⊎ ((is_v2 c ≡ false) × (c' ≡ c)))
Explains c taskid content written (returns false rest c') =
    (rest ≡ content) × (c' ≡ c) × ((thread_over c.recv_thread_status ≡ true) ⊎ (written ≡ false))

-- The tests of `Send`, each with its value.
branches :
    (c : Client) (taskid content : List ℕ) (over opened written two : Bool)
    → thread_over c.recv_thread_status ≡ over
    → c.stream_open ≡ opened
    → is_v2 c ≡ two
    → Explains c taskid content written (
        if over
        then returns false content c
        else if not opened
        then crashes
        else if written
        then (if two
            then returns true [] (record c {
              seq = c.seq + 1;
              notack_queue = c.notack_queue ++ packet_of c taskid content ∷ [];
            })
            else returns true [] c)
        else returns false content c)
branches c taskid content true opened written two h o v = (refl, refl, inl h)
branches c taskid content false false written two h o v = (o, h)
branches c taskid content false true false two h o v = (refl, refl, inr refl)
branches c taskid content false true true true h o v = (refl, refl, o, h, inl (v, refl))
branches c taskid content false true true false h o v = (refl, refl, o, h, inr (v, refl))

ready_Explains :
    (c : Client) (taskid content : List ℕ) (written : Bool)
    → Explains c taskid content written (send_ready c taskid content written)
unfolding send_ready
ready_Explains c taskid content written = branches c taskid content _ _ written _ refl refl refl

-- `Send` on a client whose version is known either takes the content, when the stream is open, the
-- acknowledging thread is not over and the write goes through, and then keeps it in a packet with
-- the next number if the version is the second one; or it returns false and leaves content and
-- client as they were; or it crashes, when the stream was never opened. It does not throw.
pub send-Explains :
    (c : Client) (taskid content : List ℕ) (replies : ℕ → VersionReply) (written : Bool)
    → eqb_ℤ c.rpc_version not_inited ≡ false
    → Explains c taskid content written (send c taskid content replies written)
unfolding send
send-Explains c taskid content replies written h = rw h (ready_Explains c taskid content written)

-- ===== src/Channel/Life/Dangling.antt =====
-- What a reconnection that fails leaves of a channel without redis.
use gaia_net.Base.{ℕ, ◌≡◌, suc, refl, ap, subst, ◌∙◌, Bool, true, false, List}
use gaia_net.Channel.Life.{
  Config, World, channel_args, null, to, Life, undefined, throws, returns, and_then, mark,
  on_connected, create_channel, construct, drop_client, client_finish, destroy_channel, renew, Try,
  renews, on_try, use_client, unset, try_loop, sends, call, destruct,
}

module _ (server local : List ℕ) (time : ℕ) (test : Bool) where
  -- A channel without redis.
  abbrev pub without_redis : Config
  without_redis = record {
    server_address = server;
    redis_address = local;
    connect_wait_time = time;
    use_redis = false;
    test_compress = test;
  }

  -- As it is constructed, and after a reconnection that failed.
  abbrev new_channel : Life
  new_channel = record {
    config = without_redis;
    client = to 0;
    rcv_client = to 1;
    live = mark 1 true (mark 0 true (λ i. false));
    made = 2;
  }

  abbrev left_over : Life
  left_over = record {
    config = without_redis;
    client = null;
    rcv_client = to 1;
    live = mark 1 false (mark 0 false (mark 1 true (mark 0 true (λ i. false))));
    made = 2;
  }

  connected_new :
      (b : Bool) (l : Life)
      → on_connected b (record {
        config = without_redis;
        client = unset;
        rcv_client = unset;
        live = λ i. false;
        made = 0;
      })
        ≡ returns l
      → new_channel ≡ l
  connected_new true l h = (let g = h in cc)
  connected_new false l h = absurd (let g = h in cc)

  renew_new :
      (w : World)
      → w server (channel_args test) time ≡ false
      → renew w new_channel ≡ throws left_over
  unfolding renew drop_client destroy_channel client_finish create_channel
  renew_new w h = ap (λ b. and_then (on_connected b left_over) (λ l'. use_client l'.client l')) h

  sends_new :
      (w : World) (tries : ℕ → Try)
      → tries 0 ≡ renews w
      → w server (channel_args test) time ≡ false
      → call (sends tries) new_channel ≡ throws left_over
  unfolding call try_loop
  sends_new w tries first h =
      ap (λ t. on_try t new_channel (try_loop 119 (λ i. tries (suc i)))) first
      ∙ ap (λ o. and_then o (try_loop 119 (λ i. tries (suc i)))) (renew_new w h)

  sends_left : (tries : ℕ → Try) → call (sends tries) left_over ≡ undefined
  unfolding call try_loop
  sends_left tries = refl

  destruct_left : destruct left_over ≡ undefined
  unfolding destruct destroy_channel
  destruct_left = refl

  -- A channel without redis that was constructed, and a send whose first attempt asks for a new client
  -- while the server is not reached: the send throws, and after that every other send calls a
  -- member function through the null pointer, and the destructor calls one of a client that was
  -- deleted.
  pub receiver_dangles :
      (at_first w : World) (tries : ℕ → Try) (l : Life)
      → construct at_first without_redis ≡ returns l
      → tries 0 ≡ renews w
      → w server (channel_args test) time ≡ false
      → (l' : Life) × (call (sends tries) l ≡ throws l')
        × ((more : ℕ → Try) → call (sends more) l' ≡ undefined)
        × (destruct l' ≡ undefined)
  unfolding construct create_channel
  receiver_dangles at_first w tries l built first h = (
    left_over,
    subst (λ x. call (sends tries) x ≡ throws left_over)
        (connected_new (at_first server (channel_args test) time) l built)
        (sends_new w tries first h),
    sends_left,
    destruct_left,
  )

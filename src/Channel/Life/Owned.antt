-- ===== src/Channel/Life/Owned.antt =====
-- The client of a channel over redis: there is none, or one that the channel points to.
use gaia_net.Base.{
  ℕ, zero, suc, ◌+◌, ◌==◌, ◌≡◌, refl, ap, sym, subst, ◌∙◌, ◌⊎◌, inl, inr, Bool, true, false,
  Bool-cases, if◌then◌else◌, ==_iff,
}
use gaia_net.Channel.{attempts_max}
use gaia_net.Channel.Life.{
  World, channel_args, null, to, Life, Outcome, undefined, throws, returns, and_then, mark,
  use_client, make_receiver, on_connected, create_channel, drop_client, finish_at, client_finish,
  destroy_receiver, destroy_channel, renew, Try, succeeds, fails, renews, on_try, try_loop, Call,
  sends, receives, flushes, finishes, receive, call, wait_at, destruct,
}

-- Exactly the client `i` is alive, and the channel points to it.
pub record Alive (i : ℕ) (l : Life) : Type 0 where
  pub redis : l.config.use_redis ≡ true
  pub points : l.client ≡ to i
  pub only : (k : ℕ) → l.live k ≡ (k == i)

-- No client is alive, and the channel knows it.
pub record Idle (l : Life) : Type 0 where
  pub redis : l.config.use_redis ≡ true
  pub points : l.client ≡ null
  pub dead : (k : ℕ) → l.live k ≡ false

abbrev pub Owned : Life → Type 0
Owned l = Idle l ⊎ ((i : ℕ) × Alive i l)

-- What a call may leave behind.
abbrev pub Good : Outcome → Type 0
Good undefined = ⊥
Good (throws l) = Owned l
Good (returns l) = Owned l

self : (i : ℕ) → (i == i) ≡ true
self i = (==_iff i i).1 refl

module _ (i : ℕ) (l : Life) (a : Alive i l) where
  use_to : use_client (to i) l ≡ returns l
  use_to = ap (λ b. if b then returns l else undefined) (a.only i ∙ self i)

  use-Alive : use_client l.client l ≡ returns l
  use-Alive = ap (λ p. use_client p l) a.points ∙ use_to

  gone : (k : ℕ) → mark i false l.live k ≡ false
  gone k = elim (Bool-cases (k == i)) [ inl e ↦ rw e refl | inr e ↦ rw e (a.only k ∙ e) ]

  drop-Alive : (l' : Life) × (drop_client l ≡ returns l') × Idle l'
  unfolding drop_client
  drop-Alive = (
    record l { client = null; live = mark i false l.live },
    rw (a.points, a.only i ∙ self i) refl,
    record { redis = a.redis; points = refl; dead = gone },
  )

  finish-Alive : (l' : Life) × (client_finish l ≡ returns l') × Idle l'
  unfolding client_finish
  finish-Alive =
      let (l', dropped, idle) = drop-Alive in
      (
        l',
        ap (λ p. finish_at p l) a.points ∙ ap (λ o. and_then o drop_client) use_to ∙ dropped,
        idle,
      )

  destroy-Alive : (l' : Life) × (destroy_channel l ≡ returns l') × Idle l'
  unfolding destroy_channel
  destroy-Alive =
      let (l', finished, idle) = finish-Alive in
      (l', ap (λ b. and_then (destroy_receiver b l) client_finish) a.redis ∙ finished, idle)

finish-Idle : (l : Life) → Idle l → client_finish l ≡ returns l
unfolding client_finish
finish-Idle l h = ap (λ p. finish_at p l) h.points

destroy-Idle : (l : Life) → Idle l → destroy_channel l ≡ returns l
unfolding destroy_channel
destroy-Idle l h = ap (λ b. and_then (destroy_receiver b l) client_finish) h.redis ∙ finish-Idle l h

-- A new client, where there was none.
pub create_dead :
    (b : Bool) (l : Life)
    → l.config.use_redis ≡ true
    → ((k : ℕ) → l.live k ≡ false)
    → (on_connected b l ≡ throws l)
      ⊎ ((l' : Life) × (on_connected b l ≡ returns l') × ((i : ℕ) × Alive i l'))
create_dead false l redis dead = inl refl
create_dead true l redis dead = inr (
  record l { client = to l.made; live = mark l.made true l.live; made = l.made + 1 },
  ap
      (λ b.
        make_receiver b
          (record l { client = to l.made; live = mark l.made true l.live; made = l.made + 1 }))
      redis,
  (
    l.made,
    record {
      redis = redis;
      points = refl;
      only = λ k. elim (Bool-cases (k == l.made)) [ inl e ↦ rw e refl | inr e ↦ rw e (dead k) ];
    },
  ),
)

module _ (w : World) (i : ℕ) (l : Life) (a : Alive i l) where
  -- A replacement: the server is not reached, or there is a new client.
  renew-Alive :
      ((l' : Life) × (renew w l ≡ throws l') × Idle l')
      ⊎ ((l' : Life) × (renew w l ≡ returns l') × ((j : ℕ) × Alive j l'))
  unfolding renew create_channel
  renew-Alive =
      let (l1, dropped, idle) = drop-Alive i l a in
      let reached =
        w l1.config.server_address (channel_args l1.config.test_compress)
          l1.config.connect_wait_time in
      let front : and_then (and_then (use_client l.client l) drop_client) destroy_channel
          ≡ returns l1 =
        ap (λ o. and_then (and_then o drop_client) destroy_channel) (use-Alive i l a)
        ∙ ap (λ o. and_then o destroy_channel) dropped
        ∙ destroy-Idle l1 idle in
      let all : renew w l ≡ and_then (create_channel w l1) (λ l2. use_client l2.client l2) =
        ap (λ o. and_then o (λ l'. and_then (create_channel w l') (λ l2. use_client l2.client l2)))
          front in
      elim (create_dead reached l1 idle.redis idle.dead) [
        | inl e ↦ inl (l1, all ∙ ap (λ o. and_then o (λ l2. use_client l2.client l2)) e, idle)
        | inr (l2, e, (j, b)) ↦ inr (
          l2,
          all ∙ ap (λ o. and_then o (λ l3. use_client l3.client l3)) e ∙ use-Alive j l2 b,
          (j, b),
        )
      ]

-- What the loops leave behind.
module _ (i : ℕ) (l : Life) (a : Alive i l) (go : Life → Outcome)
    (good : (j : ℕ) (l' : Life) → Alive j l' → Good (go l')) where
  on_try-Good : (t : Try) → Good (on_try t l go)
  on_try-Good succeeds = inr (i, a)
  on_try-Good fails = inr (i, a)
  on_try-Good (renews w) = elim (renew-Alive w i l a) [
    | inl (l', e, idle) ↦ subst Good (sym (ap (λ o. and_then o go) e)) (inl idle)
    | inr (l', e, (j, b)) ↦ subst Good (sym (ap (λ o. and_then o go) e)) (good j l' b)
  ]

try_loop-Good : (n : ℕ) (tries : ℕ → Try) (i : ℕ) (l : Life) → Alive i l → Good (try_loop n tries l)
unfolding try_loop
try_loop-Good zero tries i l a = inr (i, a)
try_loop-Good (suc n) tries i l a =
    let rest = try_loop n (λ k. tries (suc k)) in
    subst Good (sym (ap (λ o. and_then o (λ l'. on_try (tries 0) l' rest)) (use-Alive i l a)))
      (on_try-Good i l a rest (try_loop-Good n (λ k. tries (suc k))) (tries 0))

pub call-Good : (c : Call) (i : ℕ) (l : Life) → Alive i l → Good (call c l)
unfolding call
call-Good (sends tries) i l a = try_loop-Good attempts_max tries i l a
call-Good (receives tries) i l a =
    subst (λ b. Good (receive b tries l)) (sym a.redis) (try_loop-Good attempts_max tries i l a)
call-Good (flushes tries) i l a = try_loop-Good attempts_max tries i l a
call-Good finishes i l a = let (l', e, idle) = finish-Alive i l a in subst Good (sym e) (inl idle)

pub destruct-Owned : (l : Life) → Owned l → (l' : Life) × (destruct l ≡ returns l') × Idle l'
unfolding destruct
destruct-Owned l (inl h) =
    (l, ap (λ p. and_then (wait_at p l) destroy_channel) h.points ∙ destroy-Idle l h, h)
destruct-Owned l (inr (i, a)) =
    let (l', e, idle) = destroy-Alive i l a in
    (
      l',
      ap (λ p. and_then (wait_at p l) destroy_channel) a.points
          ∙ ap (λ o. and_then o destroy_channel) (use_to i l a)
          ∙ e,
      idle,
    )

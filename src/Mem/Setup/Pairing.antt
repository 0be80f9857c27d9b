-- ===== src/Mem/Setup/Pairing.antt =====
-- Two parties that set up a channel end up on the same two rings.
pub mod Release
use gaia_net.Base.{
  ℕ, ◌+◌, ◌<◌, ◌≡◌, ◌≢◌, refl, ap, sym, ◌∙◌, Bool, true, false, List, none, some, replicate, arith,
  ltb, ◌==◌,
}
use gaia_net.Base.Bytes.{same_bytes_self, same_bytes_other}
use gaia_net.IChannel
use gaia_net.IChannel.{IChannel}
use gaia_net.Keys.{get_shm_key}
use gaia_net.Keys.Distinct.{get_shm_key-injective}
use gaia_net.Mem.View
use gaia_net.Mem.View.{View, attach_init}
use gaia_net.Mem.Setup.{
  Store, bind, put_object, destroy_shm, create_shm, created, on_send_attached, on_recv_attached,
  attached, attach_shm, MemChannel, construct, done, attach,
}

-- An empty ring that one client has attached to.
abbrev pub shared : ℕ → Bool → View
shared size cv = record (View.init (replicate size 0) size cv) { client_attached = 1 }

pub attach_init_lem :
    (size : ℕ) (cv : Bool)
    → attach_init (View.init (replicate size 0) size cv) cv ≡ some (shared size cv)
unfolding attach_init View.init
attach_init_lem size true = refl
attach_init_lem size false = refl

module _ (s : Store) (ka kb : List ℕ) (other : ka ≢ kb) (cv : Bool) (size : ℕ) where
  -- The store after `construct` on the side with the smaller number.
  two_rings : Store
  two_rings = record {
    names =
        bind kb (some (s.fresh + 1)) (bind ka (some s.fresh) (bind kb none (bind ka none s.names)));
    objects =
        put_object (s.fresh + 1) (View.init (replicate size 0) size cv)
          (put_object s.fresh (View.init (replicate size 0) size cv) s.objects);
    fresh = s.fresh + 1 + 1;
  }

  cleared : Store
  cleared = destroy_shm (destroy_shm s ka) kb

  first_ring : Store
  unfolding cleared destroy_shm
  first_ring = record {
    names = bind ka (some s.fresh) (bind kb none (bind ka none s.names));
    objects = put_object s.fresh (View.init (replicate size 0) size cv) s.objects;
    fresh = s.fresh + 1;
  }

  create_first : create_shm cleared ka size cv ≡ (first_ring, s.fresh)
  unfolding create_shm cleared destroy_shm first_ring
  create_first = rw (same_bytes_other ka kb other, same_bytes_self ka) refl

  create_second : create_shm first_ring kb size cv ≡ (two_rings, s.fresh + 1)
  unfolding create_shm first_ring two_rings
  create_second = rw (same_bytes_other kb ka (λ e. other (sym e)), same_bytes_self kb) refl

  -- The store after the other side has attached to its sending ring, and to both.
  after_send : Store
  unfolding destroy_shm two_rings
  after_send =
      destroy_shm
        (record two_rings { objects = put_object (s.fresh + 1) (shared size cv) two_rings.objects })
        kb

  ring_second : two_rings.objects (s.fresh + 1) ≡ View.init (replicate size 0) size cv
  unfolding two_rings
  ring_second = let e : ((s.fresh + 1) == (s.fresh + 1)) ≡ true = ground arith in rw e refl

  attach_send : attach_shm two_rings kb cv ≡ attached (s.fresh + 1) after_send
  unfolding attach_shm two_rings after_send
  attach_send = rw (same_bytes_self kb, ring_second, attach_init_lem size cv) refl

  after_both : Store
  unfolding destroy_shm after_send
  after_both =
      destroy_shm
        (record after_send { objects = put_object s.fresh (shared size cv) after_send.objects }) ka

  ring_first : after_send.objects s.fresh ≡ View.init (replicate size 0) size cv
  unfolding after_send two_rings destroy_shm
  ring_first =
      let apart : (s.fresh == (s.fresh + 1)) ≡ false = ground arith in
      let same : (s.fresh == s.fresh) ≡ true = ground arith in rw (apart, same) refl

  name_first : after_send.names ka ≡ some s.fresh
  unfolding after_send two_rings destroy_shm
  name_first = rw (same_bytes_other ka kb other, same_bytes_self ka) refl

  attach_recv : attach_shm after_send ka cv ≡ attached s.fresh after_both
  unfolding attach_shm after_both
  attach_recv = rw (name_first, ring_first, attach_init_lem size cv) refl

  -- Each ring is shared, and only the two names are gone.
  both_shared :
      (after_both.objects s.fresh ≡ shared size cv)
      × (after_both.objects (s.fresh + 1) ≡ shared size cv)
      × (after_both.names ka ≡ none)
      × (after_both.names kb ≡ none)
      × ((key : List ℕ) → key ≢ ka → key ≢ kb → after_both.names key ≡ s.names key)
  unfolding after_both after_send two_rings destroy_shm
  both_shared =
      let same : (s.fresh == s.fresh) ≡ true = ground arith in
      let apart : ((s.fresh + 1) == s.fresh) ≡ false = ground arith in
      let same' : ((s.fresh + 1) == (s.fresh + 1)) ≡ true = ground arith in
      (
        rw same refl,
        rw (apart, same') refl,
        rw (same_bytes_self ka) refl,
        rw (same_bytes_other kb ka (λ e. other (sym e)), same_bytes_self kb) refl,
        λ key h k. rw (same_bytes_other key ka h, same_bytes_other key kb k) refl,
      )

-- The channel on two rings, and the one that is still to attach.
abbrev on_rings : IChannel → ℕ → Bool → ℕ → ℕ → MemChannel
on_rings net size cv sid rid = record {
  net = net;
  buf_size = size;
  enable_cv = cv;
  need_attach = false;
  send_buf = some sid;
  recv_buf = some rid;
}

abbrev to_attach : IChannel → ℕ → Bool → MemChannel
to_attach net size cv = record {
  net = net;
  buf_size = size;
  enable_cv = cv;
  need_attach = true;
  send_buf = none;
  recv_buf = none;
}

module _ (s : Store) (from to : ℕ) (taskid : List ℕ) (cv : Bool) (size : ℕ)
    (below : from < to) where
  abbrev key_of : ℕ → ℕ → List ℕ
  key_of x y = get_shm_key x y taskid

  other : key_of from to ≢ key_of to from
  other e = absurd (omega (arith, below, (get_shm_key-injective from to to from taskid taskid e).0))

  abbrev rings : Store
  rings = two_rings s (key_of from to) (key_of to from) other cv size

  construct_first :
      construct s from to taskid cv size
      ≡ (rings, on_rings (IChannel.create taskid from to) size cv s.fresh (s.fresh + 1))
  unfolding construct cleared
  construct_first =
      let less : ltb from to ≡ true = ground arith in
      let net = IChannel.create taskid from to in
      let kb = key_of to from in
      rw less (
        ap (λ r. created net size cv r (λ s1. create_shm s1 kb size cv))
          (create_first s (key_of from to) kb other cv size)
        ∙ ap
            (λ r.
              created net size cv (first_ring s (key_of from to) kb other cv size, s.fresh)
                (λ s1. r))
            (create_second s (key_of from to) kb other cv size))

  construct_second :
      construct rings to from taskid cv size
      ≡ (rings, to_attach (IChannel.create taskid to from) size cv)
  unfolding construct
  construct_second = let more : ltb to from ≡ false = ground arith in rw more refl

  abbrev joined : Store
  joined = after_both s (key_of from to) (key_of to from) other cv size

  attach_second :
      attach rings (to_attach (IChannel.create taskid to from) size cv)
      ≡ done joined (on_rings (IChannel.create taskid to from) size cv (s.fresh + 1) s.fresh)
  unfolding attach IChannel.create
  attach_second =
      let c = to_attach (IChannel.create taskid to from) size cv in
      ap (on_send_attached c (key_of from to))
        (attach_send s (key_of from to) (key_of to from) other cv size)
      ∙ ap (on_recv_attached c (s.fresh + 1))
          (attach_recv s (key_of from to) (key_of to from) other cv size)

-- The channels of the two sides, and the store, once both are set up.
abbrev pub Paired : Store → ℕ → ℕ → List ℕ → Bool → ℕ → Type 0
Paired s from to taskid cv size =
    (t : Store) × (a b : MemChannel) × ((construct s from to taskid cv size).1 ≡ a)
    × (attach (construct s from to taskid cv size).0
          (construct (construct s from to taskid cv size).0 to from taskid cv size).1
        ≡ done t b)
    × (a.send_buf ≡ some s.fresh)
    × (b.recv_buf ≡ some s.fresh)
    × (b.send_buf ≡ some (s.fresh + 1))
    × (a.recv_buf ≡ some (s.fresh + 1))
    × (t.objects s.fresh ≡ shared size cv)
    × (t.objects (s.fresh + 1) ≡ shared size cv)
    × (t.names (get_shm_key from to taskid) ≡ none)
    × (t.names (get_shm_key to from taskid) ≡ none)
    × ((key : List ℕ)
        → key ≢ get_shm_key from to taskid
        → key ≢ get_shm_key to from taskid
        → t.names key ≡ s.names key)

-- The party with the smaller number constructs its channel, on a store with whatever names in it, and
-- then the other one constructs its own, with the same task, ring size and waiting mode, and attaches
-- to it: nobody waits or aborts, each party sends on the ring from which the other receives, the two
-- rings differ and are empty and attached to once, and afterwards neither name is there any more while
-- all other names lead where they led.
pub construct-attach :
    (s : Store) (from to : ℕ) (taskid : List ℕ) (cv : Bool) (size : ℕ)
    → from < to
    → Paired s from to taskid cv size
construct-attach s from to taskid cv size h =
    let (one, two, gone, gone', rest) =
      both_shared s (get_shm_key from to taskid) (get_shm_key to from taskid)
        (other s from to taskid cv size h) cv size in
    (
      joined s from to taskid cv size h,
      on_rings (IChannel.create taskid from to) size cv s.fresh (s.fresh + 1),
      on_rings (IChannel.create taskid to from) size cv (s.fresh + 1) s.fresh,
      ap (λ r. r.1) (construct_first s from to taskid cv size h),
      ap (λ r. attach r.0 (construct r.0 to from taskid cv size).1)
            (construct_first s from to taskid cv size h)
          ∙ ap (λ r. attach (rings s from to taskid cv size h) r.1)
              (construct_second s from to taskid cv size h)
          ∙ attach_second s from to taskid cv size h,
      refl,
      refl,
      refl,
      refl,
      one,
      two,
      gone,
      gone',
      rest,
    )

-- ===== src/Mem/Setup/Stages.antt =====
-- The set-up of src/memchannel.cpp in the steps that other processes can come between: the constructor
-- of the party with the smaller number and `attach` of the other one, with each opening of a name,
-- each taking and freeing of a file lock, and what is done under the lock. In `attach_shm` the name
-- is opened before the lock is taken.
pub mod Fits
pub mod Inv
pub mod Creates
pub mod Attaches
pub mod Leaves
pub mod Meets
pub mod Stale
mod Tests
use gaia_net.Base.{
  ℕ, ◌+◌, ◌==◌, ◌≡◌, Bool, true, false, List, [], Option, none, some, if◌then◌else◌, replicate,
}
use gaia_net.Mem.View
use gaia_net.Mem.View.{View, attach_init}
use gaia_net.Mem.Setup.{resized}

-- The two rings, as the constructing side sees them.
pub data Side : Type 0 where
  send_ring : Side
  recv_ring : Side

-- Where the constructor is: before a `destroy_shm`; in `create_shm` before the lock, before
-- `shm_open`, before `ftruncate` and `init` of the object that it has opened, and before the lock is
-- freed; or past both.
pub data Creator : Type 0 where
  clears : Side → Creator
  locks : Side → Creator
  opens : Side → Creator
  inits : Side → ℕ → Creator
  frees : Side → Creator
  up : Creator

-- Where `attach` is: in `attach_shm` before `shm_open`, before the lock, under it with the object
-- that was opened, and before the lock is freed; or past both rings.
pub data Attacher : Type 0 where
  looks : Side → Attacher
  queues : Side → ℕ → Attacher
  attaches : Side → ℕ → Attacher
  releases : Side → Attacher
  joined : Attacher

-- The names of the two rings, the objects (`none` before the first `init`), the free numbers, which lock
-- is taken, and the objects that each side works with.
pub record World : Type 0 where
  pub names : Side → Option ℕ
  pub objects : ℕ → Option View
  pub fresh : ℕ
  pub locked : Side → Bool
  pub creator : Creator
  pub made : Side → Option ℕ
  pub attacher : Attacher
  pub got : Side → Option ℕ

abbrev pub set {ℓ} : {A : Type ℓ} → Side → A → (Side → A) → Side → A
set send_ring a f send_ring = a
set send_ring a f recv_ring = f recv_ring
set recv_ring a f send_ring = f send_ring
set recv_ring a f recv_ring = a

abbrev pub put : ℕ → Option View → (ℕ → Option View) → ℕ → Option View
put id o objects k = if k == id then o else objects k

-- A process waits, fails an assertion, or goes on.
pub data Turn : Type 0 where
  waiting : Turn
  failed : Turn
  goes : World → Turn

abbrev pub after_clear : Side → Creator
after_clear send_ring = clears recv_ring
after_clear recv_ring = locks send_ring

abbrev pub after_free : Side → Creator
after_free send_ring = locks recv_ring
after_free recv_ring = up

-- `shm_open` with O_CREAT and O_EXCL, or again without.
abbrev pub open_or_make : Option ℕ → World → Side → World
open_or_make none w r = record w {
  names = set r (some w.fresh) w.names;
  objects = put w.fresh none w.objects;
  fresh = w.fresh + 1;
  creator = inits r w.fresh;
}
open_or_make (some id) w r = record w { creator = inits r id }

-- A lock that is free is taken.
abbrev pub when_free : Bool → World → Turn
when_free true w = waiting
when_free false w = goes w

-- `attach` takes the ring that it sends on first.
abbrev pub after_release : Side → Attacher
after_release recv_ring = looks send_ring
after_release send_ring = joined

abbrev pub look : Option ℕ → World → Side → Turn
look none w r = waiting
look (some id) w r = goes (record w { attacher = queues r id })

-- `attach_init` of what was opened, and `shm_unlink` of the name, whatever it leads to by now.
abbrev pub on_attach : Option View → World → Side → ℕ → Turn
on_attach none w r id = failed
on_attach (some v) w r id = goes (record w {
  objects = put id (some v) w.objects;
  names = set r none w.names;
  got = set r (some id) w.got;
  attacher = releases r;
})

abbrev pub on_object : Bool → Option View → World → Side → ℕ → Turn
on_object cv none w r id = failed
on_object cv (some v) w r id = on_attach (attach_init v cv) w r id

-- The memory that `init` finds, after `ftruncate`.
abbrev pub memory : ℕ → Option View → List ℕ
memory size none = replicate size 0
memory size (some v) = resized size v.buffer

module _ (size : ℕ) (cv : Bool) where
  abbrev pub create : Creator → World → Turn
  create (clears r) w = goes (record w { names = set r none w.names; creator = after_clear r })
  create (locks r) w =
      when_free (w.locked r) (record w { locked = set r true w.locked; creator = opens r })
  create (opens r) w = goes (open_or_make (w.names r) w r)
  create (inits r id) w = goes (record w {
    objects = put id (some (View.init (memory size (w.objects id)) size cv)) w.objects;
    made = set r (some id) w.made;
    creator = frees r;
  })
  create (frees r) w = goes (record w { locked = set r false w.locked; creator = after_free r })
  create up w = waiting

  -- The next step of the constructor.
  unfoldable pub creator_turn : World → Turn
  creator_turn w = create w.creator w

  abbrev pub attach : Attacher → World → Turn
  attach (looks r) w = look (w.names r) w r
  attach (queues r id) w =
      when_free (w.locked r) (record w { locked = set r true w.locked; attacher = attaches r id })
  attach (attaches r id) w = on_object cv (w.objects id) w r id
  attach (releases r) w =
      goes (record w { locked = set r false w.locked; attacher = after_release r })
  attach joined w = waiting

  -- The next step of the other side.
  unfoldable pub attacher_turn : World → Turn
  attacher_turn w = attach w.attacher w

  pub data Step (w w' : World) : Type 0 where
    creator_steps : creator_turn w ≡ goes w' → Step w w'
    attacher_steps : attacher_turn w ≡ goes w' → Step w w'

  pub data Steps : ℕ → World → World → Type 0 where
    here : {w : World} → Steps 0 w w
    next : {n : ℕ} {w w' w'' : World} → Steps n w w' → Step w' w'' → Steps (n + 1) w w''

-- Both sides at their beginning, with what earlier channels have left.
abbrev pub begin : (Side → Option ℕ) → (ℕ → Option View) → ℕ → World
begin names objects fresh = record {
  names = names;
  objects = objects;
  fresh = fresh;
  locked = λ r. false;
  creator = clears send_ring;
  made = λ r. none;
  attacher = looks recv_ring;
  got = λ r. none;
}

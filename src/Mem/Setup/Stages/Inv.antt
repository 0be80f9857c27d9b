-- ===== src/Mem/Setup/Stages/Inv.antt =====
-- The invariant of the two sides' steps: each ring fits how far both are with it.
use gaia_net.Base.{
  ℕ, ◌+◌, ◌==◌, ◌≡◌, ◌≢◌, inl, inr, refl, ap, Bool, Option, if◌then◌else◌, replicate, arith, ==_iff,
  Bool-cases,
}
use gaia_net.Mem.View
use gaia_net.Mem.View.{View, attach_init}
use gaia_net.Mem.Setup.Pairing.{shared}
use gaia_net.Mem.Setup.Stages.{
  Side, send_ring, recv_ring, Creator, clears, locks, opens, inits, frees, up, Attacher, looks,
  queues, attaches, releases, joined, World, put,
}
use gaia_net.Mem.Setup.Stages.Fits.{Place, Expected, Made, Got, made_of, got_of, Fits}

-- The steps that a side still has to take.
abbrev pub creator_left : Creator → ℕ
creator_left (clears send_ring) = 10
creator_left (clears recv_ring) = 9
creator_left (locks send_ring) = 8
creator_left (opens send_ring) = 7
creator_left (inits send_ring id) = 6
creator_left (frees send_ring) = 5
creator_left (locks recv_ring) = 4
creator_left (opens recv_ring) = 3
creator_left (inits recv_ring id) = 2
creator_left (frees recv_ring) = 1
creator_left up = 0

abbrev pub attacher_left : Attacher → ℕ
attacher_left (looks recv_ring) = 8
attacher_left (queues recv_ring id) = 7
attacher_left (attaches recv_ring id) = 6
attacher_left (releases recv_ring) = 5
attacher_left (looks send_ring) = 4
attacher_left (queues send_ring id) = 3
attacher_left (attaches send_ring id) = 2
attacher_left (releases send_ring) = 1
attacher_left joined = 0

-- The objects that are there.
abbrev pub objects_of : Creator → ℕ
objects_of (clears r) = 0
objects_of (locks send_ring) = 0
objects_of (opens send_ring) = 0
objects_of (inits send_ring id) = 1
objects_of (frees send_ring) = 1
objects_of (locks recv_ring) = 1
objects_of (opens recv_ring) = 1
objects_of (inits recv_ring id) = 2
objects_of (frees recv_ring) = 2
objects_of up = 2

abbrev pub object_of : ℕ → Side → ℕ
object_of base send_ring = base
object_of base recv_ring = base + 1

abbrev pub CreatorKnows : ℕ → Creator → Type 0
CreatorKnows base (clears r) = Unit {0}
CreatorKnows base (locks r) = Unit {0}
CreatorKnows base (opens r) = Unit {0}
CreatorKnows base (inits r id) = id ≡ object_of base r
CreatorKnows base (frees r) = Unit {0}
CreatorKnows base up = Unit {0}

abbrev pub AttacherKnows : ℕ → Attacher → Type 0
AttacherKnows base (looks r) = Unit {0}
AttacherKnows base (queues r id) = id ≡ object_of base r
AttacherKnows base (attaches r id) = id ≡ object_of base r
AttacherKnows base (releases r) = Unit {0}
AttacherKnows base joined = Unit {0}

-- What a world has of a ring whose object is `id`.
abbrev at : Side → ℕ → World → Place
at r id w = record {
  name = w.names r;
  object = w.objects id;
  lock = w.locked r;
  made = w.made r;
  got = w.got r;
}

-- The two rings, the first of which has the object `base`.
abbrev pub send_at : ℕ → World → Place
send_at base w = at send_ring base w

abbrev pub recv_at : ℕ → World → Place
recv_at base w = at recv_ring (base + 1) w

pub put_same : (id : ℕ) (o : Option View) (f : ℕ → Option View) → put id o f id ≡ o
put_same id o f = ap (λ b. if b then o else f id) ((==_iff id id).1 refl)

put_other : (id k : ℕ) (o : Option View) (f : ℕ → Option View) → k ≢ id → put id o f k ≡ f k
put_other id k o f h = elim (Bool-cases (k == id)) [
  | inl e ↦ absurd (h ((==_iff k id).0 e))
  | inr e ↦ ap (λ b. if b then o else f k) e
]

abbrev pub new : ℕ → Bool → View
new size cv = View.init (replicate size 0) size cv

abbrev pub sent : ℕ → Bool → ℕ → Expected
sent size cv base = record { id = base; new = new size cv; shared = shared size cv }

abbrev pub received : ℕ → Bool → ℕ → Expected
received size cv base = record { id = base + 1; new = new size cv; shared = shared size cv }

module _ (size : ℕ) (cv : Bool) (base : ℕ) where
  -- The invariant, with the two sides' places given apart.
  pub record Inv (c : Creator) (a : Attacher) (w : World) : Type 0 where
    pub at_send :
        Fits (sent size cv base) (made_of c send_ring) (got_of a send_ring) (send_at base w)
    pub at_recv :
        Fits (received size cv base) (made_of c recv_ring) (got_of a recv_ring) (recv_at base w)
    pub free_from : w.fresh ≡ base + objects_of c
    pub creator_knows : CreatorKnows base c
    pub attacher_knows : AttacherKnows base a

  -- The other ring's object stays.
  pub send_kept : (o : Option View) (f : ℕ → Option View) → put (base + 1) o f base ≡ f base
  send_kept o f = put_other (base + 1) base o f (λ e. omega (arith, e))

  pub recv_kept : (o : Option View) (f : ℕ → Option View) → put base o f (base + 1) ≡ f (base + 1)
  recv_kept o f = put_other base (base + 1) o f (λ e. omega (arith, e))

  abbrev pub Send : Made → Got → Place → Type 0
  Send m g = Fits (sent size cv base) m g

  abbrev pub Recv : Made → Got → Place → Type 0
  Recv m g = Fits (received size cv base) m g

-- ===== src/Mem/Setup/Stages/Fits.antt =====
-- How far both sides are with one ring, and what its name, object and lock are then.
use gaia_net.Base.{ℕ, ◌≡◌, ◌≢◌, refl, sym, ◌∙◌, Bool, true, false, Option, none, some}
use gaia_net.Mem.View.{View}
use gaia_net.Mem.Setup.Stages.{
  Side, send_ring, recv_ring, Creator, clears, locks, opens, inits, frees, up, Attacher, looks,
  queues, attaches, releases, joined,
}

-- The constructor and a ring: not begun, under the lock before and after the object is there, the object is
-- initialised, past it.
pub data Made : Type 0 where
  absent : Made
  taken : Made
  raw : Made
  filled : Made
  out : Made

-- The other side: not begun, with the object open, under the lock before and after the attaching, past it.
pub data Got : Type 0 where
  outside : Got
  opened : Got
  inside : Got
  leaving : Got
  gone : Got

abbrev pub made_of : Creator → Side → Made
made_of (clears r) q = absent
made_of (locks send_ring) q = absent
made_of (locks recv_ring) send_ring = out
made_of (locks recv_ring) recv_ring = absent
made_of (opens send_ring) send_ring = taken
made_of (opens send_ring) recv_ring = absent
made_of (opens recv_ring) send_ring = out
made_of (opens recv_ring) recv_ring = taken
made_of (inits send_ring id) send_ring = raw
made_of (inits send_ring id) recv_ring = absent
made_of (inits recv_ring id) send_ring = out
made_of (inits recv_ring id) recv_ring = raw
made_of (frees send_ring) send_ring = filled
made_of (frees send_ring) recv_ring = absent
made_of (frees recv_ring) send_ring = out
made_of (frees recv_ring) recv_ring = filled
made_of up q = out

abbrev pub got_of : Attacher → Side → Got
got_of (looks recv_ring) q = outside
got_of (looks send_ring) recv_ring = gone
got_of (looks send_ring) send_ring = outside
got_of (queues recv_ring id) recv_ring = opened
got_of (queues recv_ring id) send_ring = outside
got_of (queues send_ring id) recv_ring = gone
got_of (queues send_ring id) send_ring = opened
got_of (attaches recv_ring id) recv_ring = inside
got_of (attaches recv_ring id) send_ring = outside
got_of (attaches send_ring id) recv_ring = gone
got_of (attaches send_ring id) send_ring = inside
got_of (releases recv_ring) recv_ring = leaving
got_of (releases recv_ring) send_ring = outside
got_of (releases send_ring) recv_ring = gone
got_of (releases send_ring) send_ring = leaving
got_of joined q = gone

-- The name of a ring, its object, its lock, and the objects that the two sides work with.
pub record Place : Type 0 where
  pub name : Option ℕ
  pub object : Option View
  pub lock : Bool
  pub made : Option ℕ
  pub got : Option ℕ

-- The object of a ring, what it is once it is initialised, and what it is once it is attached to.
pub record Expected : Type 0 where
  pub id : ℕ
  pub new : View
  pub shared : View

-- What is kept of a ring.
module _ (x : Expected) where
  abbrev pub Ring : Place → Option ℕ → Option View → Bool → Option ℕ → Option ℕ → Type 0
  Ring p n o l m g = (p.name ≡ n) × (p.object ≡ o) × (p.lock ≡ l) × (p.made ≡ m) × (p.got ≡ g)

  abbrev pub Fits : Made → Got → Place → Type 0
  Fits absent outside p = (p.name ≡ none) × (p.lock ≡ false) × (p.made ≡ none) × (p.got ≡ none)
  Fits taken outside p = (p.name ≡ none) × (p.lock ≡ true) × (p.made ≡ none) × (p.got ≡ none)
  Fits raw outside p = Ring p (some x.id) none true none none
  Fits raw opened p = Ring p (some x.id) none true none none
  Fits filled outside p = Ring p (some x.id) (some x.new) true (some x.id) none
  Fits filled opened p = Ring p (some x.id) (some x.new) true (some x.id) none
  Fits out outside p = Ring p (some x.id) (some x.new) false (some x.id) none
  Fits out opened p = Ring p (some x.id) (some x.new) false (some x.id) none
  Fits out inside p = Ring p (some x.id) (some x.new) true (some x.id) none
  Fits out leaving p = Ring p none (some x.shared) true (some x.id) (some x.id)
  Fits out gone p = Ring p none (some x.shared) false (some x.id) (some x.id)
  Fits absent opened p = ⊥
  Fits absent inside p = ⊥
  Fits absent leaving p = ⊥
  Fits absent gone p = ⊥
  Fits taken opened p = ⊥
  Fits taken inside p = ⊥
  Fits taken leaving p = ⊥
  Fits taken gone p = ⊥
  Fits raw inside p = ⊥
  Fits raw leaving p = ⊥
  Fits raw gone p = ⊥
  Fits filled inside p = ⊥
  Fits filled leaving p = ⊥
  Fits filled gone p = ⊥

module _ (x : Expected) (p : Place) where
  pub Fits-clear : (a : Got) → Fits x absent a p → Fits x absent a (record p { name = none })
  Fits-clear outside h = (refl, h.1, h.2, h.3)
  Fits-clear opened h = h
  Fits-clear inside h = h
  Fits-clear leaving h = h
  Fits-clear gone h = h

  pub Fits-lock :
      (a : Got) → Fits x absent a p → (p.lock ≡ false) × Fits x taken a (record p { lock = true })
  Fits-lock outside h = (h.1, (h.0, refl, h.2, h.3))
  Fits-lock opened h = absurd h
  Fits-lock inside h = absurd h
  Fits-lock leaving h = absurd h
  Fits-lock gone h = absurd h

  pub Fits-open :
      (a : Got)
      → Fits x taken a p
      → (p.name ≡ none) × Fits x raw a (record p { name = some x.id; object = none })
  Fits-open outside h = (h.0, (refl, refl, h.1, h.2, h.3))
  Fits-open opened h = absurd h
  Fits-open inside h = absurd h
  Fits-open leaving h = absurd h
  Fits-open gone h = absurd h

  pub Fits-init :
      (a : Got)
      → Fits x raw a p
      → (p.object ≡ none) × Fits x filled a (record p { object = some x.new; made = some x.id })
  Fits-init outside h = (h.1, (h.0, refl, h.2, refl, h.4))
  Fits-init opened h = (h.1, (h.0, refl, h.2, refl, h.4))
  Fits-init inside h = absurd h
  Fits-init leaving h = absurd h
  Fits-init gone h = absurd h

  pub Fits-free : (a : Got) → Fits x filled a p → Fits x out a (record p { lock = false })
  Fits-free outside h = (h.0, h.1, refl, h.3, h.4)
  Fits-free opened h = (h.0, h.1, refl, h.3, h.4)
  Fits-free inside h = absurd h
  Fits-free leaving h = absurd h
  Fits-free gone h = absurd h

  -- The object that is opened is the one of the ring.
  pub Fits-look :
      (c : Made) (k : ℕ) → p.name ≡ some k → Fits x c outside p → (k ≡ x.id) × Fits x c opened p
  Fits-look absent k e h = absurd (let y : none ≡ some k = sym h.0 ∙ e in cc)
  Fits-look taken k e h = absurd (let y : none ≡ some k = sym h.0 ∙ e in cc)
  Fits-look raw k e h = (let y : some x.id ≡ some k = sym h.0 ∙ e in cc, h)
  Fits-look filled k e h = (let y : some x.id ≡ some k = sym h.0 ∙ e in cc, h)
  Fits-look out k e h = (let y : some x.id ≡ some k = sym h.0 ∙ e in cc, h)

  pub Fits-queue :
      (c : Made) → p.lock ≡ false → Fits x c opened p → Fits x c inside (record p { lock = true })
  Fits-queue absent e h = h
  Fits-queue taken e h = h
  Fits-queue raw e h = (let y : true ≡ false = sym h.2 ∙ e in cc)
  Fits-queue filled e h = (let y : true ≡ false = sym h.2 ∙ e in cc)
  Fits-queue out e h = (h.0, h.1, refl, h.3, h.4)

  pub Fits-attach :
      (c : Made)
      → Fits x c inside p
      → (p.object ≡ some x.new)
        × Fits x c leaving (record p { name = none; object = some x.shared; got = some x.id })
  Fits-attach absent h = absurd h
  Fits-attach taken h = absurd h
  Fits-attach raw h = absurd h
  Fits-attach filled h = absurd h
  Fits-attach out h = (h.1, (refl, refl, h.2, h.3, refl))

  pub Fits-release : (c : Made) → Fits x c leaving p → Fits x c gone (record p { lock = false })
  Fits-release absent h = h
  Fits-release taken h = h
  Fits-release raw h = h
  Fits-release filled h = h
  Fits-release out h = (h.0, h.1, refl, h.3, h.4)

  -- Without a name, or with a lock that is taken, the constructor is not past the ring.
  pub Fits-wait : (c : Made) → p.name ≡ none → Fits x c outside p → c ≢ out
  Fits-wait absent e h = λ q. cc
  Fits-wait taken e h = λ q. cc
  Fits-wait raw e h = λ q. cc
  Fits-wait filled e h = λ q. cc
  Fits-wait out e h = absurd (let y : some x.id ≡ none = sym h.0 ∙ e in cc)

  pub Fits-busy : (c : Made) → p.lock ≡ true → Fits x c opened p → c ≢ out
  Fits-busy absent e h = λ q. cc
  Fits-busy taken e h = λ q. cc
  Fits-busy raw e h = λ q. cc
  Fits-busy filled e h = λ q. cc
  Fits-busy out e h = absurd (let y : false ≡ true = sym h.2 ∙ e in cc)

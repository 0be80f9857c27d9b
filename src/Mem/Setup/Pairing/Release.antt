-- ===== src/Mem/Setup/Pairing/Release.antt =====
-- A channel that is destroyed before the other side came, and one that is destroyed after it.
use gaia_net.Base.{
  ℕ, ◌+◌, ◌<◌, ◌≡◌, refl, ap, ◌∙◌, true, false, List, Bool, Option, none, some, arith, ltb, ◌==◌,
  Bool-cases, inl, inr,
}
use gaia_net.Base.Bytes.{same_bytes}
use gaia_net.IChannel
use gaia_net.Keys.{get_shm_key}
use gaia_net.Mem.View
use gaia_net.Mem.Setup.{Store, destroy_shm, MemChannel, construct, destruct, bind, attach, done}
use gaia_net.Mem.Setup.Pairing.{
  two_rings, rings, other, construct_first, construct_second, attach_second, on_rings, joined,
  both_shared,
}

unbound :
    (ka kb key : List ℕ) (x y : Option ℕ) (names : List ℕ → Option ℕ)
    → bind kb none (bind ka none (bind kb y (bind ka x (bind kb none (bind ka none names))))) key
      ≡ bind kb none (bind ka none names) key
unbound ka kb key x y names = elim (Bool-cases (same_bytes key kb)) [
  | inl e ↦ rw e refl
  | inr e ↦ elim (Bool-cases (same_bytes key ka)) [
    | inl d ↦ rw (e, d) refl
    | inr d ↦ rw (e, d) refl
  ]
]

module _ (s : Store) (from to : ℕ) (taskid : List ℕ) (cv : Bool) (size : ℕ)
    (below : from < to) where
  mine : MemChannel
  mine = on_rings (IChannel.create taskid from to) size cv s.fresh (s.fresh + 1)

  destruct-rings :
      (key : List ℕ)
      → (destruct (rings s from to taskid cv size below) mine).names key
        ≡ (destroy_shm
              (destroy_shm s (get_shm_key from to taskid))
              (get_shm_key to from taskid)).names
            key
  unfolding destruct mine two_rings destroy_shm IChannel.create View.init
  destruct-rings key =
      let less : ltb from to ≡ true = ground arith in
      let same : (s.fresh == s.fresh) ≡ true = ground arith in
      let apart : (s.fresh == (s.fresh + 1)) ≡ false = ground arith in
      let apart' : ((s.fresh + 1) == s.fresh) ≡ false = ground arith in
      let same' : ((s.fresh + 1) == (s.fresh + 1)) ≡ true = ground arith in
      rw (less, apart, same, apart', same')
        (unbound (get_shm_key from to taskid) (get_shm_key to from taskid) key (some s.fresh)
          (some (s.fresh + 1)) s.names)

  destruct-joined :
      (key : List ℕ)
      → (destruct (joined s from to taskid cv size below) mine).names key
        ≡ (joined s from to taskid cv size below).names key
  unfolding destruct mine IChannel.create View.init
  destruct-joined key =
      let less : ltb from to ≡ true = ground arith in
      let apart' : ((s.fresh + 1) == s.fresh) ≡ false = ground arith in
      let (one, two, gone, gone', rest) =
        both_shared s (get_shm_key from to taskid) (get_shm_key to from taskid)
          (other s from to taskid cv size below) cv size in
      rw (less, one, apart', two) refl

-- The names in the store after the destructor, before and after the other side has attached.
abbrev pub Released : Store → ℕ → ℕ → List ℕ → Bool → ℕ → Type 0
Released s from to taskid cv size =
    (s' t : Store) × (a b : MemChannel) × (construct s from to taskid cv size ≡ (s', a))
    × (attach s' (construct s' to from taskid cv size).1 ≡ done t b)
    × ((key : List ℕ)
        → ((destruct s' a).names key
            ≡ (destroy_shm (destroy_shm s (get_shm_key from to taskid))
                  (get_shm_key to from taskid)).names
                key)
          × ((destruct t a).names key ≡ t.names key))

-- The destructor of the party with the smaller number. Called before the other side has attached,
-- it leaves the store's names as they were but for those of the two rings, which are gone; called on
-- the store that the other side leaves once it has attached, it changes no name.
pub destruct-names :
    (s : Store) (from to : ℕ) (taskid : List ℕ) (cv : Bool) (size : ℕ)
    → from < to
    → Released s from to taskid cv size
unfolding mine
destruct-names s from to taskid cv size h = (
  rings s from to taskid cv size h,
  joined s from to taskid cv size h,
  mine s from to taskid cv size h,
  on_rings (IChannel.create taskid to from) size cv (s.fresh + 1) s.fresh,
  construct_first s from to taskid cv size h,
  ap (λ r. attach (rings s from to taskid cv size h) r.1)
        (construct_second s from to taskid cv size h)
      ∙ attach_second s from to taskid cv size h,
  λ key. (
    destruct-rings s from to taskid cv size h key,
    destruct-joined s from to taskid cv size h key,
  ),
)

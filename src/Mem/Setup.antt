-- ===== src/Mem/Setup.antt =====
-- How two parties come to share memory, src/memchannel.cpp: the constructor, `attach` and destructor of
-- `MemChannel`, with `create_shm`, `attach_shm` and `destroy_shm`, on a store of named objects. Here
-- `create_shm` and each round of `attach_shm` are one step each; Stages has the steps in between. The calls of the
-- operating system are taken to succeed, but for opening a name that is not there.
pub mod Pairing
pub mod Conversation
pub mod Stages
pub mod Resources
mod Tests
use gaia_net.Base.{
  ℕ, ◌+◌, Bool, true, false, List, Option, none, some, ltb, ◌==◌, if◌then◌else◌, replicate, take,
  ◌++◌,
}
use gaia_net.Base.Bytes.{same_bytes}
use gaia_net.IChannel
use gaia_net.IChannel.{IChannel}
use gaia_net.Keys.{get_shm_key}
use gaia_net.Mem.View
use gaia_net.Mem.View.{View, attach_init}

-- The objects, found by number, and the names that lead to them. An object lives on without a name
-- while it is mapped. Numbers from `fresh` on are free.
pub record Store : Type 0 where
  pub names : List ℕ → Option ℕ
  pub objects : ℕ → View
  pub fresh : ℕ

abbrev pub bind : List ℕ → Option ℕ → (List ℕ → Option ℕ) → List ℕ → Option ℕ
bind key o names k = if same_bytes k key then o else names k

abbrev pub put_object : ℕ → View → (ℕ → View) → ℕ → View
put_object id v objects i = if i == id then v else objects i

-- `destroy_shm`, and any other `shm_unlink`.
unfoldable pub destroy_shm : Store → List ℕ → Store
destroy_shm s key = record s { names = bind key none s.names }

-- `ftruncate`: cut, or filled up with zeros.
abbrev pub resized : ℕ → List ℕ → List ℕ
resized size memory = take size (memory ++ replicate size 0)

-- `create_shm`, on what its name leads to: an object that is there is initialised again.
abbrev pub on_name : Option ℕ → Store → List ℕ → ℕ → Bool → Store × ℕ
on_name none s key buf_size enable_cv = (
  record {
    names = bind key (some s.fresh) s.names;
    objects = put_object s.fresh (View.init (replicate buf_size 0) buf_size enable_cv) s.objects;
    fresh = s.fresh + 1;
  },
  s.fresh,
)
on_name (some id) s key buf_size enable_cv = (
  record s {
    objects =
        put_object id (View.init (resized buf_size (s.objects id).buffer) buf_size enable_cv)
          s.objects;
  },
  id,
)

unfoldable pub create_shm : Store → List ℕ → ℕ → Bool → Store × ℕ
create_shm s key buf_size enable_cv = on_name (s.names key) s key buf_size enable_cv

-- One round of `attach_shm`.
pub data Attached : Type 0 where
  waits : Attached
  aborts : Attached
  attached : ℕ → Store → Attached

abbrev pub on_attach_init : Store → List ℕ → ℕ → Option View → Attached
on_attach_init s key id none = aborts
on_attach_init s key id (some v) =
    attached id (destroy_shm (record s { objects = put_object id v s.objects }) key)

abbrev pub on_open : Option ℕ → Store → List ℕ → Bool → Attached
on_open none s key enable_cv = waits
on_open (some id) s key enable_cv = on_attach_init s key id (attach_init (s.objects id) enable_cv)

unfoldable pub attach_shm : Store → List ℕ → Bool → Attached
attach_shm s key enable_cv = on_open (s.names key) s key enable_cv

-- `MemChannel`. A null pointer is `none`.
pub record MemChannel : Type 0 where
  pub net : IChannel
  pub buf_size : ℕ
  pub enable_cv : Bool
  pub need_attach : Bool
  pub send_buf : Option ℕ
  pub recv_buf : Option ℕ

abbrev pub created : IChannel → ℕ → Bool → Store × ℕ → (Store → Store × ℕ) → Store × MemChannel
created net buf_size cv (s, sid) create_recv =
    let (s', rid) = create_recv s in
    (
      s',
      record {
        net = net;
        buf_size = buf_size;
        enable_cv = cv;
        need_attach = false;
        send_buf = some sid;
        recv_buf = some rid;
      },
    )

-- The constructor, of which the assertion on the size stands in the theorems.
unfoldable pub construct : Store → ℕ → ℕ → List ℕ → Bool → ℕ → Store × MemChannel
construct s from to taskid enable_cv buf_size =
    let net = IChannel.create taskid from to in
    if ltb from to
    then (let send_key = get_shm_key from to taskid in
        let recv_key = get_shm_key to from taskid in
        let s0 = destroy_shm (destroy_shm s send_key) recv_key in
        created net buf_size enable_cv (create_shm s0 send_key buf_size enable_cv)
          (λ s1. create_shm s1 recv_key buf_size enable_cv))
    else (
      s,
      record {
        net = net;
        buf_size = buf_size;
        enable_cv = enable_cv;
        need_attach = true;
        send_buf = none;
        recv_buf = none;
      },
    )

pub data Result : Type 0 where
  waiting : Result
  aborted : Result
  done : Store → MemChannel → Result

abbrev pub on_recv_attached : MemChannel → ℕ → Attached → Result
on_recv_attached c sid waits = waiting
on_recv_attached c sid aborts = aborted
on_recv_attached c sid (attached rid s) =
    done s (record c { need_attach = false; send_buf = some sid; recv_buf = some rid })

abbrev pub on_send_attached : MemChannel → List ℕ → Attached → Result
on_send_attached c recv_key waits = waiting
on_send_attached c recv_key aborts = aborted
on_send_attached c recv_key (attached sid s) =
    on_recv_attached c sid (attach_shm s recv_key c.enable_cv)

-- `attach`, where both objects can be opened.
unfoldable pub attach : Store → MemChannel → Result
attach s c =
    on_send_attached c (get_shm_key c.net.to_party c.net.from_party c.net.channel_id)
      (attach_shm s (get_shm_key c.net.from_party c.net.to_party c.net.channel_id) c.enable_cv)

-- One of the two unmappings of the destructor: `client_attached` counts this side too, and the name
-- goes with the first one to count.
abbrev pub release : Store → Option ℕ → List ℕ → Store
release s none key = s
release s (some id) key =
    let count : ℕ = (s.objects id).client_attached + 1 in
    let s' : Store = record s {
      objects = put_object id (record (s.objects id) { client_attached = count }) s.objects;
    } in
    if count == 1 then destroy_shm s' key else s'

-- The destructor, without the unmapping.
unfoldable pub destruct : Store → MemChannel → Store
destruct s c =
    let from : ℕ = c.net.from_party in
    let to : ℕ = c.net.to_party in
    if ltb from to
    then release (release s c.send_buf (get_shm_key from to c.net.channel_id)) c.recv_buf
        (get_shm_key to from c.net.channel_id)
    else s

-- ===== src/Mem/Setup/Resources.antt =====
-- The mappings and the descriptors that a MemChannel of src/memchannel.cpp takes from its process and gives back:
-- constructor, the delayed attach before the first call, and destructor. An object is opened and mapped together, here
-- under one number for both.
pub mod Restored
mod Tests
use gaia_net.Base.{
  ℕ, zero, suc, ◌+◌, ◌==◌, Bool, true, false, ◌||◌, List, [], ◌∷◌, Option, none, some, ltb,
  if◌then◌else◌,
}

-- What the process has open, and the number that the next opening gets.
pub record Process : Type 0 where
  pub mapped : List ℕ
  pub fds : List ℕ
  pub fresh : ℕ

-- The members of the channel; `none` for a null pointer, and for the descriptor -1.
pub record Handles : Type 0 where
  pub need_attach : Bool
  pub send_buf : Option ℕ
  pub send_fd : Option ℕ
  pub recv_buf : Option ℕ
  pub recv_fd : Option ℕ

-- `shm_open` and `mmap`, in `create_shm` and `attach_shm`.
abbrev pub open_shm : Process → ℕ × Process
open_shm p =
    (p.fresh, record { mapped = p.fresh ∷ p.mapped; fds = p.fresh ∷ p.fds; fresh = p.fresh + 1 })

-- Both rings are opened.
abbrev pub open_both : Process → Handles × Process
open_both p =
    let (sid, p1) = open_shm p in
    let (rid, p2) = open_shm p1 in
    (
      record {
        need_attach = false;
        send_buf = some sid;
        send_fd = some sid;
        recv_buf = some rid;
        recv_fd = some rid;
      },
      p2,
    )

-- Nothing is opened.
abbrev pub unattached : Process → Handles × Process
unattached p = (
  record { need_attach = true; send_buf = none; send_fd = none; recv_buf = none; recv_fd = none },
  p,
)

-- The constructor.
unfoldable pub construct : ℕ → ℕ → Process → Handles × Process
construct from to p = if ltb from to then open_both p else unattached p

-- A call that sends or receives attaches where that is still to be done.
abbrev pub use_channel : Handles × Process → Handles × Process
use_channel (h, p) = if h.need_attach then open_both p else (h, p)

abbrev pub calls : ℕ → Handles × Process → Handles × Process
calls zero s = s
calls (suc n) s = calls n (use_channel s)

infixl 5 ◌>>=◌
abbrev ◌>>=◌ : {A B : Type 0} → Option A → (A → Option B) → Option B
◌>>=◌ none f = none
◌>>=◌ (some a) f = f a

-- An entry is taken out of a list; `none` where it is not in there.
abbrev pub take_out : ℕ → List ℕ → Option (List ℕ)
take_out id [] = none
take_out id (x ∷ xs) =
    if x == id then some xs else elim (take_out id xs) [ none ↦ none | some ys ↦ some (x ∷ ys) ]

-- `munmap`, after the size was read through the pointer: `none` for a null pointer and for memory that is not mapped.
abbrev pub unmap : Option ℕ → Process → Option Process
unmap none p = none
unmap (some id) p = elim (take_out id p.mapped) [
  | none ↦ none
  | some left ↦ some (record p { mapped = left })
]

-- `close`, unless the descriptor is -1; `none` where it is not open.
abbrev pub close : Option ℕ → Process → Option Process
close none p = some p
close (some id) p = elim (take_out id p.fds) [
  | none ↦ none
  | some left ↦ some (record p { fds = left })
]

abbrev pub unmap_both : Handles → Process → Option Process
unmap_both h p = do p1 ← unmap h.send_buf p; unmap h.recv_buf p1

abbrev pub not_null : Option ℕ → Bool
not_null none = false
not_null (some id) = true

-- The destructor, but for the names. Where one pointer is null and the other is not, the assertion fails, and so does
-- `unmap_both`.
unfoldable pub destruct : ℕ → ℕ → Handles → Process → Option Process
destruct from to h p = do
  p1 ←
      (if ltb from to
        then unmap_both h p
        else if not_null h.send_buf || not_null h.recv_buf
        then unmap_both h p
        else some p)
  p2 ← close h.send_fd p1
  close h.recv_fd p2

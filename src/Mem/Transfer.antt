-- ===== src/Mem/Transfer.antt =====
-- Two parties over one view: the sender's program and the receiver's, interleaved in any way. A
-- blocking call is one step, taken when it does not wait.
pub mod Follow
pub mod Inv
pub mod Deliver
pub mod Chunks
pub mod Message
pub mod Bounds
pub mod Session
use gaia_net.Base.{ℕ, zero, suc, ◌≡◌, List, [], ◌∷◌, some}
use gaia_net.Mem.View
use gaia_net.Mem.View.{View}
use gaia_net.Mem.Channel.{Prog, done, abort, write, read}

pub record Link {ℓ κ} (A : Type ℓ) (B : Type κ) : Type (ℓ ⊔ κ) where
  pub view : View
  pub sender : Prog A
  pub receiver : Prog B

module _ {ℓ κ} {A : Type ℓ} {B : Type κ} where
  pub data Step (s t : Link A B) : Type (ℓ ⊔ κ) where
    sends :
        (src : List ℕ) (n : ℕ) (k : Prog A) (w : View)
        → s.sender ≡ write src n k
        → View.write s.view src n ≡ some w
        → t ≡ record { view = w; sender = k; receiver = s.receiver }
        → Step s t
    receives :
        (n : ℕ) (k : List ℕ → Prog B) (bs : List ℕ) (w : View)
        → s.receiver ≡ read n k
        → View.read s.view n ≡ some (bs, w)
        → t ≡ record { view = w; sender = s.sender; receiver = k bs }
        → Step s t

  -- Runs of a given length.
  pub data Steps : ℕ → Link A B → Link A B → Type (ℓ ⊔ κ) where
    here : {s : Link A B} → Steps zero s s
    next : {n : ℕ} {s t u : Link A B} → Step s t → Steps n t u → Steps (suc n) s u

-- ===== src/Rpc/Pipe/FirstVersion.antt =====
-- A reconnection of a client whose peer speaks the first version only.
use gaia_net.Base.{◌≡◌, Bool, true, List, ℕ, arith}
use gaia_net.Base.Int.{negsuc}
use gaia_net.Rpc.Client.{
  Client, VersionReply, v1, crashes, send, send_ready, new, init_sender, get_continue_status,
  set_continue_status,
}
use gaia_net.Rpc.Pipe.{successor}

-- A client of the first version that is given up: the reconnection reports success, but the successor
-- starts over with the last received index, and its next `Send`, whatever the content, writes through a
-- stream pointer that was never set.
pub first_version_crashes :
    (c : Client) (fits : List Bool) (taskid content : List ℕ) (replies : ℕ → VersionReply)
    (written : Bool)
    → c.rpc_version ≡ v1
    → ((successor c fits).0 ≡ true)
      × ((successor c fits).1.recv_idx ≡ negsuc 0)
      × (send (successor c fits).1 taskid content replies written ≡ crashes)
unfolding send send_ready new init_sender get_continue_status set_continue_status
first_version_crashes c fits taskid content replies written h = rw h (ground arith)

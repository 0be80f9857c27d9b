-- ===== src/Rpc/Pull/Matches.antt =====
-- Which packets a request asks for.
use gaia_net.Base.{ℕ, ◌≡◌, ◌↔◌, ap, List}
use gaia_net.Base.Decimal.{to_string, to_string-injective}
use gaia_net.Rpc.Client.{Packet, Client, packet_of}
use gaia_net.Rpc.Pull.{Metadata, metadata_of}

-- The task and the parties of a packet are those of a request.
abbrev pub Asked : Metadata → Packet → Type 0
Asked m p = (p.taskid ≡ m.taskid) × (p.frompartyid ≡ m.frompartyid) × (p.topartyid ≡ m.topartyid)

-- The request of a client asks for a packet that another client sends exactly when both have the same
-- task and each has the other's party as its peer.
pub metadata_of-Asked :
    (receiver sender : Client) (task task' content : List ℕ)
    → Asked (metadata_of receiver task) (packet_of sender task' content) ↔ (
        (task' ≡ task)
        × (sender.partyid ≡ receiver.to_partyid)
        × (sender.to_partyid ≡ receiver.partyid))
metadata_of-Asked receiver sender task task' content = (
  (λ h. (h.0, to_string-injective _ _ h.1, to_string-injective _ _ h.2)),
  (λ h. (h.0, ap to_string h.1, ap to_string h.2)),
)

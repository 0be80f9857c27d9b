-- ===== src/Keys.antt =====
-- The names under which two parties meet: the shared-memory objects of src/memchannel.cpp and the
-- redis lists and route keys of src/grpc_client.cpp. Text is the list of its bytes.
pub mod Distinct
mod Tests
use gaia_net.Base.{ℕ, List, [], ◌∷◌, ◌++◌}
use gaia_net.Base.Decimal.{to_string}

-- `get_shm_key`: "MC" taskid "_" from "_" to.
unfoldable pub get_shm_key : ℕ → ℕ → List ℕ → List ℕ
get_shm_key from to taskid =
    b'M' ∷ b'C' ∷ ((taskid ++ b'_' ∷ to_string from) ++ b'_' ∷ to_string to)

-- The list that `RpcClient::Recv` takes its items from.
unfoldable pub recv_key : ℕ → ℕ → List ℕ → List ℕ
recv_key to_partyid partyid taskid = to_string to_partyid ++ to_string partyid ++ taskid

-- The value of the "object-key" that `init_sender` and `init_rpc_version` route by.
unfoldable pub object_key : ℕ → ℕ → List ℕ
object_key to_partyid partyid = to_string to_partyid ++ to_string partyid

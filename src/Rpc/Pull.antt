-- ===== src/Rpc/Pull.antt =====
-- `RpcClient::Recv` of src/grpc_client.cpp without redis: one remote call for the next packet of the
-- other party, whose answer is an argument.
pub mod Matches
use gaia_net.Base.{ℕ, Bool, true, List}
use gaia_net.Base.Decimal.{to_string}
use gaia_net.Rpc.Client.{Client}

-- The fields of the request that `Recv` sets; the service type is always TENSOR.
pub record Metadata : Type 0 where
  pub taskid : List ℕ
  pub frompartyid : List ℕ
  pub topartyid : List ℕ

abbrev pub metadata_of : Client → List ℕ → Metadata
metadata_of c taskid = record {
  taskid = taskid;
  frompartyid = to_string c.to_partyid;
  topartyid = to_string c.partyid;
}

-- What `pull` answers: a status that is not ok, no packet, or the body of one.
pub data PullReply : Type 0 where
  not_ok : PullReply
  not_found : PullReply
  found : List ℕ → PullReply

-- `Recv` returns its flag with the content as it leaves it, or throws.
pub data PullResult : Type 0 where
  returns : Bool → List ℕ → PullResult
  throws : PullResult

unfoldable pub pull : PullReply → PullResult
pull not_ok = throws
pull not_found = throws
pull (found body) = returns true body

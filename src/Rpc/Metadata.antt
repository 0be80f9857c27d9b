-- ===== src/Rpc/Metadata.antt =====
-- What the client tells a server with each stream and each version call, src/grpc_client.cpp: the metadata of
-- `init_sender` and of `init_rpc_version`, with the entries that the channel was given.
pub mod Entries
use gaia_net.Base.{ℕ, List, [], ◌∷◌, ◌++◌, map, if◌then◌else◌}
use gaia_net.Base.Bytes.{same_bytes}
use gaia_net.Keys.{object_key}

-- A key and its value.
abbrev pub Entry : Type 0
Entry = List ℕ × List ℕ

-- "net_usage_redis_key".
abbrev pub usage_name : List ℕ
usage_name =
    b'n' ∷ b'e' ∷ b't' ∷ b'_' ∷ b'u' ∷ b's' ∷ b'a' ∷ b'g' ∷ b'e' ∷ b'_' ∷ b'r' ∷ b'e' ∷ b'd' ∷ b'i'
    ∷ b's' ∷ b'_' ∷ b'k' ∷ b'e' ∷ b'y' ∷ []

-- "object-key", "service" and "x-be-host".
abbrev pub object_name : List ℕ
object_name = b'o' ∷ b'b' ∷ b'j' ∷ b'e' ∷ b'c' ∷ b't' ∷ b'-' ∷ b'k' ∷ b'e' ∷ b'y' ∷ []

abbrev pub service_name : List ℕ
service_name = b's' ∷ b'e' ∷ b'r' ∷ b'v' ∷ b'i' ∷ b'c' ∷ b'e' ∷ []

abbrev pub host_name : List ℕ
host_name = b'x' ∷ b'-' ∷ b'b' ∷ b'e' ∷ b'-' ∷ b'h' ∷ b'o' ∷ b's' ∷ b't' ∷ []

-- "gaia-tensor".
abbrev pub service : List ℕ
service = b'g' ∷ b'a' ∷ b'i' ∷ b'a' ∷ b'-' ∷ b't' ∷ b'e' ∷ b'n' ∷ b's' ∷ b'o' ∷ b'r' ∷ []

-- "edge.tensor.grpc.trustbe.com".
abbrev pub host : List ℕ
host =
    b'e' ∷ b'd' ∷ b'g' ∷ b'e' ∷ b'.' ∷ b't' ∷ b'e' ∷ b'n' ∷ b's' ∷ b'o' ∷ b'r' ∷ b'.' ∷ b'g' ∷ b'r'
    ∷ b'p' ∷ b'c' ∷ b'.' ∷ b't' ∷ b'r' ∷ b'u' ∷ b's' ∷ b't' ∷ b'b' ∷ b'e' ∷ b'.' ∷ b'c' ∷ b'o'
    ∷ b'm' ∷ []

-- The C library's `tolower`, on one byte.
module _ (tolower : ℕ → ℕ) where
  -- `to_lower`.
  unfoldable pub to_lower : List ℕ → List ℕ
  to_lower input = map tolower input

  -- The loop of `init_sender` over the channel's entries.
  unfoldable pub add_to_stream : List Entry → List Entry
  add_to_stream [] = []
  add_to_stream ((k, v) ∷ rest) =
      let others = add_to_stream rest in
      if same_bytes k usage_name then others else (to_lower k, v) ∷ others

  -- The metadata of the stream.
  unfoldable pub sender_metadata : ℕ → ℕ → List Entry → List Entry
  sender_metadata to_partyid partyid meta =
      (object_name, object_key to_partyid partyid)
      ∷ (service_name, service)
      ∷ (host_name, host)
      ∷ add_to_stream meta

  -- The loop of `init_rpc_version`, the same in each of its attempts.
  unfoldable pub add_to_call : List Entry → List Entry
  add_to_call [] = []
  add_to_call ((k, v) ∷ rest) =
      let others = add_to_call rest in
      if same_bytes k usage_name then others else (to_lower k, v) ∷ others

  -- The metadata of a version call.
  unfoldable pub version_metadata : ℕ → ℕ → List Entry → List Entry
  version_metadata to_partyid partyid meta =
      (object_name, object_key to_partyid partyid)
      ∷ (service_name, service)
      ∷ (host_name, host)
      ∷ add_to_call meta

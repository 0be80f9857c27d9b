-- ===== src/Redis.antt =====
-- The connection to redis, src/redis_client.h and src/redis_client.cpp: which object of redis-plus-plus is
-- made from the environment, and which object each call goes to.
pub mod Selection
pub mod Choice
pub mod Serves
mod Tests
use gaia_net.Base.{
  ℕ, Bool, true, false, ◌&&◌, ◌||◌, List, [], ◌∷◌, Option, none, some, if◌then◌else◌,
}
use gaia_net.Base.Bytes.{same_bytes}
use gaia_net.Base.Int.{ℤ, pos}

-- What `getenv` answers for the names that the constructor asks for.
pub record Env : Type 0 where
  pub cluster_mode : Option (List ℕ)
  pub use_three_factors : Option (List ℕ)
  pub cluster_host : Option (List ℕ)
  pub cluster_password : Option (List ℕ)
  pub cluster_port : Option (List ℕ)
  pub sentinel_password : Option (List ℕ)
  pub sentinel_master : Option (List ℕ)
  pub cluster_nodes : Option (List ℕ)
  pub redis_host : Option (List ℕ)
  pub redis_password : Option (List ℕ)
  pub redis_port : Option (List ℕ)

-- The options that the code sets; `none` is the library's own value.
pub record ConnectionOptions : Type 0 where
  pub host : Option (List ℕ)
  pub port : Option ℤ
  pub password : Option (List ℕ)
  pub connect_timeout : Option ℕ
  pub socket_timeout : Option ℕ

pub record SentinelOptions : Type 0 where
  pub nodes : List (List ℕ × ℤ)
  pub password : Option (List ℕ)

-- An object of the library, by the arguments that it was made with.
pub data Handle : Type 0 where
  cluster_with : ConnectionOptions → Handle
  cluster_at : List ℕ → Handle
  redis_with : ConnectionOptions → Handle
  redis_at : List ℕ → Handle
  redis_master : SentinelOptions → List ℕ → ConnectionOptions → Handle

-- `RedisClient`. `none`: the pointer is not set.
pub record RedisClient : Type 0 where
  pub redis : Option Handle
  pub redis_cluster : Option Handle
  pub use_cluster : Bool
  pub use_sentinel : Bool

-- What comes of the constructor: a string is made from a null pointer, or one is read; the list of nodes
-- cannot be parsed; or the client is made.
pub data Made : Type 0 where
  null_used : Made
  threw : Made
  made : RedisClient → Made

-- `strcmp(cluster_mode, s) == 0`, on a name that is set.
abbrev pub is_mode : Option (List ℕ) → List ℕ → Bool
is_mode none s = false
is_mode (some m) s = same_bytes m s

abbrev pub cluster_text : List ℕ
cluster_text = 99 ∷ 108 ∷ 117 ∷ 115 ∷ 116 ∷ 101 ∷ 114 ∷ []

abbrev pub sentinel_text : List ℕ
sentinel_text = 115 ∷ 101 ∷ 110 ∷ 116 ∷ 105 ∷ 110 ∷ 101 ∷ 108 ∷ []

abbrev pub by_cluster : Handle → RedisClient
by_cluster h = record {
  redis = none;
  redis_cluster = some h;
  use_cluster = true;
  use_sentinel = false;
}

abbrev pub by_redis : Bool → Handle → RedisClient
by_redis sentinel h = record {
  redis = some h;
  redis_cluster = none;
  use_cluster = false;
  use_sentinel = sentinel;
}

-- `atoi`, and `parse` with the conversion of each node (`none`: an exception), are the libraries'.
module _ (atoi : List ℕ → ℤ) (parse_nodes : List ℕ → Option (List (List ℕ × ℤ))) where
  -- A host and a port, which must both be set, and a password.
  abbrev pub with_options :
      Option (List ℕ) → Option (List ℕ) → Option (List ℕ) → (ConnectionOptions → RedisClient) → Made
  with_options none port password make = null_used
  with_options (some host) none password make = null_used
  with_options (some host) (some port) password make = made (
      make (record {
        host = some host;
        port = some (atoi port);
        password = password;
        connect_timeout = none;
        socket_timeout = none;
      }))

  -- The master's name is needed once the nodes are known.
  abbrev pub with_master : List (List ℕ × ℤ) → Option (List ℕ) → Env → Made
  with_master nodes none env = null_used
  with_master nodes (some master) env = made (
      by_redis true (
        redis_master (record { nodes = nodes; password = env.sentinel_password }) master
          (record {
            host = none;
            port = none;
            password = env.cluster_password;
            connect_timeout = some 100;
            socket_timeout = some 100;
          })))

  abbrev pub with_parsed : Option (List (List ℕ × ℤ)) → Env → Made
  with_parsed none env = threw
  with_parsed (some nodes) env = with_master nodes env.sentinel_master env

  abbrev pub with_nodes : Option (List ℕ) → Env → Made
  with_nodes none env = null_used
  with_nodes (some text) env = with_parsed (parse_nodes text) env

  abbrev pub with_factors : Option (List ℕ) → Env → List ℕ → Made
  with_factors (some factors) env redis_address =
      if is_mode env.cluster_mode cluster_text
      then with_options env.cluster_host env.cluster_port env.cluster_password
          (λ o. by_cluster (cluster_with o))
      else if is_mode env.cluster_mode sentinel_text
      then with_nodes env.cluster_nodes env
      else with_options env.redis_host env.redis_port env.redis_password
          (λ o. by_redis false (redis_with o))
  with_factors none env redis_address =
      if is_mode env.cluster_mode cluster_text
      then made (by_cluster (cluster_at redis_address))
      else made (by_redis false (redis_at redis_address))

  -- The constructor.
  unfoldable pub new : Env → List ℕ → Made
  new env redis_address = with_factors env.use_three_factors env redis_address

-- The calls of the library.
pub data Command : Type 0 where
  pings : Command
  brpops : List ℕ → ℕ → Command
  hsets : List ℕ → List (List ℕ × List ℕ) → Command
  expires : List ℕ → ℕ → Command
  lpushes : List ℕ → List ℕ → Command

-- A call through a pointer that is not set, an answer without a call, or a call.
pub data Called : Type 0 where
  unset : Called
  answers : List ℕ → Called
  calls : Handle → Command → Called

abbrev pub through : Option Handle → Command → Called
through none command = unset
through (some h) command = calls h command

-- "cluster not support ping()".
abbrev pub no_ping : List ℕ
no_ping =
    99 ∷ 108 ∷ 117 ∷ 115 ∷ 116 ∷ 101 ∷ 114 ∷ 32 ∷ 110 ∷ 111 ∷ 116 ∷ 32 ∷ 115 ∷ 117 ∷ 112 ∷ 112 ∷ 111
    ∷ 114 ∷ 116 ∷ 32 ∷ 112 ∷ 105 ∷ 110 ∷ 103 ∷ 40 ∷ 41 ∷ []

unfoldable pub ping : RedisClient → Called
ping c = if c.use_cluster || c.use_sentinel then answers no_ping else through c.redis pings

unfoldable pub brpop : RedisClient → List ℕ → ℕ → Called
brpop c key timeout =
    if c.use_cluster
    then through c.redis_cluster (brpops key timeout)
    else through c.redis (brpops key timeout)

-- `hset` of one field.
unfoldable pub hset : RedisClient → List ℕ → List ℕ → List ℕ → Called
hset c key field val =
    if c.use_cluster
    then through c.redis_cluster (hsets key ((field, val) ∷ []))
    else through c.redis (hsets key ((field, val) ∷ []))

-- `hset` of a pair.
unfoldable pub hset_item : RedisClient → List ℕ → List ℕ × List ℕ → Called
hset_item c key item =
    if c.use_cluster
    then through c.redis_cluster (hsets key ((item.0, item.1) ∷ []))
    else through c.redis (hsets key ((item.0, item.1) ∷ []))

-- `hset` of a list of pairs.
unfoldable pub hset_range : RedisClient → List ℕ → List (List ℕ × List ℕ) → Called
hset_range c key items =
    if c.use_cluster
    then through c.redis_cluster (hsets key items)
    else through c.redis (hsets key items)

unfoldable pub expire : RedisClient → List ℕ → ℕ → Called
expire c key timeout =
    if c.use_cluster
    then through c.redis_cluster (expires key timeout)
    else through c.redis (expires key timeout)

unfoldable pub lpush : RedisClient → List ℕ → List ℕ → Called
lpush c key val =
    if c.use_cluster
    then through c.redis_cluster (lpushes key val)
    else through c.redis (lpushes key val)

-- The object that the destructor deletes.
unfoldable pub deleted : RedisClient → Option Handle
deleted c = if c.use_cluster then c.redis_cluster else c.redis

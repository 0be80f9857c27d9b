-- ===== src/Redis/Selection.antt =====
-- Which connection the environment is to select: a table of conditions beside the code.
use gaia_net.Base.{
  ℕ, ◌≡◌, ◌≢◌, refl, ap, ◌∙◌, ◌↔◌, ◌⊎◌, true, false, List, Option, none, some, Bool-cases, inl, inr,
}
use gaia_net.Base.Bytes.{same_bytes, same_bytes_self, same_bytes→eq}
use gaia_net.Base.Int.{ℤ}
use gaia_net.Redis.{
  Env, ConnectionOptions, cluster_with, cluster_at, redis_with, redis_at, redis_master, RedisClient,
  is_mode, cluster_text, sentinel_text, by_cluster, by_redis,
}

-- A host, a port and a password.
abbrev pub at_port : List ℕ → ℤ → Option (List ℕ) → ConnectionOptions
at_port host port password = record {
  host = some host;
  port = some port;
  password = password;
  connect_timeout = none;
  socket_timeout = none;
}

-- The master is asked with a tenth of a second for each answer.
abbrev pub impatient : Option (List ℕ) → ConnectionOptions
impatient password = record {
  host = none;
  port = none;
  password = password;
  connect_timeout = some 100;
  socket_timeout = some 100;
}

-- The mode that the environment names.
abbrev pub Cluster : Env → Type 0
Cluster env = env.cluster_mode ≡ some cluster_text

abbrev pub Sentinel : Env → Type 0
Sentinel env = env.cluster_mode ≡ some sentinel_text

pub is_mode_iff : (o : Option (List ℕ)) (s : List ℕ) → (is_mode o s ≡ true) ↔ (o ≡ some s)
is_mode_iff none s = (λ h. absurd (let g = h in cc), λ h. absurd (let g = h in cc))
is_mode_iff (some m) s = (
  λ h. ap some (same_bytes→eq m s h),
  λ h. (let eq : m ≡ s = (let g = h in cc) in ap (λ x. same_bytes x s) eq ∙ same_bytes_self s),
)

pub is_mode_not : (o : Option (List ℕ)) (s : List ℕ) → o ≢ some s → is_mode o s ≡ false
is_mode_not o s h = elim (Bool-cases (is_mode o s)) [
  | inl e ↦ absurd (h ((is_mode_iff o s).0 e))
  | inr e ↦ e
]

pub not_mode : (o : Option (List ℕ)) (s : List ℕ) → is_mode o s ≡ false → o ≢ some s
not_mode o s h = λ e. (let t : is_mode o s ≡ true = (is_mode_iff o s).1 e in cc)

cluster_not_sentinel : is_mode (some sentinel_text) cluster_text ≡ false
unfolding same_bytes
cluster_not_sentinel = refl

pub never_cluster : (env : Env) → Sentinel env → is_mode env.cluster_mode cluster_text ≡ false
never_cluster env h = ap (λ o. is_mode o cluster_text) h ∙ cluster_not_sentinel

-- A host or a port that is needed is not set.
abbrev pub LacksAddress : Option (List ℕ) → Option (List ℕ) → Type 0
LacksAddress host port = (host ≡ none) ⊎ (port ≡ none)

module _ (atoi : List ℕ → ℤ) (parse_nodes : List ℕ → Option (List (List ℕ × ℤ))) where
  -- The client that is made.
  pub data Selects (env : Env) (address : List ℕ) : RedisClient → Type 0 where
    plain :
        env.use_three_factors ≡ none
        → env.cluster_mode ≢ some cluster_text
        → Selects env address (by_redis false (redis_at address))
    plain_cluster :
        env.use_three_factors ≡ none
        → Cluster env
        → Selects env address (by_cluster (cluster_at address))
    named :
        (factors host port : List ℕ)
        → env.use_three_factors ≡ some factors
        → env.cluster_mode ≢ some cluster_text
        → env.cluster_mode ≢ some sentinel_text
        → env.redis_host ≡ some host
        → env.redis_port ≡ some port
        → Selects env address
            (by_redis false (redis_with (at_port host (atoi port) env.redis_password)))
    named_cluster :
        (factors host port : List ℕ)
        → env.use_three_factors ≡ some factors
        → Cluster env
        → env.cluster_host ≡ some host
        → env.cluster_port ≡ some port
        → Selects env address
            (by_cluster (cluster_with (at_port host (atoi port) env.cluster_password)))
    master :
        (factors text name : List ℕ) (nodes : List (List ℕ × ℤ))
        → env.use_three_factors ≡ some factors
        → Sentinel env
        → env.cluster_nodes ≡ some text
        → parse_nodes text ≡ some nodes
        → env.sentinel_master ≡ some name
        → Selects env address (
            by_redis true (
              redis_master
                (record { nodes = nodes; password = env.sentinel_password })
                name
                (impatient env.cluster_password)))

  -- A name that is read is not set.
  pub data Lacks (env : Env) : Type 0 where
    redis_address :
        (factors : List ℕ)
        → env.use_three_factors ≡ some factors
        → env.cluster_mode ≢ some cluster_text
        → env.cluster_mode ≢ some sentinel_text
        → LacksAddress env.redis_host env.redis_port
        → Lacks env
    cluster_address :
        (factors : List ℕ)
        → env.use_three_factors ≡ some factors
        → Cluster env
        → LacksAddress env.cluster_host env.cluster_port
        → Lacks env
    nodes :
        (factors : List ℕ)
        → env.use_three_factors ≡ some factors
        → Sentinel env
        → env.cluster_nodes ≡ none
        → Lacks env
    master_name :
        (factors text : List ℕ) (list : List (List ℕ × ℤ))
        → env.use_three_factors ≡ some factors
        → Sentinel env
        → env.cluster_nodes ≡ some text
        → parse_nodes text ≡ some list
        → env.sentinel_master ≡ none
        → Lacks env

  -- The nodes cannot be parsed.
  pub data Unparsed (env : Env) : Type 0 where
    unparsed :
        (factors text : List ℕ)
        → env.use_three_factors ≡ some factors
        → Sentinel env
        → env.cluster_nodes ≡ some text
        → parse_nodes text ≡ none
        → Unparsed env

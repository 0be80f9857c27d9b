-- ===== src/Redis/Choice.antt =====
-- That the constructor makes the connection which the environment selects.
use gaia_net.Base.{ℕ, ◌≡◌, refl, subst, ◌↔◌, false, List, Option, none, some, Bool-cases, inl, inr}
use gaia_net.Base.Int.{ℤ}
use gaia_net.Redis.{
  Env, ConnectionOptions, cluster_with, redis_with, RedisClient, Made, null_used, threw, made,
  is_mode, cluster_text, sentinel_text, by_cluster, by_redis, with_options, with_master,
  with_parsed, with_nodes, with_factors, new,
}
use gaia_net.Redis.Selection.{
  at_port, Sentinel, is_mode_iff, is_mode_not, not_mode, never_cluster, Selects, plain,
  plain_cluster, named, named_cluster, master, LacksAddress, Lacks, redis_address, cluster_address,
  nodes, master_name, Unparsed, unparsed,
}

module _ (atoi : List ℕ → ℤ) (parse_nodes : List ℕ → Option (List (List ℕ × ℤ))) where
  abbrev Verdict : Env → List ℕ → Made → Type 0
  Verdict env address null_used = Lacks atoi parse_nodes env
  Verdict env address threw = Unparsed atoi parse_nodes env
  Verdict env address (made c) = Selects atoi parse_nodes env address c

  -- The verdict where a host and a port are read.
  options_verdict :
      (env : Env) (address : List ℕ) (host port password : Option (List ℕ))
      (make : ConnectionOptions → RedisClient)
      → ((h p : List ℕ)
          → host ≡ some h
          → port ≡ some p
          → Selects atoi parse_nodes env address (make (at_port h (atoi p) password)))
      → (LacksAddress host port → Lacks atoi parse_nodes env)
      → Verdict env address (with_options atoi parse_nodes host port password make)
  options_verdict env address none port password make given lack = lack (inl refl)
  options_verdict env address (some h) none password make given lack = lack (inr refl)
  options_verdict env address (some h) (some p) password make given lack = given h p refl refl

  -- The verdict where a master is looked for.
  module _ (env : Env) (address factors : List ℕ)
      (set_factors : env.use_three_factors ≡ some factors) (mode : Sentinel env) where
    master_verdict :
        (text : List ℕ) (list : List (List ℕ × ℤ)) (o : Option (List ℕ))
        → env.cluster_nodes ≡ some text
        → parse_nodes text ≡ some list
        → env.sentinel_master ≡ o
        → Verdict env address (with_master atoi parse_nodes list o env)
    master_verdict text list none e p m = master_name factors text list set_factors mode e p m
    master_verdict text list (some name) e p m =
        master factors text name list set_factors mode e p m

    parsed_verdict :
        (text : List ℕ) (o : Option (List (List ℕ × ℤ)))
        → env.cluster_nodes ≡ some text
        → parse_nodes text ≡ o
        → Verdict env address (with_parsed atoi parse_nodes o env)
    parsed_verdict text none e p = unparsed factors text set_factors mode e p
    parsed_verdict text (some list) e p = master_verdict text list env.sentinel_master e p refl

    nodes_verdict :
        (o : Option (List ℕ))
        → env.cluster_nodes ≡ o
        → Verdict env address (with_nodes atoi parse_nodes o env)
    nodes_verdict none e = nodes factors set_factors mode e
    nodes_verdict (some text) e = parsed_verdict text (parse_nodes text) e refl

  factors_verdict :
      (env : Env) (address : List ℕ) (o : Option (List ℕ))
      → env.use_three_factors ≡ o
      → Verdict env address (with_factors atoi parse_nodes o env address)
  factors_verdict env address none e = elim (Bool-cases (is_mode env.cluster_mode cluster_text)) [
    | inl m ↦ rw m (plain_cluster e ((is_mode_iff _ _).0 m))
    | inr m ↦ rw m (plain e (not_mode _ _ m))
  ]
  factors_verdict env address (some factors) e =
      elim (Bool-cases (is_mode env.cluster_mode cluster_text)) [
        | inl m ↦
            let mode = (is_mode_iff _ _).0 m in
            rw m (
              options_verdict env address env.cluster_host env.cluster_port env.cluster_password
                (λ o. by_cluster (cluster_with o))
                (λ h p eh ep. named_cluster factors h p e mode eh ep)
                (cluster_address factors e mode))
        | inr m ↦ elim (Bool-cases (is_mode env.cluster_mode sentinel_text)) [
          | inl s ↦
              rw (m, s)
                (nodes_verdict env address factors e ((is_mode_iff _ _).0 s) env.cluster_nodes refl)
          | inr s ↦
              rw (m, s)
                (options_verdict env address env.redis_host env.redis_port env.redis_password
                  (λ o. by_redis false (redis_with o))
                  (λ h p eh ep. named factors h p e (not_mode _ _ m) (not_mode _ _ s) eh ep)
                  (redis_address factors e (not_mode _ _ m) (not_mode _ _ s)))
        ]
      ]

  verdict : (env : Env) (address : List ℕ) → Verdict env address (new atoi parse_nodes env address)
  unfolding new
  verdict env address = factors_verdict env address env.use_three_factors refl

  Selects-new :
      (env : Env) (address : List ℕ) (c : RedisClient)
      → Selects atoi parse_nodes env address c
      → new atoi parse_nodes env address ≡ made c
  unfolding new
  Selects-new env address c (plain f m) = rw (f, is_mode_not _ _ m) refl
  Selects-new env address c (plain_cluster f m) = rw (f, (is_mode_iff _ _).1 m) refl
  Selects-new env address c (named factors host port f m s h p) =
      rw (f, is_mode_not _ _ m, is_mode_not _ _ s, h, p) refl
  Selects-new env address c (named_cluster factors host port f m h p) =
      rw (f, (is_mode_iff _ _).1 m, h, p) refl
  Selects-new env address c (master factors text name list f s n p m) =
      rw (f, never_cluster env s, (is_mode_iff _ _).1 s, n, p, m) refl

  options_lack :
      (host port password : Option (List ℕ)) (make : ConnectionOptions → RedisClient)
      → LacksAddress host port
      → with_options atoi parse_nodes host port password make ≡ null_used
  options_lack none port password make h = refl
  options_lack (some h) none password make l = refl
  options_lack (some h) (some p) password make (inl e) = absurd (let g = e in cc)
  options_lack (some h) (some p) password make (inr e) = absurd (let g = e in cc)

  Lacks-new :
      (env : Env) (address : List ℕ)
      → Lacks atoi parse_nodes env
      → new atoi parse_nodes env address ≡ null_used
  unfolding new
  Lacks-new env address (redis_address factors f m s l) =
      rw (f, is_mode_not _ _ m, is_mode_not _ _ s) (options_lack _ _ _ _ l)
  Lacks-new env address (cluster_address factors f m l) =
      rw (f, (is_mode_iff _ _).1 m) (options_lack _ _ _ _ l)
  Lacks-new env address (nodes factors f s n) =
      rw (f, never_cluster env s, (is_mode_iff _ _).1 s, n) refl
  Lacks-new env address (master_name factors text list f s n p m) =
      rw (f, never_cluster env s, (is_mode_iff _ _).1 s, n, p, m) refl

  Unparsed-new :
      (env : Env) (address : List ℕ)
      → Unparsed atoi parse_nodes env
      → new atoi parse_nodes env address ≡ threw
  unfolding new
  Unparsed-new env address (unparsed factors text f s n p) =
      rw (f, never_cluster env s, (is_mode_iff _ _).1 s, n, p) refl

  -- The constructor makes a client exactly when, and as, the environment selects one: over the
  -- address it is given without CPP_REDIS_USE_THREE_FACTORS, and over the names that belong to
  -- the mode with it. It reads a null pointer exactly when such a name is missing, and throws
  -- exactly when the list of sentinels cannot be parsed.
  pub new-Selects :
      (env : Env) (address : List ℕ)
      → ((c : RedisClient)
          → (new atoi parse_nodes env address ≡ made c) ↔ Selects atoi parse_nodes env address c)
        × ((new atoi parse_nodes env address ≡ null_used) ↔ Lacks atoi parse_nodes env)
        × ((new atoi parse_nodes env address ≡ threw) ↔ Unparsed atoi parse_nodes env)
  new-Selects env address = (
    λ c. (λ h. subst (Verdict env address) h (verdict env address), Selects-new env address c),
    (λ h. subst (Verdict env address) h (verdict env address), Lacks-new env address),
    (λ h. subst (Verdict env address) h (verdict env address), Unparsed-new env address),
  )

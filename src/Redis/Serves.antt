-- ===== src/Redis/Serves.antt =====
-- That a client which was made serves every call with the one object it was made with.
use gaia_net.Base.{
  ℕ, ◌≡◌, refl, ◌||◌, Bool, true, false, List, ◌∷◌, [], Option, some, if◌then◌else◌,
}
use gaia_net.Base.Int.{ℤ}
use gaia_net.Redis.{
  Env, Handle, RedisClient, made, by_cluster, by_redis, new, pings, brpops, hsets, expires, lpushes,
  answers, calls, no_ping, ping, brpop, hset, hset_item, hset_range, expire, lpush, deleted,
}
use gaia_net.Redis.Selection.{Selects, plain, plain_cluster, named, named_cluster, master}
use gaia_net.Redis.Choice.{new-Selects}

-- Every call goes to `h`, as it was asked for, and the destructor deletes `h`.
pub record Served (c : RedisClient) (h : Handle) : Type 0 where
  pub by_brpop : (key : List ℕ) (timeout : ℕ) → brpop c key timeout ≡ calls h (brpops key timeout)
  pub by_hset :
      (key field val : List ℕ) → hset c key field val ≡ calls h (hsets key ((field, val) ∷ []))
  pub by_item :
      (key : List ℕ) (item : List ℕ × List ℕ)
      → hset_item c key item ≡ calls h (hsets key (item ∷ []))
  pub by_range :
      (key : List ℕ) (items : List (List ℕ × List ℕ))
      → hset_range c key items ≡ calls h (hsets key items)
  pub by_expire :
      (key : List ℕ) (timeout : ℕ) → expire c key timeout ≡ calls h (expires key timeout)
  pub by_lpush : (key val : List ℕ) → lpush c key val ≡ calls h (lpushes key val)
  pub by_delete : deleted c ≡ some h
  pub by_ping :
      ping c ≡ (if c.use_cluster || c.use_sentinel then answers no_ping else calls h pings)

by_cluster-Served : (h : Handle) → Served (by_cluster h) h
unfolding brpop hset hset_item hset_range expire lpush deleted ping
by_cluster-Served h = record {
  by_brpop = λ key timeout. refl;
  by_hset = λ key field val. refl;
  by_item = λ key item. refl;
  by_range = λ key items. refl;
  by_expire = λ key timeout. refl;
  by_lpush = λ key val. refl;
  by_delete = refl;
  by_ping = refl;
}

by_redis-Served : (sentinel : Bool) (h : Handle) → Served (by_redis sentinel h) h
unfolding brpop hset hset_item hset_range expire lpush deleted ping
by_redis-Served sentinel h = record {
  by_brpop = λ key timeout. refl;
  by_hset = λ key field val. refl;
  by_item = λ key item. refl;
  by_range = λ key items. refl;
  by_expire = λ key timeout. refl;
  by_lpush = λ key val. refl;
  by_delete = refl;
  by_ping = refl;
}

module _ (atoi : List ℕ → ℤ) (parse_nodes : List ℕ → Option (List (List ℕ × ℤ))) where
  Selects-Served :
      (env : Env) (address : List ℕ) (c : RedisClient)
      → Selects atoi parse_nodes env address c
      → (h : Handle) × Served c h
  Selects-Served env address c (plain f m) = (_, by_redis-Served false _)
  Selects-Served env address c (plain_cluster f m) = (_, by_cluster-Served _)
  Selects-Served env address c (named factors host port f m s h p) = (_, by_redis-Served false _)
  Selects-Served env address c (named_cluster factors host port f m h p) = (_, by_cluster-Served _)
  Selects-Served env address c (master factors text name list f s n p m) =
      (_, by_redis-Served true _)

  -- A client that the constructor has made, from any environment: there is one object such that every
  -- call but `ping` goes to it as it was asked for, the destructor deletes it, and `ping` asks
  -- it when the client uses neither a cluster nor sentinels and otherwise answers by itself.
  pub new-Served :
      (env : Env) (address : List ℕ) (c : RedisClient)
      → new atoi parse_nodes env address ≡ made c
      → (h : Handle) × Served c h
  new-Served env address c h =
      Selects-Served env address c (((new-Selects atoi parse_nodes env address).0 c).0 h)

-- ===== src/Session/Store.antt =====
-- session/session_store.go: the store in Redis, over the methods of redis.Client that it calls.
use hfw.Base.{Bool, true, false, ◌++◌, Option, none, some, if◌then◌else◌}
use hfw.Base.Text.{Text, codes}
use hfw.Base.Int.{ℤ, pos, ltb_ℤ}
use hfw.Session.{Err, SessionStore}

-- The hashes of a Redis client, over the state `R` of the client and its server.
pub record HashClient (R : Type 0) : Type 0 where
  pub hset : Text → Text → Text → R → Err × R
  pub hget : Text → Text → R → Option Text × Err
  pub hexists : Text → Text → R → Bool × Err
  pub hdel : Text → Text → R → Err × R
  pub del : Text → R → Err × R
  pub rename_nx : Text → Text → R → Bool × Err × R
  pub expire : Text → ℤ → R → R

pub record SessRedisStore (R : Type 0) : Type 0 where
  pub redis_ins : R
  pub prefix : Text
  pub expiration : ℤ

-- `NewSessRedisStore` makes one store for the process: `made` is the one there is.
unfoldable pub new_sess_redis_store :
    {R : Type 0} → Option (SessRedisStore R) → R → ℤ → SessRedisStore R
new_sess_redis_store (some made) ins expiration = made
new_sess_redis_store none ins expiration = record {
  redis_ins = ins;
  prefix = codes "sess_";
  expiration = expiration;
}

module _ {R : Type 0} (client : HashClient R) where
  abbrev with_ins : SessRedisStore R → R → SessRedisStore R
  with_ins s r = record s { redis_ins = r }

  unfoldable pub store_set_expiration : ℤ → SessRedisStore R → SessRedisStore R
  store_set_expiration expiration s =
      if ltb_ℤ (pos 0) expiration then record s { expiration = expiration } else s

  unfoldable pub store_is_exist : Text → Text → SessRedisStore R → Bool × Err
  store_is_exist sessid key s = client.hexists (s.prefix ++ sessid) key s.redis_ins

  unfoldable pub store_put : Text → Text → Text → SessRedisStore R → Err × SessRedisStore R
  store_put sessid key value s =
      let (err, r) = client.hset (s.prefix ++ sessid) key value s.redis_ins in (err, with_ins s r)

  unfoldable pub store_get : Text → Text → SessRedisStore R → Option Text × Err
  store_get sessid key s = client.hget (s.prefix ++ sessid) key s.redis_ins

  unfoldable pub store_del : Text → Text → SessRedisStore R → Err × SessRedisStore R
  store_del sessid key s =
      let (err, r) = client.hdel (s.prefix ++ sessid) key s.redis_ins in (err, with_ins s r)

  unfoldable pub store_destroy : Text → SessRedisStore R → Err × SessRedisStore R
  store_destroy sessid s =
      let (err, r) = client.del (s.prefix ++ sessid) s.redis_ins in (err, with_ins s r)

  -- The end of `Rename`, with the results of RENAMENX.
  unfoldable pub after_rename_nx : Text → SessRedisStore R → Bool × Err × R → Err × SessRedisStore R
  after_rename_nx newid s (b, some err, r) = (some err, with_ins s r)
  after_rename_nx newid s (false, none, r) = (some (newid ++ codes " is exist"), with_ins s r)
  after_rename_nx newid s (true, none, r) = (
    none,
    with_ins s (
        if ltb_ℤ (pos 0) s.expiration then client.expire (s.prefix ++ newid) s.expiration r else r),
  )

  unfoldable pub store_rename : Text → Text → SessRedisStore R → Err × SessRedisStore R
  unfolding after_rename_nx
  store_rename sessid newid s =
      after_rename_nx newid s
        (client.rename_nx (s.prefix ++ sessid) (s.prefix ++ newid) s.redis_ins)

  -- `var _ sessionStoreInterface = &sessRedisStore{}`
  unfoldable pub redis_store : SessionStore (SessRedisStore R)
  unfolding store_set_expiration store_is_exist store_put store_get store_del store_destroy
      store_rename
  redis_store = record {
    set_expiration = store_set_expiration;
    put = store_put;
    get = store_get;
    is_exist = store_is_exist;
    del = store_del;
    destroy = store_destroy;
    rename = store_rename;
  }

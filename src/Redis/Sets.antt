-- ===== src/Redis/Sets.antt =====
-- The commands of redis/client.go on sets and sorted sets.
use hfw.Base.{Bool, List, [], ◌∷◌}
use hfw.Base.Text.{Text, codes}
use hfw.Base.Int.{ℤ}
use hfw.Redis.{flag, number, several, Any, int, string, Radix, Client, Reply, command, flat_all}

module _ {R : Type 0} (radix : Radix R) (c : Client) where
  -- `SAdd`
  unfoldable pub sadd : Text → List Any → R → Reply ℤ R
  unfolding command
  sadd key args r = command radix c number (codes "SADD") key (flat_all radix c args) r

  -- `SDiffStore`: only the destination gets the prefix.
  unfoldable pub sdiff_store : Text → List Any → R → Reply ℤ R
  unfolding command
  sdiff_store key args r = command radix c number (codes "SDIFFSTORE") key (flat_all radix c args) r

  -- `SCard`
  unfoldable pub scard : Text → R → Reply ℤ R
  unfolding command
  scard key r = command radix c number (codes "SCARD") key [] r

  -- `SIsMember`
  unfoldable pub sis_member : Text → Text → R → Reply Bool R
  unfolding command
  sis_member key member r = command radix c flag (codes "SISMEMBER") key (member ∷ []) r

  -- `ZAdd`
  unfoldable pub zadd : Text → List Any → R → Reply ℤ R
  unfolding command
  zadd key args r = command radix c number (codes "ZADD") key (flat_all radix c args) r

  -- `ZRem`
  unfoldable pub zrem : Text → List Any → R → Reply ℤ R
  unfolding command
  zrem key members r = command radix c number (codes "ZREM") key (flat_all radix c members) r

  -- `ZIncrBy`
  unfoldable pub zincr_by : Text → Text → ℤ → R → Reply ℤ R
  unfolding command
  zincr_by key member increment r =
      command radix c number (codes "ZINCRBY") key
        (flat_all radix c (int increment ∷ string member ∷ [])) r

  -- `ZRange` and `ZRevRange`, with the members and scores as radix lists them.
  unfoldable pub zrange : Text → ℤ → ℤ → R → Reply (List Text) R
  unfolding command
  zrange key start stop r =
      command radix c several (codes "ZRANGE") key
        (flat_all radix c (int start ∷ int stop ∷ string (codes "WITHSCORES") ∷ [])) r

  unfoldable pub zrev_range : Text → ℤ → ℤ → R → Reply (List Text) R
  unfolding command
  zrev_range key start stop r =
      command radix c several (codes "ZREVRANGE") key
        (flat_all radix c (int start ∷ int stop ∷ string (codes "WITHSCORES") ∷ [])) r

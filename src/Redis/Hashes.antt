-- ===== src/Redis/Hashes.antt =====
-- The commands of redis/client.go on hashes, and the client as the store of the sessions uses it.
use hfw.Base.{Bool, List, [], ◌∷◌, Option, some, inl, inr}
use hfw.Base.Text.{Text, codes}
use hfw.Base.Int.{ℤ}
use hfw.Session.{Err}
use hfw.Redis.{
  flag, number, maybe, nothing, Any, int, Radix, Client, Reply, command, flat_all, marshalled,
  received,
}

module _ {R : Type 0} (radix : Radix R) where
  -- `HSet`
  unfoldable pub hset : Client → Text → Text → Any → R → Err × R
  unfolding marshalled command
  hset c key field value r = elim (marshalled radix c value) [
    | inr err ↦ (some err, r)
    | inl v ↦
        let (_, err, r') =
          command radix c nothing (codes "HSET") key (field ∷ flat_all radix c (v ∷ [])) r in
        (err, r')
  ]

  -- `HGet`
  unfoldable pub hget : Client → Text → Text → R → Reply (Bool × Option Any) R
  unfolding received command
  hget c key field r = received radix c (command radix c maybe (codes "HGET") key (field ∷ []) r)

  -- `HExists`
  unfoldable pub hexists : Client → Text → Text → R → Reply Bool R
  unfolding command
  hexists c key field r = command radix c flag (codes "HEXISTS") key (field ∷ []) r

  -- `HIncrBy`
  unfoldable pub hincr_by : Client → Text → Text → ℤ → R → Reply ℤ R
  unfolding command
  hincr_by c key field delta r =
      command radix c number (codes "HINCRBY") key (field ∷ flat_all radix c (int delta ∷ [])) r

  -- `HDel`
  unfoldable pub hdel : Client → Text → List Text → R → Reply ℤ R
  unfolding command
  hdel c key fields r = command radix c number (codes "HDEL") key fields r

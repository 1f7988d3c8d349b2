-- ===== src/Redis/Lists.antt =====
-- The commands of redis/client.go on lists.
use hfw.Base.{Bool, List, [], ◌∷◌, Option, some, ◌⊎◌, inl, inr}
use hfw.Base.Text.{Text, codes}
use hfw.Base.Int.{ℤ, pos}
use hfw.Redis.{
  number, maybe, Any, Radix, Client, Reply, params_not_enough, command, flat_all, marshalled,
  received,
}

module _ {R : Type 0} (radix : Radix R) (c : Client) where
  -- The loop over the values: all of them encoded, or the first error.
  unfoldable pub marshalled_all : List Any → List Any ⊎ Text
  unfolding marshalled
  marshalled_all [] = inl []
  marshalled_all (v ∷ values) =
      let rest = marshalled_all values in
      elim (marshalled radix c v) [
        | inr err ↦ inr err
        | inl v' ↦ elim rest [ inl values' ↦ inl (v' ∷ values') | inr err ↦ inr err ]
      ]

  -- `LPush` and `RPush`, which differ in the name of the command.
  unfoldable pub push : Text → Text → List Any → R → Reply ℤ R
  unfolding marshalled_all command
  push name key [] r = (pos 0, params_not_enough, r)
  push name key (v ∷ values) r = elim (marshalled_all (v ∷ values)) [
    | inr err ↦ (pos 0, some err, r)
    | inl values' ↦ command radix c number name key (flat_all radix c values') r
  ]

  unfoldable pub lpush : Text → List Any → R → Reply ℤ R
  unfolding push
  lpush key values r = push (codes "LPUSH") key values r

  unfoldable pub rpush : Text → List Any → R → Reply ℤ R
  unfolding push
  rpush key values r = push (codes "RPUSH") key values r

  -- `LPop` and `RPop`
  unfoldable pub lpop : Text → R → Reply (Bool × Option Any) R
  unfolding received command
  lpop key r = received radix c (command radix c maybe (codes "LPOP") key [] r)

  unfoldable pub rpop : Text → R → Reply (Bool × Option Any) R
  unfolding received command
  rpop key r = received radix c (command radix c maybe (codes "RPOP") key [] r)

  -- `LLen`
  unfoldable pub llen : Text → R → Reply ℤ R
  unfolding command
  llen key r = command radix c number (codes "LLEN") key [] r

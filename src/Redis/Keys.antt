-- ===== src/Redis/Keys.antt =====
-- The commands of redis/client.go on whole keys.
use hfw.Base.{Bool, true, false, List, [], ◌∷◌, ◌++◌, none, some, if◌then◌else◌}
use hfw.Base.Text.{Text, codes, text_eq}
use hfw.Base.Int.{ℤ, pos, ltb_ℤ, ◌+ℤ◌, wrap64}
use hfw.Session.{Err}
use hfw.Redis.{
  flag, number, status, bytes, nothing, Of, int, string, data_of, Radix, Client, Reply, on_ok,
  do_action, add_prefix, command, flat_all,
}
use hfw.Redis.Values.{is_ok, prefixed}

module _ {R : Type 0} (radix : Radix R) where
  -- `IsExist`
  unfoldable pub is_exist : Client → Text → R → Reply Bool R
  unfolding command
  is_exist c key r = command radix c flag (codes "EXISTS") key [] r

  -- The loop of Del in a cluster, from the count so far.
  unfoldable pub del_each : Client → List Text → ℤ → R → Reply ℤ R
  unfolding command
  del_each c [] num r = (num, none, r)
  del_each c (key ∷ keys) num r =
      on_ok num (command radix c number (codes "DEL") key [] r)
        (λ i r'. del_each c keys (wrap64 (num +ℤ i)) r')

  -- `Del`, and the elements that it leaves in the slice of its arguments.
  unfoldable pub del : Client → List Text → R → Reply ℤ R × List Text
  unfolding del_each do_action prefixed
  del c keys r =
      let keys' = prefixed radix c keys in
      if c.is_cluster
      then (del_each c keys (pos 0) r, keys)
      else (do_action radix c number (codes "DEL" ∷ keys') r, keys')

  abbrev not_exist : Text → Err
  not_exist key = some (codes "key: " ++ (key ++ codes " not exist"))

  abbrev without : Reply (Of nothing) R → Err × R
  without (_, err, r) = (err, r)

  -- The moves of Rename and RenameNx in a cluster, once the key exists.
  unfoldable pub copy : Client → Text → Text → R → Err × R
  unfolding command
  copy c old_key new_key r = without (
      on_ok tt (command radix c bytes (codes "GET") old_key [] r) (λ raw r'.
        command radix c nothing (codes "SET") new_key (flat_all radix c (data_of raw ∷ [])) r'))

  unfoldable pub copy_nx : Client → Text → Text → R → Reply Bool R
  unfolding command
  copy_nx c old_key new_key r =
      on_ok true (command radix c bytes (codes "GET") old_key [] r) (λ raw r'. is_ok (
        command radix c status (codes "SET") new_key
          (flat_all radix c (data_of raw ∷ string (codes "NX") ∷ [])) r'))

  unfoldable pub move : Client → Text → Text → Reply Bool R → Err × R
  unfolding copy
  move c old_key new_key (b, some err, r) = (some err, r)
  move c old_key new_key (false, none, r) = (not_exist old_key, r)
  move c old_key new_key (true, none, r) = copy c old_key new_key r

  unfoldable pub move_nx : Client → Text → Text → Reply Bool R → Reply Bool R
  unfolding copy_nx
  move_nx c old_key new_key (b, some err, r) = (b, some err, r)
  move_nx c old_key new_key (false, none, r) = (false, not_exist old_key, r)
  move_nx c old_key new_key (true, none, r) = copy_nx c old_key new_key r

  -- `Rename`: in a cluster, whether the key exists is asked of DefaultIns.
  unfoldable pub rename : Client → Client → Text → Text → R → Err × R
  unfolding is_exist move do_action add_prefix
  rename default_ins c old_key new_key r =
      if text_eq old_key new_key
      then (none, r)
      else if c.is_cluster
      then move c old_key new_key (is_exist default_ins old_key r)
      else without (
          do_action radix c nothing
            (codes "RENAME" ∷ add_prefix radix c old_key ∷ add_prefix radix c new_key ∷ []) r)

  -- `RenameNx`
  unfoldable pub rename_nx : Client → Client → Text → Text → R → Reply Bool R
  unfolding is_exist move_nx do_action add_prefix
  rename_nx default_ins c old_key new_key r =
      if text_eq old_key new_key
      then (false, none, r)
      else if c.is_cluster
      then move_nx c old_key new_key (is_exist default_ins old_key r)
      else do_action radix c flag
          (codes "RENAMENX" ∷ add_prefix radix c old_key ∷ add_prefix radix c new_key ∷ []) r

  -- `Expire`
  unfoldable pub expire : Client → Text → ℤ → R → Reply Bool R
  unfolding command
  expire c key expiration r =
      if ltb_ℤ (pos 0) expiration
      then command radix c flag (codes "EXPIRE") key (flat_all radix c (int expiration ∷ [])) r
      else command radix c flag (codes "PERSIST") key [] r

  -- `Ttl`
  unfoldable pub ttl : Client → Text → R → Reply ℤ R
  unfolding command
  ttl c key r = command radix c number (codes "TTL") key [] r

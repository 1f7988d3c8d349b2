-- ===== src/Redis/Places.antt =====
-- The commands of redis/client.go on places, which count their arguments first.
use hfw.Base.{◌%◌, ◌||◌, not, ◌==◌, ltb, List, [], if◌then◌else◌, length}
use hfw.Base.Text.{Text, codes}
use hfw.Base.Int.{ℤ, pos}
use hfw.Redis.{
  number, bytes, several, Any, Radix, Client, Reply, params_not_enough, command, flat_all,
}

module _ {R : Type 0} (radix : Radix R) (c : Client) where
  -- `GeoAdd`
  unfoldable pub geo_add : Text → List Any → R → Reply ℤ R
  unfolding command
  geo_add key members r =
      if (length members == 0) || not (length members % 3 == 0)
      then (pos 0, params_not_enough, r)
      else command radix c number (codes "GEOADD") key (flat_all radix c members) r

  -- `GeoDist`, with the distance as radix reads it.
  unfoldable pub geo_dist : Text → List Any → R → Reply Text R
  unfolding command
  geo_dist key args r =
      if ltb (length args) 2 || ltb 3 (length args)
      then ([], params_not_enough, r)
      else command radix c bytes (codes "GEODIST") key (flat_all radix c args) r

  -- `GeoHash`
  unfoldable pub geo_hash : Text → List Text → R → Reply (List Text) R
  unfolding command
  geo_hash key members r =
      if ltb (length members) 1
      then ([], params_not_enough, r)
      else command radix c several (codes "GEOHASH") key members r

  -- `GeoPos`
  unfoldable pub geo_pos : Text → List Text → R → Reply (List Text) R
  unfolding command
  geo_pos key members r =
      if ltb (length members) 1
      then ([], params_not_enough, r)
      else command radix c several (codes "GEOPOS") key members r

  -- `GeoRadius`
  unfoldable pub geo_radius : Text → List Any → R → Reply (List Text) R
  unfolding command
  geo_radius key args r =
      if ltb (length args) 4
      then ([], params_not_enough, r)
      else command radix c several (codes "GEORADIUS") key (flat_all radix c args) r

  -- `GeoRadiusByMember`
  unfoldable pub geo_radius_by_member : Text → List Any → R → Reply (List Text) R
  unfolding command
  geo_radius_by_member key args r =
      if ltb (length args) 3
      then ([], params_not_enough, r)
      else command radix c several (codes "GEORADIUSBYMEMBER") key (flat_all radix c args) r

-- ===== src/Redis/Tests.antt =====
-- Clients over servers in memory, one of values and one of hashes.
use hfw.Base.{
  Bool, true, false, List, [], ◌∷◌, map, Option, none, some, ◌≡◌, ◌≢◌, refl, arith, ◌⊎◌, inl, inr,
  if◌then◌else◌,
}
use hfw.Base.Text.{Text, codes, text_eq}
use hfw.Base.Text.Laws.{text_eq_iff}
use hfw.Base.Dict.{lookup, insert, lookup-insert, lookup-insert_self}
use hfw.Base.Int.{pos}
use hfw.Session.{Err}
use hfw.Session.Memory.{Hashes, memory_hget, memory_hset, memory_rename_nx}
use hfw.Redis.{
  Kind, flag, number, status, bytes, maybe, nothing, several, Of, Any, string, data_of, int, other,
  Radix, Client, Reply, command, do_action, marshalled, received,
}
use hfw.Redis.Values.{set, get, set_marshalled}
use hfw.Redis.Laws.{ValueLaws}

abbrev flat : Any → List Text
flat (string t) = t ∷ []
flat (data_of t) = t ∷ []
flat (int n) = codes "60" ∷ []
flat (other t) = t ∷ []

abbrev Strings : Type 0
Strings = List (Text × Text)

abbrev value_or_nil : Option Text → Text
value_or_nil none = []
value_or_nil (some v) = v

value_of : Strings → Text → Text
value_of r key = value_or_nil (lookup key r)

abbrev stored : List Text → Strings → Strings
stored (name ∷ key ∷ raw ∷ _) r = insert key raw r
stored _ r = r

abbrev key_of : List Text → Text
key_of (name ∷ key ∷ _) = key
key_of _ = []

abbrev rest_of : List Text → List Text
rest_of [] = []
rest_of (name ∷ args) = args

unfoldable values_act : (k : Kind) → List Text → Strings → Of k × Err × Strings
unfolding value_of
values_act status line r = (codes "OK", none, stored line r)
values_act maybe line r = (lookup (key_of line) r, none, r)
values_act bytes line r = (value_of r (key_of line), none, r)
values_act several line r = (map (value_of r) (rest_of line), none, r)
values_act flag line r = (false, none, r)
values_act number line r = (pos 0, none, r)
values_act nothing line r = (tt, none, r)

abbrev values : Radix Strings
values = record { flat = flat; act = values_act }

stored_apart :
    (key at : Text) (args : List Text) (r : Strings)
    → key ≢ at
    → lookup at (stored (codes "SET" ∷ key ∷ args) r) ≡ lookup at r
stored_apart key at [] r h = refl
stored_apart key at (raw ∷ args) r h =
    ground (arith, text_eq_iff key at, lookup-insert key at raw r)

values-ValueLaws : ValueLaws values
unfolding values_act
values-ValueLaws = record {
  flat_bytes = λ raw. refl;
  get-set = λ key raw r h k. (lookup-insert_self key raw r, refl);
  get-set_ne = λ key at args r h. (stored_apart key at args r h, refl);
  value = value_of;
  get = λ key r. refl;
  mget = λ keys r. refl;
}

-- A codec that puts one letter in front of a value.
abbrev encode : Any → Text ⊎ Text
encode a = inl (b'v' ∷ value_or_nil (text_of a))
  where
    text_of : Any → Option Text
    text_of (other t) = some t
    text_of _ = none

abbrev decode : Text → Any ⊎ Text
decode [] = inr (codes "no value")
decode (_ ∷ t) = inl (other t)

abbrev client : Client
client = record {
  connected = true;
  prefix = codes "a_";
  is_cluster = false;
  marshal = some encode;
  unmarshal = some decode;
}

abbrev default_ins : Client
default_ins = record client { prefix = [] }

steps : Unit {0}
unfolding values_act set get set_marshalled command do_action marshalled received insert lookup
    text_eq
steps = tt

unfoldable hash_flag : List Text → Hashes → Reply Bool Hashes
hash_flag (name ∷ key ∷ key' ∷ _) r =
    if text_eq name (codes "RENAMENX") then memory_rename_nx key key' r else (true, none, r)
hash_flag _ r = (true, none, r)

abbrev hash_set : List Text → Hashes → Hashes
hash_set (name ∷ key ∷ field ∷ raw ∷ _) r = memory_hset key field raw r
hash_set _ r = r

abbrev hash_read : List Text → Hashes → Option Text
hash_read (name ∷ key ∷ field ∷ _) r = memory_hget key field r
hash_read _ r = none

unfoldable hashes_act : (k : Kind) → List Text → Hashes → Of k × Err × Hashes
unfolding hash_flag
hashes_act flag line r = hash_flag line r
hashes_act nothing line r = (tt, none, hash_set line r)
hashes_act maybe line r = (hash_read line r, none, r)
hashes_act number line r = (pos 0, none, r)
hashes_act status line r = ([], none, r)
hashes_act bytes line r = ([], none, r)
hashes_act several line r = ([], none, r)

abbrev hashes : Radix Hashes
hashes = record { flat = flat; act = hashes_act }

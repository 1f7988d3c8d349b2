-- ===== src/Redis/Store.antt =====
-- The client as the store of the sessions uses it, and the laws of Redis below it.
use hfw.Base.{Bool, true, false, List, [], ◌∷◌, ◌++◌, Option, none, some, ◌≡◌, ◌≢◌, inl}
use hfw.Base.Text.{Text, codes}
use hfw.Session.{Err}
use hfw.Session.Store.{HashClient}
use hfw.Redis.{
  flag, maybe, nothing, Any, data_of, string, int, other, Radix, Client, Reply, marshalled,
  received,
}
use hfw.Redis.Keys.{del, rename_nx, expire}
use hfw.Redis.Hashes.{hset, hget, hexists, hdel}

abbrev text_of_any : Option Any → Option Text
text_of_any none = none
text_of_any (some (other t)) = some t
text_of_any (some (string t)) = some t
text_of_any (some (data_of t)) = some t
text_of_any (some (int n)) = none

module _ {R : Type 0} (radix : Radix R) (default_ins c : Client) where
  -- The methods of a client that sessRedisStore calls.
  unfoldable pub hash_client : HashClient R
  unfolding hset hget hexists hdel del rename_nx expire
  hash_client = record {
    hset = λ key field value r. hset radix c key field (other value) r;
    hget = λ key field r. let ((b, v), err, r') = hget radix c key field r in (text_of_any v, err);
    hexists = λ key field r. let (b, err, r') = hexists radix c key field r in (b, err);
    hdel = λ key field r. let (n, err, r') = hdel radix c key (field ∷ []) r in (err, r');
    del = λ key r. let ((n, err, r'), keys) = del radix c (key ∷ []) r in (err, r');
    rename_nx = λ key key' r. rename_nx radix default_ins c key key' r;
    expire = λ key expiration r. (expire radix c key expiration r).2;
  }

  abbrev read : Text → Text → R → Option Text × Err
  read key field r =
      let (x, err, r') = radix.act maybe (codes "HGET" ∷ key ∷ field ∷ []) r in (x, err)

  -- What Redis documents of its commands, as radix passes it on. Of an HSET or a RENAMENX that returns an
  -- error, which Redis may have run or not, nothing is said.
  pub record RadixLaws : Type 0 where
    pub flat_bytes : (raw : Text) → radix.flat (data_of raw) ≡ raw ∷ []
    pub read-hset :
        (key field raw : Text) (r : R)
        → (radix.act nothing (codes "HSET" ∷ key ∷ field ∷ raw ∷ []) r).1 ≡ none
        → read key field (radix.act nothing (codes "HSET" ∷ key ∷ field ∷ raw ∷ []) r).2
          ≡ (some raw, none)
    pub read-hset_ne :
        (key key' field field' raw : Text) (r : R)
        → key ≢ key'
        → (radix.act nothing (codes "HSET" ∷ key ∷ field ∷ raw ∷ []) r).1 ≡ none
        → read key' field' (radix.act nothing (codes "HSET" ∷ key ∷ field ∷ raw ∷ []) r).2
          ≡ read key' field' r
    pub read-rename_nx :
        (key key' field : Text) (r r' : R)
        → radix.act flag (codes "RENAMENX" ∷ key ∷ key' ∷ []) r ≡ (true, none, r')
        → read key' field r' ≡ read key field r
    pub read-rename_nx_kept :
        (key key' at field : Text) (r r' : R)
        → radix.act flag (codes "RENAMENX" ∷ key ∷ key' ∷ []) r ≡ (false, none, r')
        → read at field r' ≡ read at field r
    pub read-expire :
        (key at field : Text) (args : List Text) (r : R)
        → read at field (radix.act flag (codes "EXPIRE" ∷ key ∷ args) r).2 ≡ read at field r

  -- A connected client outside of a cluster whose codec reads every value back.
  pub record IsReady : Type 0 where
    pub connected : c.connected ≡ true
    pub is_cluster : c.is_cluster ≡ false
    pub encode : Text → Text
    pub marshal : (value : Text) → marshalled radix c (other value) ≡ inl (data_of (encode value))
    pub unmarshal :
        (value : Text) (r : R)
        → received radix c (some (encode value), none, r) ≡ ((true, some (other value)), none, r)

  module _ (laws : RadixLaws) (ready : IsReady) where
    abbrev client : HashClient R
    client = hash_client

    renamed_by : Text → Text → R → Reply Bool R
    renamed_by key key' r =
        radix.act flag (codes "RENAMENX" ∷ (c.prefix ++ key) ∷ (c.prefix ++ key') ∷ []) r

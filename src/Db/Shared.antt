-- ===== src/Db/Shared.antt =====
-- What db/db.go shares between the users of one data source.
use hfw.Base.{
  Bool, true, false, [], ◌++◌, Option, none, some, ◌≡◌, refl, sym, ap, subst, ◌∙◌, Bool-cases, inl,
  inr,
}
use hfw.Base.Text.{Text, codes, is_nil}
use hfw.Base.Dict.{lookup, lookup-insert_self}
use hfw.Session.{Err}
use hfw.Db.Engine.{
  DbStdConfig, DbConfig, single, Pool, Drivers, pinged, Got, get_db_dsn, get_engine, engine_at,
  loaded, stored, get_slaves, connect, after_ping, record_call, with_slaves, init_db,
}

module _ {C E : Type 0} (drivers : Drivers C E) where
  -- Where the engine is found again: under the key of its data source.
  pub stored_found :
      (key : Text) (made : E × Err) (p q : Pool E) (e : E) (b : Bool)
      → stored drivers key made p ≡ (some e, b, none, q)
      → lookup key q.engine_map ≡ some e
  stored_found key (e', some err) p q e b h = absurd (cc (ap (λ g. g.2) h))
  stored_found key (e', none) p q e b h =
      ap (λ g. lookup key g.3.engine_map) (sym h)
      ∙ lookup-insert_self key e' p.engine_map
      ∙ ap (λ g. g.0) h

  loaded_found :
      (driver dsn : Text) (o : Option E) (p q : Pool E) (e : E) (b : Bool)
      → lookup (drivers.md5 dsn) p.engine_map ≡ o
      → loaded drivers driver dsn o p ≡ (some e, b, none, q)
      → lookup (drivers.md5 dsn) q.engine_map ≡ some e
  loaded_found driver dsn (some e') p q e b l h =
      ap (λ g. lookup (drivers.md5 dsn) g.3.engine_map) (sym h) ∙ l ∙ ap (λ g. g.0) h
  loaded_found driver dsn none p q e b l h = stored_found (drivers.md5 dsn) _ p q e b h

  engine_found :
      (config : DbStdConfig C) (p q : Pool E) (e : E) (b : Bool) (dsn : Text)
      → get_db_dsn drivers config ≡ (dsn, none)
      → get_engine drivers config p ≡ (some e, b, none, q)
      → lookup (drivers.md5 dsn) q.engine_map ≡ some e
  unfolding get_engine engine_at
  engine_found config p q e b dsn d h = elim (Bool-cases (is_nil config.driver)) [
    | inl n ↦ absurd (cc (ap (λ g. g.2) (rw n at h)))
    | inr n ↦
        loaded_found config.driver dsn (lookup (drivers.md5 dsn) p.engine_map) p q e b refl
          (rw (n, d) at h)
  ]

  pub get_engine_found :
      (config : DbStdConfig C) (p : Pool E) (e : E) (dsn : Text)
      → get_db_dsn drivers config ≡ (dsn, none)
      → is_nil config.driver ≡ false
      → lookup (drivers.md5 dsn) p.engine_map ≡ some e
      → get_engine drivers config p ≡ (some e, false, none, p)
  unfolding get_engine engine_at
  get_engine_found config p e dsn d named found = rw (named, d, found) refl

  alone :
      (config : DbConfig C) (g : Got drivers) (e : E) (b : Bool) (q : Pool E)
      → config.slaves ≡ []
      → g ≡ (some e, b, none, q)
      → with_slaves drivers config g ≡ connect drivers config (single e) b q
  unfolding with_slaves get_slaves
  alone config g e b q s h = rw (h, s) refl

  -- A data source that does not answer: the first InitDb of a configuration without slaves, whose engine is
  -- new and whose Ping fails, returns the error; the next one returns the engine and no error, and makes
  -- neither a Ping nor a setting, nor keeps it alive.
  init_db_unanswered :
      (config : DbConfig C) (p q : Pool E) (e : E) (err dsn : Text)
      → config.slaves ≡ []
      → get_db_dsn drivers config.std ≡ (dsn, none)
      → is_nil config.std.driver ≡ false
      → get_engine drivers config.std p ≡ (some e, true, none, q)
      → drivers.ping q (single e) ≡ some err
      → ((init_db drivers config p).1 ≡ some (codes "Ping failed: " ++ err))
        × (init_db drivers config (init_db drivers config p).2
            ≡ (some (single e), none, (init_db drivers config p).2))
  unfolding init_db
  init_db_unanswered config p q e err dsn s d n h f =
      let left = record_call drivers (single e) pinged q in
      let first : init_db drivers config p ≡ (none, some (codes "Ping failed: " ++ err), left) =
        alone config (get_engine drivers config.std p) e true q s h
        ∙ ap (λ x. after_ping drivers config (single e) x left) f in
      let again =
        get_engine_found config.std left e dsn d n (engine_found config.std p q e true dsn d h) in
      (
        ap (λ r. r.1) first,
        subst (λ l. init_db drivers config l ≡ (some (single e), none, l))
            (sym (ap (λ r. r.2) first))
            (alone config (get_engine drivers config.std left) e false left s again),
      )

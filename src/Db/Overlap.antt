-- ===== src/Db/Overlap.antt =====
-- Calls of getEngine of db/db.go that overlap: its Load and its Store of the map are two steps.
use hfw.Base.{true, false, List, [], ◌∷◌, ◌++◌, none, some, ◌≡◌, ◌≢◌, All, inl, inr, Bool-cases}
use hfw.Base.Text.{Text, is_nil, text_eq}
use hfw.Base.Text.Laws.{text_eq_iff}
use hfw.Base.Dict.{lookup, lookup-insert}
use hfw.Session.{Err}
use hfw.Db.Engine.{DbStdConfig, Pool, EngineCall, Engine, Drivers, get_db_dsn, get_engine, stored}
use hfw.Db.Shared.{stored_found, get_engine_found}

-- The drivers and the data sources of the calls that have found no engine and stored none yet.
abbrev pub Waiting : Type 0
Waiting = List (Text × Text)

module _ {C E : Type 0} (drivers : Drivers C E) where
  -- What a call of getEngine does at once: a Load that finds no engine, or the rest of the call, with
  -- NewEngine and the Store. A Load that finds one changes nothing. Others call methods of the engines.
  pub data EngineStep : Pool E → Waiting → Pool E → Waiting → Type 0 where
    misses :
        {p : Pool E} {w : Waiting}
        → (config : DbStdConfig C) (dsn : Text) → get_db_dsn drivers config ≡ (dsn, none)
        → lookup (drivers.md5 dsn) p.engine_map ≡ none
        → EngineStep p w p ((config.driver, dsn) ∷ w)
    stores :
        {p : Pool E}
        → (driver dsn : Text) (before later : Waiting)
        → EngineStep p
            (before ++ ((driver, dsn) ∷ later))
            (stored drivers (drivers.md5 dsn) (drivers.new_engine driver dsn p) p).3
            (before ++ later)
    uses :
        {p : Pool E} {w : Waiting}
        → (calls : List (Engine E × EngineCall)) → EngineStep p w (record p { calls = calls }) w

  pub data EngineSteps : Pool E → Waiting → Pool E → Waiting → Type 0 where
    at_rest : {p : Pool E} {w : Waiting} → EngineSteps p w p w
    then_on :
        {p q r : Pool E} {w v u : Waiting}
        → EngineStep p w q v
        → EngineSteps q v r u
        → EngineSteps p w r u

  -- The step with which a call for a data source returns an engine.
  pub data Returns (dsn : Text) (e : E) : Pool E → Pool E → Type 0 where
    by_load : {p : Pool E} → lookup (drivers.md5 dsn) p.engine_map ≡ some e → Returns dsn e p p
    by_store :
        {p q : Pool E}
        → (driver : Text)
        → stored drivers (drivers.md5 dsn) (drivers.new_engine driver dsn p) p
          ≡ (some e, true, none, q)
        → Returns dsn e p q

  -- A call that is not for the data source of the key.
  abbrev pub IsOther : Text → Text × Text → Type 0
  IsOther key (driver, dsn) = drivers.md5 dsn ≢ key

  Returns-found :
      (dsn : Text) (e : E) (p q : Pool E)
      → Returns dsn e p q
      → lookup (drivers.md5 dsn) q.engine_map ≡ some e
  Returns-found dsn e p q (Returns.by_load h) = h
  Returns-found dsn e p q (Returns.by_store driver h) =
      stored_found drivers (drivers.md5 dsn) (drivers.new_engine driver dsn p) p q e true h

  others_without :
      (key : Text) (x : Text × Text) (before later : Waiting)
      → All (IsOther key) (before ++ (x ∷ later))
      → IsOther key x × All (IsOther key) (before ++ later)
  others_without key x [] later h = h
  others_without key x (y ∷ before) later (h, hs) =
      let (k, ks) = others_without key x before later hs in (k, (h, ks))

  stored-kept :
      (key other : Text) (made : E × Err) (p : Pool E) (e : E)
      → other ≢ key
      → lookup key p.engine_map ≡ some e
      → lookup key (stored drivers other made p).3.engine_map ≡ some e
  stored-kept key other (e', some err) p e apart h = h
  stored-kept key other (e', none) p e apart h = elim (Bool-cases (text_eq other key)) [
    | inl same ↦ absurd (apart ((text_eq_iff other key).0 same))
    | inr ne ↦ rw (lookup-insert other key e' p.engine_map, ne) h
  ]

  EngineStep-kept :
      {p q : Pool E} {w v : Waiting}
      → (key : Text) (e : E) → EngineStep p w q v
      → lookup key p.engine_map ≡ some e
      → All (IsOther key) w
      → (lookup key q.engine_map ≡ some e) × All (IsOther key) v
  EngineStep-kept {p} key e (EngineStep.misses config dsn d none_there) h others =
      (h, ((λ same. absurd (cc (same, h, none_there))), others))
  EngineStep-kept {p} key e (EngineStep.stores driver dsn before later) h others =
      let (apart, rest) = others_without key (driver, dsn) before later others in
      (stored-kept key (drivers.md5 dsn) (drivers.new_engine driver dsn p) p e apart h, rest)
  EngineStep-kept key e (EngineStep.uses calls) h others = (h, others)

  EngineSteps-kept :
      {p q : Pool E} {w v : Waiting}
      → (key : Text) (e : E) → EngineSteps p w q v
      → lookup key p.engine_map ≡ some e
      → All (IsOther key) w
      → lookup key q.engine_map ≡ some e
  EngineSteps-kept key e EngineSteps.at_rest h others = h
  EngineSteps-kept key e (EngineSteps.then_on s r) h others =
      let (h', others') = EngineStep-kept key e s h others in EngineSteps-kept key e r h' others'

  -- A call has returned an engine, by its Load or its Store, when no other call for its data source stood
  -- between the two: then however the calls of getEngine interleave from there on, each later call for the
  -- data source gets the same engine, and makes none of its own.
  pub get_engine_again :
      {p q r : Pool E} {w v : Waiting}
      → (other : DbStdConfig C) (dsn : Text) (e : E) → Returns dsn e p q
      → All (IsOther (drivers.md5 dsn)) w
      → EngineSteps q w r v
      → get_db_dsn drivers other ≡ (dsn, none)
      → is_nil other.driver ≡ false
      → get_engine drivers other r ≡ (some e, false, none, r)
  get_engine_again {p} {q} {r} other dsn e returned others steps d named =
      get_engine_found drivers other r e dsn d named
        (EngineSteps-kept (drivers.md5 dsn) e steps (Returns-found dsn e p q returned) others)

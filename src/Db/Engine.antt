-- ===== src/Db/Engine.antt =====
-- Which engine a configuration has: InitDb, getEngine and getDbDsn of db/db.go, NewXormDao of
-- db/xorm_dao.go. xorm, the drivers' data source names and the cache are parameters.
use hfw.Base.{Bool, true, false, ◌||◌, List, [], ◌∷◌, ◌++◌, Option, none, some, if◌then◌else◌}
use hfw.Base.Text.{Text, codes, is_nil, to_lower}
use hfw.Base.Dict.{lookup, insert}
use hfw.Base.Int.{ℤ, pos, ltb_ℤ}
use hfw.Session.{Err}
use hfw.Db.Log.{XormDao}

-- `DbStdConfig`, by the fields read here: its driver and, for the driver's function, the whole of it.
pub record DbStdConfig (C : Type 0) : Type 0 where
  pub driver : Text
  pub rest : C

pub record DbConfig (C : Type 0) : Type 0 where
  pub std : DbStdConfig C
  pub slaves : List (DbStdConfig C)
  pub max_idle_conns : ℤ
  pub max_open_conns : ℤ
  pub cache_type : Text

-- `engineMap` with engines as numbers, and what is called on engines, the last call first.
pub data EngineCall : Type 0 where
  pinged : EngineCall
  set_max_idle_conns : ℤ → EngineCall
  set_max_open_conns : ℤ → EngineCall
  keepalive : EngineCall

-- An engine of xorm, or a group of a master and its slaves.
pub data Engine (E : Type 0) : Type 0 where
  single : E → Engine E
  group : Engine E → List E → Engine E

pub record Pool (E : Type 0) : Type 0 where
  pub engine_map : List (Text × E)
  pub calls : List (Engine E × EngineCall)

-- `dnsFuncMap`, `common.Md5`, `xorm.NewEngine`, `xorm.NewEngineGroup` and `Ping`.
pub record Drivers (C E : Type 0) : Type 0 where
  pub dns_func_map : List (Text × (DbStdConfig C → Text))
  pub md5 : Text → Text
  pub new_engine : Text → Text → Pool E → E × Err
  pub new_engine_group : Engine E → List E → Err
  pub ping : Pool E → Engine E → Err

module _ {C E : Type 0} (drivers : Drivers C E) where
  abbrev pub dsn_by : DbStdConfig C → Option (DbStdConfig C → Text) → Text × Err
  dsn_by config none = ([], some (codes "error db driver: " ++ config.driver))
  dsn_by config (some f) = (f config, none)

  -- `getDbDsn`, on a copy of the configuration whose driver is put in lower case.
  unfoldable pub get_db_dsn : DbStdConfig C → Text × Err
  unfolding lookup to_lower
  get_db_dsn config =
      let lowered = record config { driver = to_lower config.driver } in
      dsn_by lowered (lookup lowered.driver drivers.dns_func_map)

  -- An engine, whether it is new, an error, and the map.
  abbrev pub Got : Type 0
  Got = Option E × Bool × Err × Pool E

  abbrev pub stored : Text → E × Err → Pool E → Got
  stored key (e, some err) p = (some e, false, some (codes "NewEngine failed: " ++ err), p)
  stored key (e, none) p = (some e, true, none, record p { engine_map = insert key e p.engine_map })

  abbrev pub loaded : Text → Text → Option E → Pool E → Got
  loaded driver dsn (some e) p = (some e, false, none, p)
  loaded driver dsn none p = stored (drivers.md5 dsn) (drivers.new_engine driver dsn p) p

  unfoldable pub engine_at : Text → Text × Err → Pool E → Got
  unfolding lookup insert
  engine_at driver (dsn, some err) p = (none, false, some err, p)
  engine_at driver (dsn, none) p = loaded driver dsn (lookup (drivers.md5 dsn) p.engine_map) p

  -- A call of getEngine with which no other interleaves; Db.Overlap has its steps.
  unfoldable pub get_engine : DbStdConfig C → Pool E → Got
  unfolding engine_at get_db_dsn
  get_engine config p =
      if is_nil config.driver
      then (none, false, some (codes "dbConfig Driver is nil"), p)
      else engine_at config.driver (get_db_dsn config) p

  -- The engines of the slaves, and whether one is new.
  abbrev pub Slaves : Type 0
  Slaves = List E × Bool × Err × Pool E

  abbrev pub slave_before : Bool → Got → (Pool E → Slaves) → Slaves
  slave_before is_new (none, new, some err, p) rest = ([], is_new, some err, p)
  slave_before is_new (some e, new, some err, p) rest = ([], is_new, some err, p)
  slave_before is_new (none, new, none, p) rest = rest p
  slave_before is_new (some e, new, none, p) rest =
      let (es, is_new', err, p') = rest p in (e ∷ es, is_new' || new, err, p')

  unfoldable pub get_slaves : Bool → List (DbStdConfig C) → Pool E → Slaves
  unfolding get_engine
  get_slaves is_new [] p = ([], is_new, none, p)
  get_slaves is_new (s ∷ ss) p = slave_before is_new (get_engine s p) (get_slaves is_new ss)

  abbrev pub Ready : Type 0
  Ready = Option (Engine E) × Err × Pool E

  abbrev pub record_call : Engine E → EngineCall → Pool E → Pool E
  record_call e c p = record p { calls = (e, c) ∷ p.calls }

  abbrev pub set_if : Engine E → (ℤ → EngineCall) → ℤ → Pool E → Pool E
  set_if e call n p = if ltb_ℤ (pos 0) n then record_call e (call n) p else p

  -- What follows the Ping.
  abbrev pub after_ping : DbConfig C → Engine E → Err → Pool E → Ready
  after_ping config e (some err) p = (none, some (codes "Ping failed: " ++ err), p)
  after_ping config e none p = (
    some e,
    none,
    record_call e keepalive (
        set_if e set_max_open_conns config.max_open_conns
          (set_if e set_max_idle_conns config.max_idle_conns p)),
  )

  abbrev pub connect : DbConfig C → Engine E → Bool → Pool E → Ready
  connect config e false p = (some e, none, p)
  connect config e true p = after_ping config e (drivers.ping p e) (record_call e pinged p)

  abbrev pub grouped : DbConfig C → Engine E → Slaves → Ready
  grouped config e (es, is_new, some err, p) = (some e, some err, p)
  grouped config e ([], is_new, none, p) = connect config e is_new p
  grouped config e (s ∷ ss, is_new, none, p) = elim (drivers.new_engine_group e (s ∷ ss)) [
    | some err ↦ (none, some (codes "NewEngineGroup failed: " ++ err), p)
    | none ↦ connect config (group e (s ∷ ss)) is_new p
  ]

  unfoldable pub with_slaves : DbConfig C → Got → Ready
  unfolding get_slaves
  with_slaves config (none, is_new, some err, p) = (none, some err, p)
  with_slaves config (some e, is_new, some err, p) = (some (single e), some err, p)
  with_slaves config (none, is_new, none, p) = (none, none, p)
  with_slaves config (some e, is_new, none, p) =
      grouped config (single e) (get_slaves is_new config.slaves p)

  unfoldable pub init_db : DbConfig C → Pool E → Ready
  unfolding get_engine with_slaves
  init_db config p = with_slaves config (get_engine config.std p)

  -- A new object with its engine; a cacher that cannot be had is an error, but the object is returned.
  abbrev pub Made : Type 0
  Made = Option (Engine E × XormDao) × Err × Pool E

  abbrev pub with_cacher : DbConfig C → Bool × Err → Ready → Made
  with_cacher config cacher (e, some err, p) = (none, some err, p)
  with_cacher config cacher (none, none, p) = (none, none, p)
  with_cacher config (has_cacher, err) (some e, none, p) =
      if is_nil config.cache_type
      then (some (e, record { has_cacher = false; is_cache = false; sess = none }), none, p)
      else (some (e, record { has_cacher = has_cacher; is_cache = false; sess = none }), err, p)

  -- `NewXormDao`, at what GetCacher answers.
  unfoldable pub new_xorm_dao : DbConfig C → Bool × Err → Pool E → Made
  unfolding init_db
  new_xorm_dao config cacher p =
      if is_nil config.std.driver
      then (none, some (codes "nil db config"), p)
      else with_cacher config cacher (init_db config p)

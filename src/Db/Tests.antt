-- ===== src/Db/Tests.antt =====
-- The data layer at small conditions, over a database that answers every call.
use hfw.Base.{
  ℕ, ◌*◌, ◌-◌, ◌+◌, ◌/◌, ◌<◌, ◌≤◌, ◌↔◌, true, false, List, [], ◌∷◌, ◌++◌, none, some, ◌≡◌, refl,
  arith, length,
}
use hfw.Base.Text.{Text, codes, to_lower, text_eq, lower}
use hfw.Base.Int.{pos, wrap64, to_bits, of_bits}
use hfw.Base.Dict.{lookup, insert}
use mathlib.Core.List.{Permᴰ}
use hfw.Db.{
  AnyValue, text, int, Cond, Model, Call, limit, int_of, atoi, fields, trim_space, max,
  convert_to_int,
}
use hfw.Db.Cond.{build_cond, case_for, keys, positive_or, default_page_size}
use hfw.Db.Description.{
  described, AllGood, is_good, is_unlimited, is_nolimit, greatest, last_size, entry_page,
  entry_size, entry_order, entry_where,
}
use hfw.Db.Log.{XormDao, Xorm}
use hfw.Db.Ops.{
  perform, perform_all, op_search, op_begin, op_commit, op_close, op_new_session, op_rows,
  op_insert, Op,
}
use hfw.Db.Rounds.{build_cond-described}
use hfw.Db.Order.{build_cond-perm, assemble, OneSpelling}
use hfw.Db.Paging.{build_cond-pages}
use hfw.Db.Balance.{IsBalanced, open_sessions, perform_all-IsBalanced}
use hfw.Db.Transaction.{Continues, perform_all-Continues}
use hfw.Db.Refused.{Chooses, IsRefused, perform-IsRefused}
use hfw.Db.Engine.{Drivers, DbStdConfig, DbConfig, Pool, get_engine, stored, engine_at, get_db_dsn}
use hfw.Db.Overlap.{EngineStep, EngineSteps, Returns, get_engine_again}

abbrev server : Xorm ℕ
server = record { zero_of = 0; answer = λ log. (length log, none); last_insert_id = λ r. (r, none) }

abbrev users : Model
users = record { auto_incr_col_name = codes "id"; table_name = codes "users" }

abbrev dao : XormDao
dao = record { has_cacher = true; is_cache = false; sess = none }

-- Third page of the adults of a name, twenty rows each.
abbrev adults : Cond
adults =
    (codes "Age >", int (pos 18))
    ∷ (codes "page", text (codes "3"))
    ∷ (codes "name", text (codes "bob"))
    ∷ (codes "PageSize", int (pos 20))
    ∷ (codes "orderby", text (codes "name"))
    ∷ []

adults-AllGood : AllGood adults
unfolding is_good case_for keys lookup text_eq to_lower lower fields trim_space
adults-AllGood = (refl, (refl, (refl, (refl, (refl, tt)))))

build_cond-described_example :
    build_cond users adults true true ≡ (described users adults true true, true)
build_cond-described_example = build_cond-described users adults true true adults-AllGood

-- The same map in another order.
abbrev shuffled : Cond
shuffled =
    (codes "page", text (codes "3"))
    ∷ (codes "Age >", int (pos 18))
    ∷ (codes "name", text (codes "bob"))
    ∷ (codes "PageSize", int (pos 20))
    ∷ (codes "orderby", text (codes "name"))
    ∷ []

adults-OneSpelling : OneSpelling adults
unfolding case_for keys lookup text_eq to_lower lower entry_order entry_where entry_size
adults-OneSpelling = (omega arith, omega arith, omega arith)

build_cond-perm_example :
    (sess sess' : List Call) × (w : Text) × (cs cs' : List (Text × AnyValue)) × (orderby : Text)
    × (limits : List Call) × (build_cond users adults true true
        ≡ (assemble users sess w cs orderby limits, true))
    × (build_cond users shuffled true true ≡ (assemble users sess' w cs' orderby limits, true))
    × Permᴰ sess sess'
    × Permᴰ cs cs'
build_cond-perm_example =
    build_cond-perm users adults shuffled true true (Permᴰ.swap refl refl) adults-AllGood
      adults-OneSpelling

adults_paged : is_unlimited adults ≡ false
unfolding is_unlimited is_nolimit case_for keys lookup text_eq to_lower lower
adults_paged = refl

adults_page : greatest (pos 1) adults ≡ pos 3
unfolding greatest entry_page case_for keys lookup text_eq to_lower lower int_of atoi max
adults_page = refl

adults_size : last_size default_page_size adults ≡ pos 20
unfolding last_size entry_size case_for keys lookup text_eq to_lower lower int_of positive_or
    convert_to_int wrap64 to_bits of_bits
adults_size = refl

build_cond-pages_example :
    (calls : List Call) × (p size : ℕ) × (build_cond users adults true true
      ≡ (calls ++ (limit (pos size) (pos ((p - 1) * size)) ∷ []), true))
    × (pos p ≡ greatest (pos 1) adults)
    × (pos size ≡ last_size default_page_size adults)
    × (1 ≤ p)
    × (1 ≤ size)
    × ((i : ℕ) → (((p - 1) * size ≤ i) × (i < (p - 1) * size + size)) ↔ (p ≡ i / size + 1))
build_cond-pages_example =
    build_cond-pages users adults true adults-AllGood adults_paged
      (rw (adults_page, adults_size) (omega arith))

-- A search without a session, a transaction, and a search whose session is closed before it is asked.
abbrev calls_made : List Op
calls_made =
    op_search users adults
    ∷ op_new_session
    ∷ op_begin
    ∷ op_insert users users
    ∷ op_commit
    ∷ op_close
    ∷ op_rows users adults
    ∷ []

perform_all-IsBalanced_example :
    IsBalanced (perform_all server calls_made dao []).0 (perform_all server calls_made dao []).1
unfolding open_sessions
perform_all-IsBalanced_example = perform_all-IsBalanced server calls_made dao [] refl

abbrev in_session : XormDao
in_session = record { has_cacher = true; is_cache = false; sess = some 0 }

abbrev inside : List Op
inside = op_begin ∷ op_search users adults ∷ op_insert users users ∷ op_commit ∷ []

perform_all-Continues_example :
    ((perform_all server inside in_session []).0.sess ≡ some 0)
    × Continues 0 [] (perform_all server inside in_session []).1
perform_all-Continues_example =
    perform_all-Continues server 0 inside in_session []
      (λ e. cc e, (λ e. cc e, (λ e. cc e, (λ e. cc e, tt)))) refl

-- Three words are no column.
abbrev bad : Cond
bad = (codes "name like all", text (codes "bob")) ∷ []

perform-IsRefused_example :
    IsRefused server [] (perform server (op_search users bad) in_session []).1
unfolding is_good case_for keys lookup text_eq to_lower lower fields trim_space
perform-IsRefused_example =
    perform-IsRefused server (op_search users bad) bad in_session [] (Chooses.by_search users bad)
      refl

-- Only the page is said.
abbrev paged_only : Cond
paged_only = (codes "page", int (pos 2)) ∷ []

-- A driver whose database is down.
abbrev drivers : Drivers Text ℕ
drivers = record {
  dns_func_map = (codes "mysql", λ c. codes "root@tcp(" ++ (c.rest ++ codes ")/test")) ∷ [];
  md5 = λ t. t;
  new_engine = λ driver dsn p. (length p.engine_map, none);
  new_engine_group = λ e es. none;
  ping = λ p e. some (codes "connection refused");
}

abbrev std : DbStdConfig Text
std = record { driver = codes "MySQL"; rest = codes "10.0.0.1" }

abbrev config : DbConfig Text
config = record {
  std = std;
  slaves = [];
  max_idle_conns = pos 10;
  max_open_conns = pos 20;
  cache_type = [];
}

abbrev no_pool : Pool ℕ
no_pool = record { engine_map = []; calls = [] }

abbrev one_engine : Pool ℕ
one_engine = record { engine_map = (codes "root@tcp(10.0.0.1)/test", 0) ∷ []; calls = [] }

abbrev elsewhere : DbStdConfig Text
elsewhere = record { driver = codes "mysql"; rest = codes "10.0.0.2" }

-- A call for another data source, of which the other half is left out.
missed :
    EngineSteps drivers one_engine [] one_engine
      ((codes "mysql", codes "root@tcp(10.0.0.2)/test") ∷ [])
unfolding get_db_dsn lookup to_lower lower text_eq
missed =
    EngineSteps.then_on (EngineStep.misses elsewhere (codes "root@tcp(10.0.0.2)/test") refl refl)
      EngineSteps.at_rest

get_engine_again_example :
    get_engine drivers (record std { driver = codes "mysql" }) one_engine
    ≡ (some 0, false, none, one_engine)
unfolding get_engine engine_at get_db_dsn lookup insert to_lower lower text_eq
get_engine_again_example =
    get_engine_again drivers (record std { driver = codes "mysql" })
      (codes "root@tcp(10.0.0.1)/test") 0 (Returns.by_store {p = no_pool} (codes "mysql") refl) tt
      missed refl refl

-- Two first calls for one data source: the engine of the second replaces that which the first has returned.
engine_replaced :
    (stored drivers (codes "root@tcp(10.0.0.1)/test") (7, none) one_engine).3.engine_map
    ≡ (codes "root@tcp(10.0.0.1)/test", 7) ∷ []
unfolding insert text_eq
engine_replaced = refl

-- ===== src/Db/Dao.antt =====
-- The operations of db/xorm_dao.go.
use hfw.Base.{ℕ, true, false, List, [], ◌∷◌, ◌++◌, ◌||◌, map, Option, none, some, if◌then◌else◌}
use hfw.Base.Text.{Text, codes, text_eq, to_lower, join}
use hfw.Db.{
  AnyValue, null, Cond, Model, Params, Arg, Call, table, cols, all_cols, is_in, is_in_ids, unscoped,
  update, insert, insert_multi, get, find, find_and_count, rows, iterate, count, exec, query,
  query_string, query_interface, delete, begin, rollback, commit,
}
use hfw.Db.Log.{
  opened, closed, map_cacher, clear_cache, Log, XormDao, Xorm, opened_in, Answer, on_sess, run,
  fail, conditioned,
}

-- `rs.LastInsertId()`, where the statement did not fail.
abbrev pub insert_id : {R : Type 0} → Xorm R → Answer R → Answer R
insert_id xorm (r, none, log) = ((xorm.last_insert_id r).0, (xorm.last_insert_id r).1, log)
insert_id xorm (r, some err, log) = (xorm.zero_of, some err, log)

-- The keys that `Replace` passes over.
abbrev replaced : Cond → List (Text × AnyValue)
replaced [] = []
replaced ((k, v) ∷ cond) =
    let rest = replaced cond in
    let key = to_lower k in
    if text_eq key (codes "orderby")
      || text_eq key (codes "page")
      || text_eq key (codes "pagesize")
      || text_eq key (codes "where")
    then rest
    else (key, v) ∷ rest

abbrev assignment : Text × AnyValue → Text
assignment (k, v) = codes "`" ++ (k ++ codes "` = ?")

unfoldable pub replace_sql : Model → Cond → Text
replace_sql t cond =
    codes "REPLACE `"
    ++ (t.table_name ++ (codes "` SET " ++ join (map assignment (replaced cond)) (codes ", ")))

unfoldable pub replace_args : Cond → List AnyValue
replace_args cond = map (λ e. e.1) (replaced cond)

-- The columns that are to be written, and those that are to be read.
abbrev pub id_cols : Params → List Text → List Call
id_cols params (c ∷ cs) = cols (c ∷ cs) ∷ []
id_cols (Params.of_model m) [] = all_cols ∷ []
id_cols _ [] = []

abbrev pub get_cols : List Text → List Call
get_cols [] = []
get_cols (c ∷ cs) = cols (c ∷ cs) ∷ []

module _ {R : Type 0} (xorm : Xorm R) where
  unfoldable pub update_by_ids :
      XormDao → Model → Params → List AnyValue → List Text → Log → Answer R
  unfolding on_sess run
  update_by_ids d t params [] columns log = fail xorm (codes "ids parameters error") log
  update_by_ids d t params (i ∷ ids) columns log =
      on_sess d.sess
        (run xorm (
          id_cols params columns
          ++ (table t ∷ is_in_ids t.auto_incr_col_name (i ∷ ids) ∷ update params ∷ [])))
        log

  unfoldable pub update_by_where : XormDao → Model → Cond → Cond → Log → Answer R
  unfolding on_sess conditioned
  update_by_where d t params [] log = fail xorm (codes "where paramters error") log
  update_by_where d t params (e ∷ where_cond) log =
      on_sess d.sess
        (conditioned xorm false false t (e ∷ where_cond)
          (table t ∷ update (Params.of_cond params) ∷ []))
        log

  unfoldable pub insert_row : XormDao → Model → Model → Log → Answer R
  unfolding on_sess run
  insert_row d m t log = on_sess d.sess (run xorm (table m ∷ insert t ∷ [])) log

  unfoldable pub insert_rows : XormDao → Model → AnyValue → Log → Answer R
  unfolding on_sess run
  insert_rows d m t log = on_sess d.sess (run xorm (table m ∷ insert_multi t ∷ [])) log

  unfoldable pub search_one : XormDao → Model → Cond → Log → Answer R
  unfolding on_sess conditioned
  search_one d t cond log = on_sess d.sess (conditioned xorm true false t cond (get t ∷ [])) log

  unfoldable pub search : XormDao → Model → Cond → Log → Answer R
  unfolding on_sess conditioned
  search d t cond log = on_sess d.sess (conditioned xorm true true t cond (find ∷ [])) log

  unfoldable pub search_and_count : XormDao → Model → Cond → Log → Answer R
  unfolding on_sess conditioned
  search_and_count d t cond log =
      on_sess d.sess (conditioned xorm true true t cond (find_and_count ∷ [])) log

  unfoldable pub rows_of : XormDao → Model → Cond → Log → Answer R
  unfolding on_sess conditioned
  rows_of d t cond log = on_sess d.sess (conditioned xorm true true t cond (rows t ∷ [])) log

  unfoldable pub iterate_over : XormDao → Model → Cond → Log → Answer R
  unfolding on_sess conditioned
  iterate_over d t cond log =
      on_sess d.sess (conditioned xorm true true t cond (iterate t ∷ [])) log

  unfoldable pub get_by_ids : XormDao → Model → List AnyValue → List Text → Log → Answer R
  unfolding on_sess run
  get_by_ids d t ids columns log =
      on_sess d.sess
        (run xorm (get_cols columns ++ (table t ∷ is_in_ids t.auto_incr_col_name ids ∷ find ∷ [])))
        log

  unfoldable pub count_of : XormDao → Model → Cond → Log → Answer R
  unfolding on_sess conditioned
  count_of d t cond log = on_sess d.sess (conditioned xorm false false t cond (count t ∷ [])) log

  unfoldable pub exec_sql : XormDao → Text → List AnyValue → Log → Answer R
  unfolding on_sess run
  exec_sql d sql_str args log = on_sess d.sess (run xorm (exec sql_str args ∷ [])) log

  unfoldable pub replace : XormDao → Model → Cond → Log → Answer R
  unfolding exec_sql replace_sql replace_args
  replace d t cond log = insert_id xorm (exec_sql d (replace_sql t cond) (replace_args cond) log)

  -- The three ways to query: a condition in front of the arguments is taken off them.
  unfoldable pub queried : (List Arg → Call) → XormDao → Model → List Arg → Log → Answer R
  unfolding on_sess conditioned run
  queried call d t (Arg.of_cond cond ∷ args) log =
      on_sess d.sess (conditioned xorm true true t cond (call args ∷ [])) log
  queried call d t (Arg.of_value v ∷ args) log =
      on_sess d.sess (run xorm (call (Arg.of_value v ∷ args) ∷ [])) log
  queried call d t [] log = on_sess d.sess (run xorm (table t ∷ call [] ∷ [])) log

  unfoldable pub query_rows : XormDao → Model → List Arg → Log → Answer R
  unfolding queried
  query_rows = queried query

  unfoldable pub query_rows_string : XormDao → Model → List Arg → Log → Answer R
  unfolding queried
  query_rows_string = queried query_string

  unfoldable pub query_rows_interface : XormDao → Model → List Arg → Log → Answer R
  unfolding queried
  query_rows_interface = queried query_interface

  unfoldable pub delete_by_ids : XormDao → Model → AnyValue → Log → Answer R
  unfolding on_sess run
  delete_by_ids d t null log = fail xorm (codes "ids parameters error") log
  delete_by_ids d t ids log =
      on_sess d.sess
        (run xorm (table t ∷ is_in t.auto_incr_col_name ids ∷ unscoped ∷ delete t ∷ [])) log

  unfoldable pub delete_by_where : XormDao → Model → Cond → Log → Answer R
  unfolding on_sess conditioned
  delete_by_where d t [] log = fail xorm (codes "where paramters error") log
  delete_by_where d t (e ∷ where_cond) log =
      on_sess d.sess (conditioned xorm false false t (e ∷ where_cond) (unscoped ∷ delete t ∷ []))
        log

  -- `Begin`, `Rollback`, `Commit`: only on a session of the object.
  abbrev pub on_session : Call → Option ℕ → Log → Answer R
  on_session call (some id) log = run xorm (call ∷ []) id log
  on_session call none log = fail xorm (codes "please NewSession at first") log

  unfoldable pub begin_tx : XormDao → Log → Answer R
  unfolding run
  begin_tx d log = on_session begin d.sess log

  unfoldable pub rollback_tx : XormDao → Log → Answer R
  unfolding run
  rollback_tx d log = on_session rollback d.sess log

  unfoldable pub commit_tx : XormDao → Log → Answer R
  unfolding run
  commit_tx d log = on_session commit d.sess log

abbrev pub new_if_none : Option ℕ → Log → Option ℕ × Log
new_if_none (some id) log = (some id, log)
new_if_none none log = (some (opened_in log), opened (opened_in log) ∷ log)

unfoldable pub new_session : XormDao → Log → XormDao × Log
new_session d log = (record d { sess = (new_if_none d.sess log).0 }, (new_if_none d.sess log).1)

abbrev pub close_if_some : Option ℕ → Log → Log
close_if_some (some id) log = closed id ∷ log
close_if_some none log = log

unfoldable pub close : XormDao → Log → XormDao × Log
close d log = (record d { sess = none }, close_if_some d.sess log)

unfoldable pub enable_cache : XormDao → Model → Log → XormDao × Log
enable_cache d t log =
    if d.has_cacher then (record d { is_cache = true }, map_cacher t true ∷ log) else (d, log)

unfoldable pub disable_cache : XormDao → Model → Log → XormDao × Log
disable_cache d t log = (record d { is_cache = false }, map_cacher t false ∷ log)

unfoldable pub clear_cached : XormDao → Model → Log → Log
clear_cached d t log = if d.is_cache then clear_cache t ∷ log else log

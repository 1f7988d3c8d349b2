-- ===== src/Db/Ops.antt =====
-- The methods of `XormDao` as one step function, for what holds of any sequence of them.
use hfw.Base.{List, [], ◌∷◌, none}
use hfw.Base.Text.{Text}
use hfw.Db.{AnyValue, Cond, Model, Params, Arg}
use hfw.Db.Log.{Log, XormDao, Xorm, Answer}
use hfw.Db.Dao.{
  update_by_ids, update_by_where, insert_row, insert_rows, search_one, search, search_and_count,
  rows_of, iterate_over, get_by_ids, count_of, exec_sql, replace, query_rows, query_rows_string,
  query_rows_interface, delete_by_ids, delete_by_where, begin_tx, rollback_tx, commit_tx,
  new_session, close, enable_cache, disable_cache, clear_cached,
}

-- A call of a method with its arguments.
pub data Op : Type 0 where
  op_update_by_ids : Model → Params → List AnyValue → List Text → Op
  op_update_by_where : Model → Cond → Cond → Op
  op_insert : Model → Model → Op
  op_insert_multi : Model → AnyValue → Op
  op_search_one : Model → Cond → Op
  op_search : Model → Cond → Op
  op_search_and_count : Model → Cond → Op
  op_rows : Model → Cond → Op
  op_iterate : Model → Cond → Op
  op_get_by_ids : Model → List AnyValue → List Text → Op
  op_count : Model → Cond → Op
  op_replace : Model → Cond → Op
  op_exec : Text → List AnyValue → Op
  op_query : Model → List Arg → Op
  op_query_string : Model → List Arg → Op
  op_query_interface : Model → List Arg → Op
  op_delete_by_ids : Model → AnyValue → Op
  op_delete_by_where : Model → Cond → Op
  op_enable_cache : Model → Op
  op_disable_cache : Model → Op
  op_clear_cache : Model → Op
  op_new_session : Op
  op_close : Op
  op_begin : Op
  op_rollback : Op
  op_commit : Op

module _ {R : Type 0} (xorm : Xorm R) where
  abbrev silent : XormDao × Log → XormDao × Answer R
  silent (d, log) = (d, (xorm.zero_of, none, log))

  -- The object and the answer of a call.
  unfoldable pub perform : Op → XormDao → Log → XormDao × Answer R
  unfolding update_by_ids update_by_where insert_row insert_rows search_one search search_and_count
      rows_of iterate_over get_by_ids count_of exec_sql replace query_rows query_rows_string
      query_rows_interface delete_by_ids delete_by_where begin_tx rollback_tx commit_tx new_session
      close enable_cache disable_cache clear_cached
  perform (op_update_by_ids t params ids columns) d log =
      (d, update_by_ids xorm d t params ids columns log)
  perform (op_update_by_where t params where_cond) d log =
      (d, update_by_where xorm d t params where_cond log)
  perform (op_insert m t) d log = (d, insert_row xorm d m t log)
  perform (op_insert_multi m t) d log = (d, insert_rows xorm d m t log)
  perform (op_search_one t cond) d log = (d, search_one xorm d t cond log)
  perform (op_search t cond) d log = (d, search xorm d t cond log)
  perform (op_search_and_count t cond) d log = (d, search_and_count xorm d t cond log)
  perform (op_rows t cond) d log = (d, rows_of xorm d t cond log)
  perform (op_iterate t cond) d log = (d, iterate_over xorm d t cond log)
  perform (op_get_by_ids t ids columns) d log = (d, get_by_ids xorm d t ids columns log)
  perform (op_count t cond) d log = (d, count_of xorm d t cond log)
  perform (op_replace t cond) d log = (d, replace xorm d t cond log)
  perform (op_exec sql_str args) d log = (d, exec_sql xorm d sql_str args log)
  perform (op_query t args) d log = (d, query_rows xorm d t args log)
  perform (op_query_string t args) d log = (d, query_rows_string xorm d t args log)
  perform (op_query_interface t args) d log = (d, query_rows_interface xorm d t args log)
  perform (op_delete_by_ids t ids) d log = (d, delete_by_ids xorm d t ids log)
  perform (op_delete_by_where t where_cond) d log = (d, delete_by_where xorm d t where_cond log)
  perform (op_enable_cache t) d log = silent (enable_cache d t log)
  perform (op_disable_cache t) d log = silent (disable_cache d t log)
  perform (op_clear_cache t) d log = (d, (xorm.zero_of, none, clear_cached d t log))
  perform op_new_session d log = silent (new_session d log)
  perform op_close d log = silent (close d log)
  perform op_begin d log = (d, begin_tx xorm d log)
  perform op_rollback d log = (d, rollback_tx xorm d log)
  perform op_commit d log = (d, commit_tx xorm d log)

  -- Calls one after the other: the object and the world they leave.
  unfoldable pub perform_all : List Op → XormDao → Log → XormDao × Log
  unfolding perform
  perform_all [] d log = (d, log)
  perform_all (op ∷ ops) d log = perform_all ops (perform op d log).0 (perform op d log).1.2

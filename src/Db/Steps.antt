-- ===== src/Db/Steps.antt =====
-- What the methods of `XormDao` have in common: what they do to a session and to the object.
use hfw.Base.{
  Bool, true, false, List, [], ◌∷◌, ◌++◌, none, some, ◌≡◌, refl, sym, subst, if◌then◌else◌,
}
use hfw.Db.{
  null, text, texts, int, float, other, Model, Cond, Call, Arg, begin, rollback, commit, query,
  query_string, query_interface, table, exec, insert, insert_multi, find, update, unscoped, delete,
  is_in, is_in_ids,
}
use hfw.Db.Log.{map_cacher, clear_cache, Log, XormDao, Xorm, Answer, on_sess, run, conditioned}
use hfw.Db.Dao.{
  update_by_ids, update_by_where, insert_row, insert_rows, search_one, search, search_and_count,
  rows_of, iterate_over, get_by_ids, count_of, exec_sql, replace, replace_sql, replace_args,
  insert_id, on_session, new_if_none, queried, query_rows, query_rows_string, query_rows_interface,
  delete_by_ids, delete_by_where, begin_tx, rollback_tx, commit_tx, new_session, close,
  enable_cache, disable_cache, clear_cached, id_cols, get_cols,
}
use hfw.Db.Ops.{
  Op, perform, op_update_by_ids, op_update_by_where, op_insert, op_insert_multi, op_search_one,
  op_search, op_search_and_count, op_rows, op_iterate, op_get_by_ids, op_count, op_replace, op_exec,
  op_query, op_query_string, op_query_interface, op_delete_by_ids, op_delete_by_where,
  op_enable_cache, op_disable_cache, op_clear_cache, op_new_session, op_close, op_begin,
  op_rollback, op_commit,
}

-- A relation between the object and the world before a call and after it that holds of all that the
-- methods are made of.
pub record Steps {R : Type 0} (xorm : Xorm R) (Q : XormDao → Log → XormDao → Log → Type 0)
    : Type 0 where
  pub same : (d : XormDao) (log : Log) → Q d log d log
  pub ran :
      (calls : List Call) (d : XormDao) (log : Log)
      → Q d log d (on_sess d.sess (run xorm calls) log).2
  pub searched :
      (is_order is_paging : Bool) (t : Model) (cond : Cond) (calls : List Call) (d : XormDao)
      (log : Log)
      → Q d log d (on_sess d.sess (conditioned xorm is_order is_paging t cond calls) log).2
  pub on_own :
      (call : Call) (d : XormDao) (log : Log) → Q d log d (on_session xorm call d.sess log).2
  pub mapped :
      (is_cache b : Bool) (t : Model) (d : XormDao) (log : Log)
      → Q d log (record d { is_cache = is_cache }) (map_cacher t b ∷ log)
  pub renewed :
      (d : XormDao) (log : Log)
      → Q d log (record d { sess = (new_if_none d.sess log).0 }) (new_if_none d.sess log).1
  pub cleared : (t : Model) (d : XormDao) (log : Log) → Q d log d (clear_cache t ∷ log)

module _ {R : Type 0} (xorm : Xorm R) where
  insert_id-log : (a : Answer R) → (insert_id xorm a).2 ≡ a.2
  insert_id-log (r, none, log) = refl
  insert_id-log (r, some err, log) = refl

module _ {R : Type 0} (xorm : Xorm R) {Q : XormDao → Log → XormDao → Log → Type 0}
    (s : Steps xorm Q) where
  queried-Steps :
      (call : List Arg → Call) (d : XormDao) (t : Model) (args : List Arg) (log : Log)
      → Q d log d (queried xorm call d t args log).2
  unfolding queried
  queried-Steps call d t [] log = s.ran (table t ∷ call [] ∷ []) d log
  queried-Steps call d t (Arg.of_cond cond ∷ args) log =
      s.searched true true t cond (call args ∷ []) d log
  queried-Steps call d t (Arg.of_value v ∷ args) log =
      s.ran (call (Arg.of_value v ∷ args) ∷ []) d log

  replace-Steps :
      (d : XormDao) (t : Model) (cond : Cond) (log : Log) → Q d log d (replace xorm d t cond log).2
  unfolding replace exec_sql
  replace-Steps d t cond log =
      subst (λ l. Q d log d l)
        (sym (insert_id-log xorm (exec_sql xorm d (replace_sql t cond) (replace_args cond) log)))
        (s.ran (exec (replace_sql t cond) (replace_args cond) ∷ []) d log)

  either_pair :
      (b : Bool) (d : XormDao) (log : Log) (p q : XormDao × Log)
      → Q d log p.0 p.1
      → Q d log q.0 q.1
      → Q d log
          (if◌then◌else◌ {A = XormDao × Log} b p q).0
          (if◌then◌else◌ {A = XormDao × Log} b p q).1
  either_pair true d log p q h k = h
  either_pair false d log p q h k = k

  either_log :
      (b : Bool) (d : XormDao) (log l l' : Log)
      → Q d log d l
      → Q d log d l'
      → Q d log d (if b then l else l')
  either_log true d log l l' h k = h
  either_log false d log l l' h k = k

  -- Of `Close`, the relation is asked for itself.
  pub perform-Steps :
      (op : Op) (d : XormDao) (log : Log)
      → (op ≡ op_close → Q d log (close d log).0 (close d log).1)
      → Q d log (perform xorm op d log).0 (perform xorm op d log).1.2
  unfolding perform update_by_ids update_by_where insert_row insert_rows search_one search
      search_and_count rows_of iterate_over get_by_ids count_of exec_sql query_rows
      query_rows_string query_rows_interface delete_by_ids delete_by_where begin_tx rollback_tx
      commit_tx enable_cache disable_cache clear_cached new_session
  perform-Steps (op_update_by_ids t params [] columns) d log _ = s.same d log
  perform-Steps (op_update_by_ids t params (i ∷ ids) columns) d log _ =
      s.ran
        (id_cols params columns
          ++ (table t ∷ is_in_ids t.auto_incr_col_name (i ∷ ids) ∷ update params ∷ []))
        d log
  perform-Steps (op_update_by_where t params []) d log _ = s.same d log
  perform-Steps (op_update_by_where t params (e ∷ c)) d log _ =
      s.searched false false t (e ∷ c) _ d log
  perform-Steps (op_insert m t) d log _ = s.ran (table m ∷ insert t ∷ []) d log
  perform-Steps (op_insert_multi m t) d log _ = s.ran (table m ∷ insert_multi t ∷ []) d log
  perform-Steps (op_search_one t c) d log _ = s.searched true false t c _ d log
  perform-Steps (op_search t c) d log _ = s.searched true true t c _ d log
  perform-Steps (op_search_and_count t c) d log _ = s.searched true true t c _ d log
  perform-Steps (op_rows t c) d log _ = s.searched true true t c _ d log
  perform-Steps (op_iterate t c) d log _ = s.searched true true t c _ d log
  perform-Steps (op_get_by_ids t ids columns) d log _ =
      s.ran (get_cols columns ++ (table t ∷ is_in_ids t.auto_incr_col_name ids ∷ find ∷ [])) d log
  perform-Steps (op_count t c) d log _ = s.searched false false t c _ d log
  perform-Steps (op_replace t c) d log _ = replace-Steps d t c log
  perform-Steps (op_exec sql_str args) d log _ = s.ran (exec sql_str args ∷ []) d log
  perform-Steps (op_query t args) d log _ = queried-Steps query d t args log
  perform-Steps (op_query_string t args) d log _ = queried-Steps query_string d t args log
  perform-Steps (op_query_interface t args) d log _ = queried-Steps query_interface d t args log
  perform-Steps (op_delete_by_ids t null) d log _ = s.same d log
  perform-Steps (op_delete_by_ids t (text v)) d log _ =
      s.ran (table t ∷ is_in t.auto_incr_col_name (text v) ∷ unscoped ∷ delete t ∷ []) d log
  perform-Steps (op_delete_by_ids t (texts v)) d log _ =
      s.ran (table t ∷ is_in t.auto_incr_col_name (texts v) ∷ unscoped ∷ delete t ∷ []) d log
  perform-Steps (op_delete_by_ids t (int v)) d log _ =
      s.ran (table t ∷ is_in t.auto_incr_col_name (int v) ∷ unscoped ∷ delete t ∷ []) d log
  perform-Steps (op_delete_by_ids t (float v)) d log _ =
      s.ran (table t ∷ is_in t.auto_incr_col_name (float v) ∷ unscoped ∷ delete t ∷ []) d log
  perform-Steps (op_delete_by_ids t (other v)) d log _ =
      s.ran (table t ∷ is_in t.auto_incr_col_name (other v) ∷ unscoped ∷ delete t ∷ []) d log
  perform-Steps (op_delete_by_where t []) d log _ = s.same d log
  perform-Steps (op_delete_by_where t (e ∷ c)) d log _ = s.searched false false t (e ∷ c) _ d log
  perform-Steps (op_enable_cache t) d log _ =
      either_pair d.has_cacher d log (record d { is_cache = true }, map_cacher t true ∷ log)
        (d, log) (s.mapped true true t d log) (s.same d log)
  perform-Steps (op_disable_cache t) d log _ = s.mapped false false t d log
  perform-Steps (op_clear_cache t) d log _ =
      either_log d.is_cache d log (clear_cache t ∷ log) log (s.cleared t d log) (s.same d log)
  perform-Steps op_begin d log _ = s.on_own begin d log
  perform-Steps op_rollback d log _ = s.on_own rollback d log
  perform-Steps op_commit d log _ = s.on_own commit d log
  perform-Steps op_new_session d log _ = s.renewed d log
  perform-Steps op_close d log h = h refl

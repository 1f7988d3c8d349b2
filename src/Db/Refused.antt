-- ===== src/Db/Refused.antt =====
-- The methods of db/xorm_dao.go at a condition with a key that is refused.
use hfw.Base.{
  ℕ, Bool, true, false, List, [], ◌∷◌, Option, none, some, ◌≡◌, refl, ap, ◌∙◌, if◌then◌else◌,
}
use hfw.Base.Text.{Text, codes}
use hfw.Db.{AnyValue, Cond, Model, Arg, Call}
use hfw.Db.Cond.{build_cond}
use hfw.Db.Log.{
  after_cond, Log, opened, called, XormDao, Xorm, call_all, Answer, on_sess, conditioned, opened_in,
}
use hfw.Db.Dao.{
  update_by_where, search_one, search, search_and_count, rows_of, iterate_over, count_of, queried,
  query_rows, query_rows_string, query_rows_interface, delete_by_where,
}
use hfw.Db.Ops.{
  Op, perform, op_update_by_where, op_search_one, op_search, op_search_and_count, op_rows,
  op_iterate, op_count, op_query, op_query_string, op_query_interface, op_delete_by_where,
}
use hfw.Db.Quiet.{sent, all_good, Quiet, build_cond-Quiet}

-- The methods that choose rows by a condition, and the condition. Replace takes one for its columns, and
-- UpdateByWhere for its new values, which are no choice.
pub data Chooses : Op → Cond → Type 0 where
  by_update :
      (t : Model) (params : Cond) (e : Text × AnyValue) (cond : Cond)
      → Chooses (op_update_by_where t params (e ∷ cond)) (e ∷ cond)
  by_search_one : (t : Model) (cond : Cond) → Chooses (op_search_one t cond) cond
  by_search : (t : Model) (cond : Cond) → Chooses (op_search t cond) cond
  by_search_and_count : (t : Model) (cond : Cond) → Chooses (op_search_and_count t cond) cond
  by_rows : (t : Model) (cond : Cond) → Chooses (op_rows t cond) cond
  by_iterate : (t : Model) (cond : Cond) → Chooses (op_iterate t cond) cond
  by_count : (t : Model) (cond : Cond) → Chooses (op_count t cond) cond
  by_query :
      (t : Model) (cond : Cond) (args : List Arg)
      → Chooses (op_query t (Arg.of_cond cond ∷ args)) cond
  by_query_string :
      (t : Model) (cond : Cond) (args : List Arg)
      → Chooses (op_query_string t (Arg.of_cond cond ∷ args)) cond
  by_query_interface :
      (t : Model) (cond : Cond) (args : List Arg)
      → Chooses (op_query_interface t (Arg.of_cond cond ∷ args)) cond
  by_delete :
      (t : Model) (e : Text × AnyValue) (cond : Cond)
      → Chooses (op_delete_by_where t (e ∷ cond)) (e ∷ cond)

call_all-sent :
    (id : ℕ) (cs : List Call) (log : Log) → Quiet cs → sent (call_all id cs log) ≡ sent log
unfolding call_all
call_all-sent id [] log _ = refl
call_all-sent id (c ∷ cs) log (h, hs) =
    call_all-sent id cs (called id c ∷ log) hs ∙ ap (λ b. if b then c ∷ sent log else sent log) h

module _ {R : Type 0} (xorm : Xorm R) where
  -- Nothing is sent, and the answer is the error.
  abbrev pub IsRefused : Log → Answer R → Type 0
  IsRefused log (r, err, log') =
      (r ≡ xorm.zero_of) × (err ≡ some (codes "error cond")) × (sent log' ≡ sent log)

  on_false :
      (b : Bool) (log : Log) (x y : Answer R)
      → b ≡ false
      → IsRefused log y
      → IsRefused log (if b then x else y)
  on_false true log x y e h = absurd (cc e)
  on_false false log x y e h = h

  conditioned-IsRefused :
      (is_order is_paging : Bool) (t : Model) (cond : Cond) (calls : List Call) (id : ℕ) (log : Log)
      → all_good cond ≡ false
      → IsRefused log (conditioned xorm is_order is_paging t cond calls id log)
  unfolding conditioned after_cond
  conditioned-IsRefused is_order is_paging t cond calls id log bad =
      let built = build_cond t cond is_order is_paging in
      let (quiet, failed) = build_cond-Quiet t cond is_order is_paging bad in
      on_false built.1 log _ _ failed (refl, refl, call_all-sent id built.0 log quiet)

  on_sess-IsRefused :
      (o : Option ℕ) (body : ℕ → Log → Answer R) (log : Log)
      → ((id : ℕ) (l : Log) → IsRefused l (body id l))
      → IsRefused log (on_sess o body log)
  unfolding on_sess
  on_sess-IsRefused none body log h = h (opened_in log) (opened (opened_in log) ∷ log)
  on_sess-IsRefused (some id) body log h = h id log

  searched :
      (o : Option ℕ) (is_order is_paging : Bool) (t : Model) (cond : Cond) (calls : List Call)
      (log : Log)
      → all_good cond ≡ false
      → IsRefused log (on_sess o (conditioned xorm is_order is_paging t cond calls) log)
  searched o is_order is_paging t cond calls log bad =
      on_sess-IsRefused o _ log
        (λ id l. conditioned-IsRefused is_order is_paging t cond calls id l bad)

  -- UpdateByWhere, DeleteByWhere, the searches, Rows, Iterate, Count and the queries that begin with a
  -- condition, where the condition that chooses the rows has a key that is neither in the switch nor of one
  -- or two words: each returns "error cond" and nothing else, and sends nothing to the database, the changes
  -- included.
  pub perform-IsRefused :
      (op : Op) (cond : Cond) (d : XormDao) (log : Log)
      → Chooses op cond
      → all_good cond ≡ false
      → IsRefused log (perform xorm op d log).1
  unfolding perform update_by_where search_one search search_and_count rows_of iterate_over count_of
      queried query_rows query_rows_string query_rows_interface delete_by_where
  perform-IsRefused _ _ d log (Chooses.by_update t params e c) bad =
      searched d.sess false false t (e ∷ c) _ log bad
  perform-IsRefused _ _ d log (Chooses.by_search_one t c) bad =
      searched d.sess true false t c _ log bad
  perform-IsRefused _ _ d log (Chooses.by_search t c) bad = searched d.sess true true t c _ log bad
  perform-IsRefused _ _ d log (Chooses.by_search_and_count t c) bad =
      searched d.sess true true t c _ log bad
  perform-IsRefused _ _ d log (Chooses.by_rows t c) bad = searched d.sess true true t c _ log bad
  perform-IsRefused _ _ d log (Chooses.by_iterate t c) bad = searched d.sess true true t c _ log bad
  perform-IsRefused _ _ d log (Chooses.by_count t c) bad = searched d.sess false false t c _ log bad
  perform-IsRefused _ _ d log (Chooses.by_query t c args) bad =
      searched d.sess true true t c _ log bad
  perform-IsRefused _ _ d log (Chooses.by_query_string t c args) bad =
      searched d.sess true true t c _ log bad
  perform-IsRefused _ _ d log (Chooses.by_query_interface t c args) bad =
      searched d.sess true true t c _ log bad
  perform-IsRefused _ _ d log (Chooses.by_delete t e c) bad =
      searched d.sess false false t (e ∷ c) _ log bad

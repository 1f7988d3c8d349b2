-- ===== src/Db/Unbounded.antt =====
-- Conditions that are not empty and ask for nothing: UpdateByWhere and DeleteByWhere of db/xorm_dao.go.
use hfw.Base.{Bool, true, false, [], ◌∷◌, ◌≡◌, refl, ap, ◌∙◌, All}
use hfw.Base.Text.{Text, join}
use hfw.Db.{AnyValue, Cond, Model, Params, table, where_, update, unscoped, delete}
use hfw.Db.Cond.{
  Key, key_nolimit, key_orderby, key_groupby, key_having, key_page, key_pagesize, key_where,
  key_sql, key_select, key_distinct, key_forupdate, key_cols, key_mustcols, key_omit, key_allcols,
  column, going, round, next_round, rounds, finish_cond, whole_where, last_calls, order_calls,
  limit_calls, first_build, build_cond,
}
use hfw.Db.Description.{case_of, low}
use hfw.Db.Log.{after_cond, Log, XormDao, Xorm, on_sess, run, conditioned}
use hfw.Db.Dao.{update_by_where, delete_by_where}

-- The keys that say something of the order or of the page only.
abbrev pub is_vacuous : Key → Bool
is_vacuous key_nolimit = true
is_vacuous key_orderby = true
is_vacuous key_page = true
is_vacuous key_pagesize = true
is_vacuous _ = false

abbrev pub AllVacuous : Cond → Type 0
AllVacuous = All (λ e. is_vacuous (case_of e) ≡ true)

vacuous_round :
    (key : Key) (k : Text) (v : AnyValue) (t : Model)
    → is_vacuous key ≡ true
    → round false key k v (first_build t false false) ≡ going (first_build t false false)
unfolding round
vacuous_round key_nolimit k v t _ = refl
vacuous_round key_orderby k v t _ = refl
vacuous_round key_page k v t _ = refl
vacuous_round key_pagesize k v t _ = refl
vacuous_round key_groupby k v t h = absurd (cc h)
vacuous_round key_having k v t h = absurd (cc h)
vacuous_round key_where k v t h = absurd (cc h)
vacuous_round key_sql k v t h = absurd (cc h)
vacuous_round key_select k v t h = absurd (cc h)
vacuous_round key_distinct k v t h = absurd (cc h)
vacuous_round key_forupdate k v t h = absurd (cc h)
vacuous_round key_cols k v t h = absurd (cc h)
vacuous_round key_mustcols k v t h = absurd (cc h)
vacuous_round key_omit k v t h = absurd (cc h)
vacuous_round key_allcols k v t h = absurd (cc h)
vacuous_round column k v t h = absurd (cc h)

vacuous_rounds :
    (cond : Cond) (t : Model)
    → AllVacuous cond
    → rounds false cond (first_build t false false) ≡ going (first_build t false false)
unfolding rounds
vacuous_rounds [] t _ = refl
vacuous_rounds (e ∷ cond) t (h, hs) =
    ap (λ r. next_round r (rounds false cond)) (vacuous_round (case_of e) (low e) e.1 t h)
    ∙ vacuous_rounds cond t hs

vacuous_cond :
    (cond : Cond) (t : Model)
    → AllVacuous cond
    → build_cond t cond false false ≡ (table t ∷ where_ [] [] ∷ [], true)
unfolding build_cond finish_cond last_calls whole_where order_calls limit_calls join
vacuous_cond cond t h = ap finish_cond (vacuous_rounds cond t h)

module _ {R : Type 0} (xorm : Xorm R) where
  -- A where condition that is not empty, and says something of the order and of the page only, passes the
  -- guard of UpdateByWhere and of DeleteByWhere: the update and the delete are sent with an empty Where.
  by_where-vacuous :
      (e : Text × AnyValue) (cond : Cond) (d : XormDao) (t : Model) (params : Cond) (log : Log)
      → AllVacuous (e ∷ cond)
      → (update_by_where xorm d t params (e ∷ cond) log
          ≡ on_sess d.sess
              (run xorm (table t ∷ where_ [] [] ∷ table t ∷ update (Params.of_cond params) ∷ []))
              log)
        × (delete_by_where xorm d t (e ∷ cond) log
            ≡ on_sess d.sess (run xorm (table t ∷ where_ [] [] ∷ unscoped ∷ delete t ∷ [])) log)
  unfolding update_by_where delete_by_where conditioned after_cond
  by_where-vacuous e cond d t params log h =
      let built = vacuous_cond (e ∷ cond) t h in
      (
        ap
            (λ b.
              on_sess d.sess (after_cond xorm b (table t ∷ update (Params.of_cond params) ∷ []))
                log)
            built,
        ap (λ b. on_sess d.sess (after_cond xorm b (unscoped ∷ delete t ∷ [])) log) built,
      )

-- ===== src/Db/Description.antt =====
-- What `buildCond` of db/xorm_dao.go makes of a condition, without its loop: each part of the statement
-- is read off the entries by itself.
use hfw.Base.{
  Bool, true, false, not, ◌&&◌, List, [], ◌∷◌, ◌++◌, Option, none, some, ◌≡◌, if◌then◌else◌, All,
}
use hfw.Base.Text.{Text, codes, text_eq, to_lower}
use hfw.Base.Int.{ℤ, pos}
use hfw.Base.Perms.{any, flat, fold_over}
use hfw.Db.{
  AnyValue, Cond, Model, Call, table, group_by, having, sql, select, distinct, for_update, cols,
  must_cols, omit, all_cols, is_in, not_in, where_, int_of, max, fields, trim_space,
}
use hfw.Db.Cond.{
  Key, key_nolimit, key_orderby, key_groupby, key_having, key_page, key_pagesize, key_where,
  key_sql, key_select, key_distinct, key_forupdate, key_cols, key_mustcols, key_omit, key_allcols,
  column, case_for, string_of, get_or, if_text, if_texts, positive_or, whole_where, order_calls,
  limit_calls, default_page_size, first_order,
}

-- The condition that a column's words ask for, if it is one of the statement's text.
unfoldable pub column_clause : List Text → Text → Option Text
column_clause (a ∷ []) k = some (codes "`" ++ (k ++ codes "` = ?"))
column_clause (a ∷ op ∷ []) k =
    if text_eq op (codes "in")
    then none
    else if text_eq op (codes "notin")
    then none
    else if text_eq op (codes "like")
    then some (codes "`" ++ (a ++ codes "` like ?"))
    else some (k ++ codes " ?")
column_clause _ k = none

-- The calls that a column's words ask for.
unfoldable pub column_calls : List Text → AnyValue → List Call
column_calls (a ∷ op ∷ []) v =
    if text_eq op (codes "in")
    then is_in a v ∷ []
    else if text_eq op (codes "notin")
    then not_in a v ∷ []
    else []
column_calls _ v = []

abbrev pub one_or_two : List Text → Bool
one_or_two (a ∷ []) = true
one_or_two (a ∷ op ∷ []) = true
one_or_two _ = false

abbrev pub listed : Option Text → List Text
listed none = []
listed (some s) = s ∷ []

abbrev pub listed_arg : Option Text → AnyValue → List AnyValue
listed_arg none v = []
listed_arg (some s) v = v ∷ []

-- What one entry, with its key in lower case, gives to each part.
unfoldable pub entry_clause : Key → Text → Option Text
unfolding column_clause
entry_clause column k = column_clause (fields (trim_space k)) k
entry_clause _ k = none

unfoldable pub entry_calls : Key → Text → AnyValue → List Call
unfolding column_calls
entry_calls key_groupby k v = if_text group_by v
entry_calls key_having k v = if_text having v
entry_calls key_sql k v = sql v ∷ []
entry_calls key_select k v = if_text select v
entry_calls key_distinct k v = if_text distinct v
entry_calls key_forupdate k v = for_update ∷ []
entry_calls key_cols k v = if_texts cols v
entry_calls key_mustcols k v = if_texts must_cols v
entry_calls key_omit k v = if_texts omit v
entry_calls key_allcols k v = all_cols ∷ []
entry_calls column k v = column_calls (fields (trim_space k)) v
entry_calls _ k v = []

unfoldable pub entry_order : Key → AnyValue → Option Text
entry_order key_orderby v = some (get_or (string_of v) [])
entry_order _ v = none

unfoldable pub entry_where : Key → AnyValue → Option Text
entry_where key_where v = string_of v
entry_where _ v = none

unfoldable pub entry_page : Key → AnyValue → Option ℤ
entry_page key_page v = some (int_of v)
entry_page _ v = none

unfoldable pub entry_size : Key → AnyValue → Option ℤ
entry_size key_pagesize v = some (int_of v)
entry_size _ v = none

unfoldable pub is_nolimit : Key → Bool
is_nolimit key_nolimit = true
is_nolimit _ = false

unfoldable pub is_good : Key → Text → Bool
is_good column k = one_or_two (fields (trim_space k))
is_good _ k = true

-- The key of an entry, in lower case, and its case.
abbrev pub low : Text × AnyValue → Text
low e = to_lower e.0

abbrev pub case_of : Text × AnyValue → Key
case_of e = case_for (low e)

-- The entry that has the last word, else what was there before.
unfoldable pub last_of : (Key → AnyValue → Option Text) → Text → Cond → Text
unfolding get_or
last_of f d cond = fold_over get_or (λ e. f (case_of e) e.1) d cond

abbrev pub maximum : Option ℤ → ℤ → ℤ
maximum none d = d
maximum (some n) d = max n d

unfoldable pub greatest : ℤ → Cond → ℤ
unfolding entry_page
greatest d cond = fold_over maximum (λ e. entry_page (case_of e) e.1) d cond

abbrev pub positive : Option ℤ → ℤ → ℤ
positive none d = d
positive (some n) d = positive_or n d

unfoldable pub last_size : ℤ → Cond → ℤ
unfolding entry_size
last_size d cond = fold_over positive (λ e. entry_size (case_of e) e.1) d cond

unfoldable pub clauses : Cond → List Text
unfolding entry_clause
clauses cond = flat (λ e. listed (entry_clause (case_of e) (low e))) cond

unfoldable pub clause_args : Cond → List AnyValue
unfolding entry_clause
clause_args cond = flat (λ e. listed_arg (entry_clause (case_of e) (low e)) e.1) cond

unfoldable pub session_calls : Cond → List Call
unfolding entry_calls
session_calls cond = flat (λ e. entry_calls (case_of e) (low e) e.1) cond

unfoldable pub is_unlimited : Cond → Bool
unfolding is_nolimit
is_unlimited cond = any (λ e. is_nolimit (case_of e)) cond

-- Every key that is not in the switch has one or two words.
abbrev pub AllGood : Cond → Type 0
AllGood = All (λ e. is_good (case_of e) (low e) ≡ true)

-- The text of the order by clause.
unfoldable pub ordered : Bool → Text → Cond → Text
unfolding last_of
ordered is_order d cond = if is_order then last_of entry_order d cond else d

-- The calls of a statement.
unfoldable pub described : Model → Cond → Bool → Bool → List Call
unfolding last_of greatest last_size clauses clause_args session_calls is_unlimited ordered
    whole_where order_calls limit_calls
described t cond is_order is_paging =
    table t ∷ session_calls cond
    ++ (where_ (whole_where (last_of entry_where [] cond) (clauses cond)) (clause_args cond)
          ∷ order_calls (ordered is_order (first_order is_order t) cond)
        ++ limit_calls (is_paging && not (is_unlimited cond)) (greatest (pos 1) cond)
            (last_size default_page_size cond))

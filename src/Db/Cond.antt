-- ===== src/Db/Cond.antt =====
-- `buildCond` of db/xorm_dao.go: from a condition to the calls on the session.
use hfw.Base.{Bool, true, false, List, [], ◌∷◌, ◌++◌, Option, none, some, if◌then◌else◌, not, ◌&&◌}
use hfw.Base.Text.{Text, codes, is_nil, text_eq, to_lower, join}
use hfw.Base.Dict.{lookup}
use hfw.Base.Int.{ℤ, pos, ltb_ℤ, ◌-ℤ◌, ◌*ℤ◌, wrap64}
use hfw.Db.{
  AnyValue, text, texts, Cond, Model, Call, table, group_by, having, sql, select, distinct,
  for_update, cols, must_cols, omit, all_cols, is_in, not_in, where_, order_by, limit, int_of, max,
  fields, trim_space,
}

-- The keys with a meaning of their own, and `column` for every other key.
pub data Key : Type 0 where
  key_nolimit : Key
  key_orderby : Key
  key_groupby : Key
  key_having : Key
  key_page : Key
  key_pagesize : Key
  key_where : Key
  key_sql : Key
  key_select : Key
  key_distinct : Key
  key_forupdate : Key
  key_cols : Key
  key_mustcols : Key
  key_omit : Key
  key_allcols : Key
  column : Key

-- The cases of the switch.
unfoldable pub keys : List (Text × Key)
keys =
    (codes "nolimit", key_nolimit)
    ∷ (codes "orderby", key_orderby)
    ∷ (codes "groupby", key_groupby)
    ∷ (codes "having", key_having)
    ∷ (codes "page", key_page)
    ∷ (codes "pagesize", key_pagesize)
    ∷ (codes "where", key_where)
    ∷ (codes "sql", key_sql)
    ∷ (codes "select", key_select)
    ∷ (codes "distinct", key_distinct)
    ∷ (codes "forupdate", key_forupdate)
    ∷ (codes "cols", key_cols)
    ∷ (codes "mustcols", key_mustcols)
    ∷ (codes "omit", key_omit)
    ∷ (codes "allcols", key_allcols)
    ∷ []

abbrev or_column : Option Key → Key
or_column none = column
or_column (some key) = key

-- The case for a key in lower case.
unfoldable pub case_for : Text → Key
unfolding keys lookup
case_for k = or_column (lookup k keys)

-- The variables of `buildCond`; `sess` is the calls made on the session.
pub record Build : Type 0 where
  pub sess : List Call
  pub str : List Text
  pub args : List AnyValue
  pub orderby : Text
  pub page : ℤ
  pub page_size : ℤ
  pub is_paging : Bool
  pub where_text : Text

-- `v.(string)`, where it is a text with something in it.
unfoldable pub string_of : AnyValue → Option Text
string_of (text s) = if is_nil s then none else some s
string_of _ = none

unfoldable pub get_or : {A : Type 0} → Option A → A → A
get_or none d = d
get_or (some x) d = x

-- `if s, ok := v.(string); ok && len(s) > 0` and `if s, ok := v.([]string); ok`
abbrev pub text_calls : (Text → Call) → Option Text → List Call
text_calls call none = []
text_calls call (some s) = call s ∷ []

unfoldable pub if_text : (Text → Call) → AnyValue → List Call
unfolding string_of
if_text call v = text_calls call (string_of v)

unfoldable pub if_texts : (List Text → Call) → AnyValue → List Call
if_texts call (texts s) = call s ∷ []
if_texts call _ = []

unfoldable pub issue : Build → List Call → Build
issue b calls = record b { sess = b.sess ++ calls }

-- `if ps > 0 { pageSize = ps }`
unfoldable pub positive_or : ℤ → ℤ → ℤ
positive_or ps page_size = if ltb_ℤ (pos 0) ps then ps else page_size

-- One more condition, with its argument.
unfoldable pub clause : Build → Text → AnyValue → Build
clause b s v = record b { str = b.str ++ (s ∷ []); args = b.args ++ (v ∷ []) }

-- What one round of the loop leaves: the variables, or the error with the calls made before it.
pub data Round : Type 0 where
  going : Build → Round
  error_cond : List Call → Round

-- A key that is not in the switch, by its words.
unfoldable pub column_round : List Text → Text → AnyValue → Build → Round
unfolding issue clause
column_round (a ∷ []) k v b = going (clause b (codes "`" ++ (k ++ codes "` = ?")) v)
column_round (a ∷ op ∷ []) k v b =
    if text_eq op (codes "in")
    then going (issue b (is_in a v ∷ []))
    else if text_eq op (codes "notin")
    then going (issue b (not_in a v ∷ []))
    else if text_eq op (codes "like")
    then going (clause b (codes "`" ++ (a ++ codes "` like ?")) v)
    else going (clause b (k ++ codes " ?") v)
column_round _ k v b = error_cond b.sess

-- One round of the loop, at a key in lower case.
unfoldable pub round : Bool → Key → Text → AnyValue → Build → Round
unfolding string_of get_or if_text if_texts positive_or issue column_round
round is_order key_nolimit k v b = going (record b { is_paging = false })
round is_order key_orderby k v b =
    going (record b { orderby = if is_order then get_or (string_of v) [] else b.orderby })
round is_order key_groupby k v b = going (issue b (if_text group_by v))
round is_order key_having k v b = going (issue b (if_text having v))
round is_order key_page k v b =
    going (record b { page = if b.is_paging then max (int_of v) b.page else b.page })
round is_order key_pagesize k v b = going (record b {
  page_size = if b.is_paging then positive_or (int_of v) b.page_size else b.page_size;
})
round is_order key_where k v b = going (record b { where_text = get_or (string_of v) b.where_text })
round is_order key_sql k v b = going (issue b (sql v ∷ []))
round is_order key_select k v b = going (issue b (if_text select v))
round is_order key_distinct k v b = going (issue b (if_text distinct v))
round is_order key_forupdate k v b = going (issue b (for_update ∷ []))
round is_order key_cols k v b = going (issue b (if_texts cols v))
round is_order key_mustcols k v b = going (issue b (if_texts must_cols v))
round is_order key_omit k v b = going (issue b (if_texts omit v))
round is_order key_allcols k v b = going (issue b (all_cols ∷ []))
round is_order column k v b = column_round (fields (trim_space k)) k v b

abbrev pub next_round : Round → (Build → Round) → Round
next_round (going b) rest = rest b
next_round (error_cond calls) rest = error_cond calls

unfoldable pub rounds : Bool → Cond → Build → Round
unfolding case_for round
rounds is_order [] b = going b
rounds is_order ((k, v) ∷ cond) b =
    next_round (round is_order (case_for (to_lower k)) (to_lower k) v b) (rounds is_order cond)

-- The text handed to Where.
unfoldable pub whole_where : Text → List Text → Text
whole_where w str =
    let strs = join str (codes " AND ") in
    if not (is_nil w) && not (is_nil strs)
    then codes "(" ++ (w ++ (codes ") AND " ++ strs))
    else if not (is_nil strs)
    then strs
    else w

unfoldable pub order_calls : Text → List Call
order_calls orderby = if is_nil orderby then [] else order_by orderby ∷ []

-- `sess.Limit(pageSize, (page-1)*pageSize)`, on 64 bits.
unfoldable pub limit_call : ℤ → ℤ → Call
limit_call page page_size = limit page_size (wrap64 (wrap64 (page -ℤ pos 1) *ℤ page_size))

unfoldable pub limit_calls : Bool → ℤ → ℤ → List Call
unfolding limit_call
limit_calls is_paging page page_size = if is_paging then limit_call page page_size ∷ [] else []

-- What follows the loop.
unfoldable pub last_calls : Build → List Call
unfolding whole_where order_calls limit_calls
last_calls b =
    b.sess
    ++ (where_ (whole_where b.where_text b.str) b.args ∷ order_calls b.orderby
        ++ limit_calls b.is_paging b.page b.page_size)

abbrev pub default_page_size : ℤ
default_page_size = pos 1000

abbrev pub first_order : Bool → Model → Text
first_order is_order t =
    if is_order && not (is_nil t.auto_incr_col_name)
    then t.auto_incr_col_name ++ codes " desc"
    else []

abbrev pub first_build : Model → Bool → Bool → Build
first_build t is_order is_paging = record {
  sess = table t ∷ [];
  str = [];
  args = [];
  orderby = first_order is_order t;
  page = pos 1;
  page_size = default_page_size;
  is_paging = is_paging;
  where_text = [];
}

unfoldable pub finish_cond : Round → List Call × Bool
unfolding last_calls
finish_cond (going b) = (last_calls b, true)
finish_cond (error_cond calls) = (calls, false)

-- The calls that `buildCond` makes, and whether it returns without an error.
unfoldable pub build_cond : Model → Cond → Bool → Bool → List Call × Bool
unfolding rounds finish_cond
build_cond t cond is_order is_paging =
    finish_cond (rounds is_order cond (first_build t is_order is_paging))

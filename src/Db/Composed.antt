-- ===== src/Db/Composed.antt =====
-- What the variables of `buildCond` come to, part by part.
use hfw.Base.{Bool, true, false, not, ◌&&◌, List, ◌∷◌, ◌++◌, ◌≡◌, refl, if◌then◌else◌}
use hfw.Base.Text.{Text}
use hfw.Base.Int.{ℤ}
use hfw.Db.{AnyValue, Cond, Call, where_}
use hfw.Db.Cond.{Key, Build, get_or, whole_where, order_calls, limit_calls}
use hfw.Db.Description.{
  listed, listed_arg, entry_clause, entry_calls, entry_order, entry_where, entry_page, entry_size,
  is_nolimit, last_of, maximum, greatest, positive, last_size, clauses, clause_args, session_calls,
  is_unlimited, ordered,
}

-- The calls of a statement, part by part.
unfoldable pub compose : List Call → Text → List Text → List AnyValue → Text → List Call → List Call
unfolding whole_where order_calls
compose sess w str args orderby limits =
    sess ++ (where_ (whole_where w str) args ∷ order_calls orderby ++ limits)

-- What the variables `b` and the rest of the condition come to.
abbrev pub described_from : Bool → Build → Cond → List Call
described_from is_order b cond =
    compose (b.sess ++ session_calls cond) (last_of entry_where b.where_text cond)
      (b.str ++ clauses cond) (b.args ++ clause_args cond) (ordered is_order b.orderby cond)
      (limit_calls (b.is_paging && not (is_unlimited cond)) (greatest b.page cond)
        (last_size b.page_size cond))

-- The same where the next entry is known by its key.
abbrev pub described_head : Bool → Key → Text → AnyValue → Build → Cond → List Call
described_head is_order key k v b cond =
    compose (b.sess ++ (entry_calls key k v ++ session_calls cond))
      (last_of entry_where (get_or (entry_where key v) b.where_text) cond)
      (b.str ++ (listed (entry_clause key k) ++ clauses cond))
      (b.args ++ (listed_arg (entry_clause key k) v ++ clause_args cond))
      (if is_order
        then last_of entry_order (get_or (entry_order key v) b.orderby) cond
        else b.orderby)
      (limit_calls (b.is_paging && not (if is_nolimit key then true else is_unlimited cond))
        (greatest (maximum (entry_page key v) b.page) cond)
        (last_size (positive (entry_size key v) b.page_size) cond))

pub and_true : (p : Bool) → p && true ≡ p
and_true true = refl
and_true false = refl

pub if_same : (b : Bool) (x : Text) → (if b then x else x) ≡ x
if_same true x = refl
if_same false x = refl

pub and_false : (p : Bool) → p && false ≡ false
and_false true = refl
and_false false = refl

pub ordered_step :
    (is_order : Bool) (x d : Text) (cond : Cond)
    → ordered is_order (if is_order then x else d) cond
      ≡ (if is_order then last_of entry_order x cond else d)
unfolding ordered
ordered_step true x d cond = refl
ordered_step false x d cond = refl

pub page_step :
    (p q : Bool) (x y s : ℤ) (cond : Cond)
    → limit_calls (p && q) (greatest (if p then x else y) cond) s
      ≡ limit_calls (p && q) (greatest x cond) s
unfolding limit_calls
page_step true q x y s cond = refl
page_step false q x y s cond = refl

pub size_step :
    (p q : Bool) (x y n : ℤ) (cond : Cond)
    → limit_calls (p && q) n (last_size (if p then x else y) cond)
      ≡ limit_calls (p && q) n (last_size x cond)
unfolding limit_calls
size_step true q x y n cond = refl
size_step false q x y n cond = refl

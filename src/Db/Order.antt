-- ===== src/Db/Order.antt =====
-- What `buildCond` of db/xorm_dao.go makes of a condition does not hang on the order in which `range` goes
-- through the map.
use hfw.Base.{
  Bool, true, not, ◌&&◌, ◌≤◌, List, [], ◌∷◌, ◌++◌, Option, none, some, ◌≡◌, refl, ap, sym, ◌∙◌, map,
  arith, if◌then◌else◌,
}
use hfw.Base.Text.{Text}
use hfw.Base.Int.{ℤ, pos, negsuc}
use hfw.Base.Perms.{flat, flat-perm, tally, All-perm, any-perm, fold_over-perm, fold_over-perm_once}
use mathlib.Core.List.{Permᴰ}
use hfw.Db.{AnyValue, Cond, Model, Call, where_, table, max}
use hfw.Db.Cond.{
  Key, get_or, whole_where, order_calls, limit_calls, default_page_size, first_order, build_cond,
}
use hfw.Db.Description.{
  listed, listed_arg, entry_clause, entry_order, entry_where, entry_size, last_of, maximum,
  greatest, positive, last_size, clauses, clause_args, session_calls, is_unlimited, AllGood,
  ordered, described, low, case_of,
}
use hfw.Db.Rounds.{build_cond-described}

-- A map of Go has each key once; this says that it has no key in two spellings, where the last one wins.
abbrev pub Once : (Key → AnyValue → Option Text) → Cond → Type 0
Once f cond = tally (λ e. f (case_of e) e.1) cond ≤ 1

abbrev pub OneSpelling : Cond → Type 0
OneSpelling cond =
    Once entry_order cond
    × Once entry_where cond
    × (tally (λ e. entry_size (case_of e) e.1) cond ≤ 1)

-- The conditions of the statement's text, each with its argument.
abbrev pub pair_of : Option Text → AnyValue → List (Text × AnyValue)
pair_of none v = []
pair_of (some s) v = (s, v) ∷ []

unfoldable pub pairs : Cond → List (Text × AnyValue)
pairs cond = flat (λ e. pair_of (entry_clause (case_of e) (low e)) e.1) cond

map-pair_of :
    (o : Option Text) (v : AnyValue) (l : List (Text × AnyValue))
    → (map (λ p. p.0) (pair_of o v ++ l) ≡ listed o ++ map (λ p. p.0) l)
      × (map (λ p. p.1) (pair_of o v ++ l) ≡ listed_arg o v ++ map (λ p. p.1) l)
map-pair_of none v l = (refl, refl)
map-pair_of (some s) v l = (refl, refl)

clauses-pairs : (cond : Cond) → clauses cond ≡ map (λ p. p.0) (pairs cond)
unfolding clauses pairs
clauses-pairs [] = refl
clauses-pairs (e ∷ cond) =
    ap (λ l. listed (entry_clause (case_of e) (low e)) ++ l) (clauses-pairs cond)
    ∙ sym (map-pair_of (entry_clause (case_of e) (low e)) e.1 (pairs cond)).0

clause_args-pairs : (cond : Cond) → clause_args cond ≡ map (λ p. p.1) (pairs cond)
unfolding clause_args pairs
clause_args-pairs [] = refl
clause_args-pairs (e ∷ cond) =
    ap (λ l. listed_arg (entry_clause (case_of e) (low e)) e.1 ++ l) (clause_args-pairs cond)
    ∙ sym (map-pair_of (entry_clause (case_of e) (low e)) e.1 (pairs cond)).1

-- The calls of a statement.
unfoldable pub assemble :
    Model → List Call → Text → List (Text × AnyValue) → Text → List Call → List Call
unfolding whole_where order_calls
assemble t sess w cs orderby limits =
    table t ∷ sess
    ++ (where_ (whole_where w (map (λ p. p.0) cs)) (map (λ p. p.1) cs) ∷ order_calls orderby
        ++ limits)

max_commute : (a b d : ℤ) → max b (max a d) ≡ max a (max b d)
unfolding max
max_commute (pos a) (pos b) (pos d) = ground arith
max_commute (pos a) (pos b) (negsuc d) = ground arith
max_commute (pos a) (negsuc b) (pos d) = ground arith
max_commute (pos a) (negsuc b) (negsuc d) = ground arith
max_commute (negsuc a) (pos b) (pos d) = ground arith
max_commute (negsuc a) (pos b) (negsuc d) = ground arith
max_commute (negsuc a) (negsuc b) (pos d) = ground arith
max_commute (negsuc a) (negsuc b) (negsuc d) = ground arith

maximum_commute : (a b : Option ℤ) (d : ℤ) → maximum b (maximum a d) ≡ maximum a (maximum b d)
maximum_commute none b d = refl
maximum_commute (some x) none d = refl
maximum_commute (some x) (some y) d = max_commute x y d

module _ (t : Model) (is_order is_paging : Bool) where
  -- The order by clause and the limit, which do not hang on the order of the entries.
  abbrev order_of : Cond → Text
  order_of cond = ordered is_order (first_order is_order t) cond

  abbrev limits_of : Cond → List Call
  limits_of cond =
      limit_calls (is_paging && not (is_unlimited cond)) (greatest (pos 1) cond)
        (last_size default_page_size cond)

  build_cond-assemble :
      (cond : Cond)
      → AllGood cond
      → build_cond t cond is_order is_paging ≡ (
        assemble t
            (session_calls cond)
            (last_of entry_where [] cond)
            (pairs cond)
            (order_of cond)
            (limits_of cond),
        true,
      )
  unfolding described assemble
  build_cond-assemble cond good =
      build_cond-described t cond is_order is_paging good
      ∙ cc (clauses-pairs cond, clause_args-pairs cond)

  order_of-perm :
      {cond cond' : Cond}
      → Permᴰ cond cond'
      → Once entry_order cond
      → order_of cond ≡ order_of cond'
  unfolding ordered last_of get_or
  order_of-perm p h =
      ap (λ x. if is_order then x else first_order is_order t)
        (fold_over-perm_once get_or _ (λ d. refl) p h (first_order is_order t))

  last_where-perm :
      {cond cond' : Cond}
      → Permᴰ cond cond'
      → Once entry_where cond
      → last_of entry_where [] cond ≡ last_of entry_where [] cond'
  unfolding last_of get_or
  last_where-perm p h = fold_over-perm_once get_or _ (λ d. refl) p h []

  limits_of-perm :
      {cond cond' : Cond}
      → Permᴰ cond cond'
      → tally (λ e. entry_size (case_of e) e.1) cond ≤ 1
      → limits_of cond ≡ limits_of cond'
  unfolding is_unlimited greatest last_size
  limits_of-perm {cond} {cond'} p h =
      let e : is_unlimited cond ≡ is_unlimited cond' = any-perm _ p in
      let f : greatest (pos 1) cond ≡ greatest (pos 1) cond' =
        fold_over-perm maximum _ maximum_commute p (pos 1) in
      let g : last_size default_page_size cond ≡ last_size default_page_size cond' =
        fold_over-perm_once positive _ (λ d. refl) p h default_page_size in
      cc (e, f, g)

-- Two enumerations of one condition, whose keys are all of the switch or of one or two words, and in
-- which none of orderby, where and pagesize stands in two spellings, make the same statement but for the
-- order of its parts: the calls on the session in front of Where are permuted, and so are the
-- conditions in Where, each with its argument; the where text, the order by clause and the limit are equal.
pub build_cond-perm :
    (t : Model) (cond cond' : Cond) (is_order is_paging : Bool)
    → Permᴰ cond cond'
    → AllGood cond
    → OneSpelling cond
    → (sess sess' : List Call) × (w : Text) × (cs cs' : List (Text × AnyValue)) × (orderby : Text)
      × (limits : List Call) × (build_cond t cond is_order is_paging
          ≡ (assemble t sess w cs orderby limits, true))
      × (build_cond t cond' is_order is_paging ≡ (assemble t sess' w cs' orderby limits, true))
      × Permᴰ sess sess'
      × Permᴰ cs cs'
build_cond-perm t cond cond' is_order is_paging p good (h, k, l) =
    let other_order =
      build_cond-assemble t is_order is_paging cond' (All-perm _ p good)
      ∙ cc (
        last_where-perm t is_order is_paging p k,
        order_of-perm t is_order is_paging p h,
        limits_of-perm t is_order is_paging p l,
      ) in
    (
      session_calls cond,
      session_calls cond',
      last_of entry_where [] cond,
      pairs cond,
      pairs cond',
      order_of t is_order is_paging cond,
      limits_of t is_order is_paging cond,
      build_cond-assemble t is_order is_paging cond good,
      other_order,
      unfold session_calls in flat-perm _ p,
      unfold pairs in flat-perm _ p,
    )

-- ===== src/Db/Paging.antt =====
-- The page that a search of db/xorm_dao.go asks for.
use hfw.Base.{
  ℕ, zero, suc, ◌+◌, ◌-◌, ◌*◌, ◌/◌, ◌^◌, ◌<◌, ◌≤◌, Bool, true, false, not, ◌&&◌, List, [], ◌∷◌,
  ◌++◌, Option, none, some, ◌≡◌, ◌↔◌, refl, sym, append_assoc, ap, ◌∙◌, arith,
}
use hfw.Base.Int.{ℤ, pos, negsuc, pos_part, neg_part, ◌-ℤ◌, ◌*ℤ◌, wrap64_small}
use native.Mathlib.Nat.{le-div_iff_mul-le, div-lt_iff_lt-mul}
use hfw.Base.Perms.{fold_over-keeps}
use hfw.Db.{Cond, Model, Call, where_, table, max, limit}
use hfw.Db.Cond.{
  positive_or, whole_where, order_calls, limit_call, limit_calls, default_page_size, first_order,
  build_cond,
}
use hfw.Db.Description.{
  entry_where, last_of, clauses, clause_args, session_calls, ordered, maximum, greatest, positive,
  last_size, is_unlimited, AllGood, described,
}
use hfw.Db.Rounds.{build_cond-described}

abbrev IsPositive : ℤ → Type 0
IsPositive z = neg_part z < pos_part z

max-IsPositive : (n d : ℤ) → IsPositive d → IsPositive (max n d)
unfolding max
max-IsPositive (pos n) (pos d) h = ground arith
max-IsPositive (negsuc n) (pos d) h = ground arith
max-IsPositive (pos n) (negsuc d) h = ground arith
max-IsPositive (negsuc n) (negsuc d) h = ground arith

maximum-IsPositive : (o : Option ℤ) (d : ℤ) → IsPositive d → IsPositive (maximum o d)
maximum-IsPositive none d h = h
maximum-IsPositive (some n) d h = max-IsPositive n d h

positive-IsPositive : (o : Option ℤ) (d : ℤ) → IsPositive d → IsPositive (positive o d)
unfolding positive_or
positive-IsPositive none d h = h
positive-IsPositive (some (pos n)) d h = ground arith
positive-IsPositive (some (negsuc n)) d h = ground arith

greatest-IsPositive : (cond : Cond) → IsPositive (greatest (pos 1) cond)
unfolding greatest
greatest-IsPositive cond =
    fold_over-keeps maximum _ IsPositive maximum-IsPositive (pos 1) cond (omega arith)

last_size-IsPositive : (cond : Cond) → IsPositive (last_size default_page_size cond)
unfolding last_size
last_size-IsPositive cond =
    fold_over-keeps positive _ IsPositive positive-IsPositive default_page_size cond (omega arith)

pos_part-IsPositive : (z : ℤ) → IsPositive z → pos (pos_part z) ≡ z
pos_part-IsPositive (pos n) h = refl
pos_part-IsPositive (negsuc n) h = absurd (omega arith)

minus_one : (p : ℕ) → 0 < p → pos p -ℤ pos 1 ≡ pos (p - 1)
unfolding ◌-ℤ◌
minus_one p h = ground arith

times : (a b : ℕ) → pos a *ℤ pos b ≡ pos (a * b)
unfolding ◌*ℤ◌
times a b = ground arith

-- The offset of a page, where the product fits an int.
limit_call-fits :
    (page size : ℤ)
    → IsPositive page
    → IsPositive size
    → (pos_part page - 1) * pos_part size < 2 ^ 63
    → limit_call page size ≡ limit (pos (pos_part size)) (pos ((pos_part page - 1) * pos_part size))
unfolding limit_call
limit_call-fits (pos p) (pos zero) h k fits = absurd (omega arith)
limit_call-fits (pos p) (pos (suc s)) h k fits =
    let below : p - 1 < 2 ^ 63 = omega arith in
    rw (
      minus_one p h,
      wrap64_small (p - 1) below,
      times (p - 1) (suc s),
      wrap64_small ((p - 1) * suc s) fits,
    )
limit_call-fits (pos p) (negsuc s) h k fits = absurd (omega arith)
limit_call-fits (negsuc p) s h k fits = absurd (omega arith)

-- The rows behind an offset of `q` pages that fill one page.
window : (s q i : ℕ) → 0 < s → ((q * s ≤ i) × (i < (q + 1) * s)) ↔ (i / s ≡ q)
window s q i h = (
  λ k. omega (
    arith,
    (le-div_iff_mul-le {k = s} {x = q} {y = i} h).1 k.0,
    (div-lt_iff_lt-mul {k = s} {x = i} {y = q + 1} h).1 k.1,
  ),
  λ e. (
    (le-div_iff_mul-le {k = s} {x = q} {y = i} h).0 (omega arith),
    (div-lt_iff_lt-mul {k = s} {x = i} {y = q + 1} h).0 (omega arith),
  ),
)

page_window :
    (p s : ℕ)
    → 1 ≤ p
    → 1 ≤ s
    → (i : ℕ) → (((p - 1) * s ≤ i) × (i < (p - 1) * s + s)) ↔ (p ≡ i / s + 1)
page_window p s h k i =
    let (to, from) = window s (p - 1) i k in
    (
      λ w. omega (arith, to (w.0, omega arith)),
      λ e. let w = from (omega arith) in (w.0, omega (arith, w.1)),
    )

-- Where a search is paged, the last call is the limit. Its page p is the greatest of 1 and the pages of the
-- condition, its size the last pagesize of the condition that is positive, or the default one; and the row
-- i, from 0 on, is one of those asked for exactly where p is i / size + 1. The keys are all of the switch or
-- of one or two words, none is nolimit, and the offset fits an int.
pub build_cond-pages :
    (t : Model) (cond : Cond) (is_order : Bool)
    → AllGood cond
    → is_unlimited cond ≡ false
    → (pos_part (greatest (pos 1) cond) - 1) * pos_part (last_size default_page_size cond) < 2 ^ 63
    → (calls : List Call) × (p size : ℕ) × (build_cond t cond is_order true
        ≡ (calls ++ (limit (pos size) (pos ((p - 1) * size)) ∷ []), true))
      × (pos p ≡ greatest (pos 1) cond)
      × (pos size ≡ last_size default_page_size cond)
      × (1 ≤ p)
      × (1 ≤ size)
      × ((i : ℕ) → (((p - 1) * size ≤ i) × (i < (p - 1) * size + size)) ↔ (p ≡ i / size + 1))
unfolding described limit_calls
build_cond-pages t cond is_order good paged fits =
    let p = pos_part (greatest (pos 1) cond) in
    let size = pos_part (last_size default_page_size cond) in
    let one_page : 1 ≤ p = omega (arith, greatest-IsPositive cond) in
    let one_row : 1 ≤ size = omega (arith, last_size-IsPositive cond) in
    let limits : limit_calls (true && not (is_unlimited cond)) (greatest (pos 1) cond)
          (last_size default_page_size cond)
        ≡ limit (pos size) (pos ((p - 1) * size)) ∷ [] =
      rw paged (
        ap (λ c. c ∷ [])
          (limit_call-fits (greatest (pos 1) cond) (last_size default_page_size cond)
            (greatest-IsPositive cond) (last_size-IsPositive cond) fits)) in
    let before =
      where_ (whole_where (last_of entry_where [] cond) (clauses cond)) (clause_args cond)
      ∷ order_calls (ordered is_order (first_order is_order t) cond) in
    (
      table t ∷ session_calls cond ++ before,
      p,
      size,
      build_cond-described t cond is_order true good
          ∙ ap (λ l. (table t ∷ session_calls cond ++ (before ++ l), true)) limits
          ∙ ap (λ l. (table t ∷ l, true))
              (sym (
                append_assoc (session_calls cond) before
                  (limit (pos size) (pos ((p - 1) * size)) ∷ []))),
      pos_part-IsPositive (greatest (pos 1) cond) (greatest-IsPositive cond),
      pos_part-IsPositive (last_size default_page_size cond) (last_size-IsPositive cond),
      one_page,
      one_row,
      page_window p size one_page one_row,
    )

-- ===== src/Db/Rounds.antt =====
-- The loop of `buildCond` does what the description says.
use hfw.Base.{
  Bool, true, false, not, ◌&&◌, List, [], ◌∷◌, ◌++◌, Option, none, some, ◌≡◌, ap, ◌∙◌, sym,
  if◌then◌else◌, append_assoc, append-nil,
}
use hfw.Base.Text.{Text, codes, text_eq, to_lower}
use hfw.Db.{
  AnyValue, Cond, Model, Call, group_by, having, sql, select, distinct, for_update, cols, must_cols,
  omit, all_cols, is_in, not_in, int_of, max, fields, trim_space,
}
use hfw.Db.Cond.{
  Key, key_nolimit, key_orderby, key_groupby, key_having, key_page, key_pagesize, key_where,
  key_sql, key_select, key_distinct, key_forupdate, key_cols, key_mustcols, key_omit, key_allcols,
  column, case_for, Build, string_of, get_or, if_text, if_texts, positive_or, issue, clause, Round,
  going, column_round, round, next_round, rounds, finish_cond, limit_calls, last_calls, first_build,
  build_cond,
}
use hfw.Db.Description.{
  column_clause, column_calls, one_or_two, listed, listed_arg, entry_clause, entry_calls,
  entry_order, entry_where, entry_page, entry_size, is_nolimit, is_good, last_of, greatest,
  last_size, clauses, clause_args, session_calls, is_unlimited, AllGood, ordered, described,
}
use hfw.Db.Composed.{
  compose, described_from, described_head, and_true, if_same, and_false, ordered_step, page_step,
  size_step,
}

abbrev two_word_clause : Bool → Bool → Bool → Text → Text → Option Text
two_word_clause is_in_op is_notin_op is_like_op a k =
    if is_in_op
    then none
    else if is_notin_op
    then none
    else if is_like_op
    then some (codes "`" ++ (a ++ codes "` like ?"))
    else some (k ++ codes " ?")

module _ (is_order : Bool) (v : AnyValue) (b : Build) (cond : Cond) where
  abbrev composed : List Call → List Text → List AnyValue → Text → List Call → List Call × Bool
  composed sess str args orderby limits =
      (compose sess (last_of entry_where b.where_text cond) str args orderby limits, true)

  -- The same with the variables as they are, but for the limit.
  abbrev kept : List Call → List Call × Bool
  kept limits =
      composed (b.sess ++ session_calls cond) (b.str ++ clauses cond) (b.args ++ clause_args cond)
        (ordered is_order b.orderby cond) limits

  abbrev limits : List Call
  limits =
      limit_calls (b.is_paging && not (is_unlimited cond)) (greatest b.page cond)
        (last_size b.page_size cond)

  abbrev Follows : Round → List Call × Bool → Type 0
  Follows r result = finish_cond (next_round r (rounds is_order cond)) ≡ result

  abbrev Described : Type 0
  Described =
      (b' : Build) → finish_cond (rounds is_order cond b') ≡ (described_from is_order b' cond, true)

  issue_step :
      (calls : List Call)
      → Described
      → Follows (going (issue b calls)) (
          composed
            (b.sess ++ (calls ++ session_calls cond))
            (b.str ++ clauses cond)
            (b.args ++ clause_args cond)
            (ordered is_order b.orderby cond)
            limits)
  unfolding issue
  issue_step calls ih = ih (issue b calls) ∙ simp append_assoc

  clause_step :
      (s : Text)
      → Described
      → Follows (going (clause b s v)) (
          composed
            (b.sess ++ session_calls cond)
            (b.str ++ (s ∷ clauses cond))
            (b.args ++ (v ∷ clause_args cond))
            (ordered is_order b.orderby cond)
            limits)
  unfolding clause
  clause_step s ih = ih (clause b s v) ∙ simp append_assoc

  two_words :
      (is_in_op is_notin_op is_like_op : Bool) (a k : Text)
      → Described
      → Follows
          (if is_in_op
            then going (issue b (is_in a v ∷ []))
            else if is_notin_op
            then going (issue b (not_in a v ∷ []))
            else if is_like_op
            then going (clause b (codes "`" ++ (a ++ codes "` like ?")) v)
            else going (clause b (k ++ codes " ?") v))
          (composed
            (b.sess
              ++ ((if is_in_op then is_in a v ∷ [] else if is_notin_op then not_in a v ∷ [] else [])
                  ++ session_calls cond))
            (b.str
              ++ (listed (two_word_clause is_in_op is_notin_op is_like_op a k) ++ clauses cond))
            (b.args
              ++ (listed_arg (two_word_clause is_in_op is_notin_op is_like_op a k) v
                  ++ clause_args cond))
            (ordered is_order b.orderby cond)
            limits)
  two_words true q r a k ih = issue_step (is_in a v ∷ []) ih
  two_words false true r a k ih = issue_step (not_in a v ∷ []) ih
  two_words false false true a k ih = clause_step (codes "`" ++ (a ++ codes "` like ?")) ih
  two_words false false false a k ih = clause_step (k ++ codes " ?") ih

  column_step :
      (words : List Text) (k : Text)
      → one_or_two words ≡ true
      → Described
      → Follows (column_round words k v b) (
          composed
            (b.sess ++ (column_calls words v ++ session_calls cond))
            (b.str ++ (listed (column_clause words k) ++ clauses cond))
            (b.args ++ (listed_arg (column_clause words k) v ++ clause_args cond))
            (ordered is_order b.orderby cond)
            limits)
  unfolding column_round column_calls column_clause
  column_step [] k good ih = cc
  column_step (a ∷ []) k good ih = clause_step (codes "`" ++ (k ++ codes "` = ?")) ih
  column_step (a ∷ op ∷ []) k good ih =
      two_words (text_eq op (codes "in")) (text_eq op (codes "notin")) (text_eq op (codes "like")) a
        k ih
  column_step (a ∷ op ∷ w ∷ ws) k good ih = cc

  -- One round, where the rest of the loop is described.
  round_step :
      (key : Key) (k : Text)
      → is_good key k ≡ true
      → Described
      → Follows (round is_order key k v b) (described_head is_order key k v b cond, true)
  unfolding round is_good entry_calls entry_where entry_clause entry_order is_nolimit entry_page
      entry_size ordered
  round_step key_nolimit k good ih =
      ih _
      ∙ ap (λ p. kept (limit_calls p (greatest b.page cond) (last_size b.page_size cond)))
          (sym (and_false b.is_paging))
  round_step key_orderby k good ih =
      ih _
      ∙ ap
          (λ o.
            composed (b.sess ++ session_calls cond) (b.str ++ clauses cond)
              (b.args ++ clause_args cond) o limits)
          (ordered_step is_order (get_or (string_of v) []) b.orderby cond)
  round_step key_groupby k good ih = issue_step (if_text group_by v) ih
  round_step key_having k good ih = issue_step (if_text having v) ih
  round_step key_page k good ih =
      ih _
      ∙ ap kept (
          page_step b.is_paging (not (is_unlimited cond)) (max (int_of v) b.page) b.page
            (last_size b.page_size cond) cond)
  round_step key_pagesize k good ih =
      ih _
      ∙ ap kept (
          size_step b.is_paging (not (is_unlimited cond)) (positive_or (int_of v) b.page_size)
            b.page_size (greatest b.page cond) cond)
  round_step key_where k good ih = ih _
  round_step key_sql k good ih = issue_step (sql v ∷ []) ih
  round_step key_select k good ih = issue_step (if_text select v) ih
  round_step key_distinct k good ih = issue_step (if_text distinct v) ih
  round_step key_forupdate k good ih = issue_step (for_update ∷ []) ih
  round_step key_cols k good ih = issue_step (if_texts cols v) ih
  round_step key_mustcols k good ih = issue_step (if_texts must_cols v) ih
  round_step key_omit k good ih = issue_step (if_texts omit v) ih
  round_step key_allcols k good ih = issue_step (all_cols ∷ []) ih
  round_step column k good ih = column_step (fields (trim_space k)) k good ih

rounds-described :
    (is_order : Bool) (cond : Cond) (b : Build)
    → AllGood cond
    → finish_cond (rounds is_order cond b) ≡ (described_from is_order b cond, true)
unfolding rounds finish_cond last_calls compose ordered last_of greatest last_size clauses
    clause_args session_calls is_unlimited
rounds-described is_order [] b _ = simp (append-nil, and_true, if_same)
rounds-described is_order ((k, v) ∷ cond) b (good, goods) =
    round_step is_order v b cond (case_for (to_lower k)) (to_lower k) good
      (λ b'. rounds-described is_order cond b' goods)

-- Where each key is one of the switch or has one or two words, no error is returned, and the calls are
-- those of the description: the key's case is ignored; each part of the statement is read off the
-- entries by itself; and a nolimit switches the limit off wherever it stands.
pub build_cond-described :
    (t : Model) (cond : Cond) (is_order is_paging : Bool)
    → AllGood cond
    → build_cond t cond is_order is_paging ≡ (described t cond is_order is_paging, true)
unfolding build_cond described compose
build_cond-described t cond is_order is_paging good =
    rounds-described is_order cond (first_build t is_order is_paging) good

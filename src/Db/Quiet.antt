-- ===== src/Db/Quiet.antt =====
-- What `buildCond` of db/xorm_dao.go calls on a session where it refuses a key.
use hfw.Base.{
  Bool, true, false, List, [], ◌∷◌, ◌++◌, Option, none, some, ◌≡◌, refl, All, All-append,
  if◌then◌else◌,
}
use hfw.Base.Text.{Text, codes, text_eq}
use hfw.Db.{
  AnyValue, text, texts, null, int, float, other, Cond, Model, Call, group_by, having, sql, select,
  distinct, for_update, cols, must_cols, omit, all_cols, is_in, not_in, fields, trim_space, update,
  insert, insert_multi, get, find, find_and_count, rows, iterate, count, exec, query, query_string,
  query_interface, delete, begin, rollback, commit,
}
use hfw.Db.Cond.{
  Key, key_nolimit, key_orderby, key_groupby, key_having, key_page, key_pagesize, key_where,
  key_sql, key_select, key_distinct, key_forupdate, key_cols, key_mustcols, key_omit, key_allcols,
  column, Build, string_of, text_calls, if_text, if_texts, issue, clause, Round, going, error_cond,
  column_round, round, next_round, rounds, finish_cond, first_build, build_cond,
}
use hfw.Db.Description.{one_or_two, is_good, case_of, low}
use hfw.Db.Log.{Log, called}

-- The calls that send something to the database.
abbrev pub is_sent : Call → Bool
is_sent (update _) = true
is_sent (insert _) = true
is_sent (insert_multi _) = true
is_sent (get _) = true
is_sent find = true
is_sent find_and_count = true
is_sent (rows _) = true
is_sent (iterate _) = true
is_sent (count _) = true
is_sent (exec _ _) = true
is_sent (query _) = true
is_sent (query_string _) = true
is_sent (query_interface _) = true
is_sent (delete _) = true
is_sent begin = true
is_sent rollback = true
is_sent commit = true
is_sent _ = false

-- What was sent, the last first.
abbrev pub sent : Log → List Call
sent [] = []
sent (called id c ∷ log) = let rest = sent log in if is_sent c then c ∷ rest else rest
sent (_ ∷ log) = sent log

abbrev pub all_good : Cond → Bool
all_good [] = true
all_good (e ∷ cond) =
    let rest = all_good cond in if is_good (case_of e) (low e) then rest else false

abbrev pub Quiet : List Call → Type 0
Quiet = All (λ c. is_sent c ≡ false)

abbrev QuietRound : Round → Type 0
QuietRound (going b) = Quiet b.sess
QuietRound (error_cond calls) = Quiet calls

abbrev is_going : Round → Bool
is_going (going b) = true
is_going (error_cond calls) = false

text_calls-Quiet :
    (f : Text → Call) (o : Option Text)
    → ((s : Text) → is_sent (f s) ≡ false)
    → Quiet (text_calls f o)
text_calls-Quiet f none h = tt
text_calls-Quiet f (some s) h = (h s, tt)

if_text-Quiet :
    (f : Text → Call) (v : AnyValue) → ((s : Text) → is_sent (f s) ≡ false) → Quiet (if_text f v)
unfolding if_text
if_text-Quiet f v h = text_calls-Quiet f (string_of v) h

if_texts-Quiet :
    (f : List Text → Call) (v : AnyValue)
    → ((s : List Text) → is_sent (f s) ≡ false)
    → Quiet (if_texts f v)
unfolding if_texts
if_texts-Quiet f null h = tt
if_texts-Quiet f (text s) h = tt
if_texts-Quiet f (texts s) h = (h s, tt)
if_texts-Quiet f (int n) h = tt
if_texts-Quiet f (float n) h = tt
if_texts-Quiet f (other s) h = tt

issue-Quiet :
    (b : Build) (calls : List Call) → Quiet b.sess → Quiet calls → Quiet (issue b calls).sess
unfolding issue
issue-Quiet b calls h k = All-append (λ c. is_sent c ≡ false) b.sess calls h k

-- A round is quiet, and it goes on exactly where its key is good.
abbrev Fine : Round → Bool → Type 0
Fine r good = QuietRound r × (is_going r ≡ good)

two_words-Fine :
    (p q r : Bool) (a k : Text) (v : AnyValue) (b : Build)
    → Quiet b.sess
    → Fine
        (if p
          then going (issue b (is_in a v ∷ []))
          else if q
          then going (issue b (not_in a v ∷ []))
          else if r
          then going (clause b (codes "`" ++ (a ++ codes "` like ?")) v)
          else going (clause b (k ++ codes " ?") v))
        true
unfolding clause
two_words-Fine true q r a k v b h = (issue-Quiet b (is_in a v ∷ []) h (refl, tt), refl)
two_words-Fine false true r a k v b h = (issue-Quiet b (not_in a v ∷ []) h (refl, tt), refl)
two_words-Fine false false true a k v b h = (h, refl)
two_words-Fine false false false a k v b h = (h, refl)

column-Fine :
    (words : List Text) (k : Text) (v : AnyValue) (b : Build)
    → Quiet b.sess
    → Fine (column_round words k v b) (one_or_two words)
unfolding column_round clause
column-Fine [] k v b h = (h, refl)
column-Fine (a ∷ []) k v b h = (h, refl)
column-Fine (a ∷ op ∷ []) k v b h =
    two_words-Fine (text_eq op (codes "in")) (text_eq op (codes "notin"))
      (text_eq op (codes "like")) a k v b h
column-Fine (a ∷ op ∷ w ∷ ws) k v b h = (h, refl)

round-Fine :
    (is_order : Bool) (key : Key) (k : Text) (v : AnyValue) (b : Build)
    → Quiet b.sess
    → Fine (round is_order key k v b) (is_good key k)
unfolding round is_good
round-Fine is_order key_nolimit k v b h = (h, refl)
round-Fine is_order key_orderby k v b h = (h, refl)
round-Fine is_order key_groupby k v b h =
    (issue-Quiet b _ h (if_text-Quiet group_by v (λ s. refl)), refl)
round-Fine is_order key_having k v b h =
    (issue-Quiet b _ h (if_text-Quiet having v (λ s. refl)), refl)
round-Fine is_order key_page k v b h = (h, refl)
round-Fine is_order key_pagesize k v b h = (h, refl)
round-Fine is_order key_where k v b h = (h, refl)
round-Fine is_order key_sql k v b h = (issue-Quiet b (sql v ∷ []) h (refl, tt), refl)
round-Fine is_order key_select k v b h =
    (issue-Quiet b _ h (if_text-Quiet select v (λ s. refl)), refl)
round-Fine is_order key_distinct k v b h =
    (issue-Quiet b _ h (if_text-Quiet distinct v (λ s. refl)), refl)
round-Fine is_order key_forupdate k v b h = (issue-Quiet b (for_update ∷ []) h (refl, tt), refl)
round-Fine is_order key_cols k v b h = (issue-Quiet b _ h (if_texts-Quiet cols v (λ s. refl)), refl)
round-Fine is_order key_mustcols k v b h =
    (issue-Quiet b _ h (if_texts-Quiet must_cols v (λ s. refl)), refl)
round-Fine is_order key_omit k v b h = (issue-Quiet b _ h (if_texts-Quiet omit v (λ s. refl)), refl)
round-Fine is_order key_allcols k v b h = (issue-Quiet b (all_cols ∷ []) h (refl, tt), refl)
round-Fine is_order column k v b h = column-Fine (fields (trim_space k)) k v b h

next_round-Fine :
    (r : Round) (good rest : Bool) (f : Build → Round)
    → Fine r good
    → ((b : Build) → Quiet b.sess → Fine (f b) rest)
    → Fine (next_round r f) (if good then rest else false)
next_round-Fine (going b) true rest f (h, e) k = k b h
next_round-Fine (going b) false rest f (h, e) k = absurd (cc e)
next_round-Fine (error_cond calls) true rest f (h, e) k = absurd (cc e)
next_round-Fine (error_cond calls) false rest f (h, e) k = (h, refl)

rounds-Fine :
    (is_order : Bool) (cond : Cond) (b : Build)
    → Quiet b.sess
    → Fine (rounds is_order cond b) (all_good cond)
unfolding rounds
rounds-Fine is_order [] b h = (h, refl)
rounds-Fine is_order (e ∷ cond) b h =
    next_round-Fine (round is_order (case_of e) (low e) e.1 b) (is_good (case_of e) (low e))
      (all_good cond) (rounds is_order cond) (round-Fine is_order (case_of e) (low e) e.1 b h)
      (rounds-Fine is_order cond)

finish_cond-Fine :
    (r : Round) (good : Bool)
    → Fine r good
    → good ≡ false
    → Quiet (finish_cond r).0 × ((finish_cond r).1 ≡ false)
unfolding finish_cond
finish_cond-Fine (going b) good (h, e) bad = absurd (cc (e, bad))
finish_cond-Fine (error_cond calls) good (h, e) bad = (h, refl)

-- A condition with a bad key is refused, after calls that send nothing.
pub build_cond-Quiet :
    (t : Model) (cond : Cond) (is_order is_paging : Bool)
    → all_good cond ≡ false
    → Quiet (build_cond t cond is_order is_paging).0
      × ((build_cond t cond is_order is_paging).1 ≡ false)
unfolding build_cond
build_cond-Quiet t cond is_order is_paging bad =
    finish_cond-Fine (rounds is_order cond (first_build t is_order is_paging)) (all_good cond)
      (rounds-Fine is_order cond (first_build t is_order is_paging) (refl, tt)) bad

-- ===== src/Db/Log.antt =====
-- The world that db/xorm_dao.go acts on: the list of what was called, the last call first; what a call
-- answers is a parameter. Of a failed statement the code only logs the text.
use hfw.Base.{ℕ, suc, Bool, List, [], ◌∷◌, ◌++◌, Option, none, some, if◌then◌else◌}
use hfw.Base.Text.{Text, codes}
use hfw.Session.{Err}
use hfw.Db.{Cond, Model, Call}
use hfw.Db.Cond.{build_cond}

-- What is called on the engine and on the sessions it opened; `id` numbers the sessions.
pub data Event : Type 0 where
  opened : ℕ → Event
  closed : ℕ → Event
  called : ℕ → Call → Event
  map_cacher : Model → Bool → Event
  clear_cache : Model → Event

abbrev pub Log : Type 0
Log = List Event

-- The fields of `XormDao` that change, and whether `cacher` is set.
pub record XormDao : Type 0 where
  pub has_cacher : Bool
  pub is_cache : Bool
  pub sess : Option ℕ

-- What xorm answers to the last call of a log: a result of any type, and an error.
pub record Xorm (R : Type 0) : Type 0 where
  pub zero_of : R
  pub answer : Log → R × Err
  pub last_insert_id : R → R × Err

-- `engine.NewSession()`: a session that no other call has answered.
abbrev pub opened_in : Log → ℕ
opened_in [] = 0
opened_in (opened id ∷ log) = suc (opened_in log)
opened_in (_ ∷ log) = opened_in log

-- Calls on one session, the first one first.
unfoldable pub call_all : ℕ → List Call → Log → Log
call_all id [] log = log
call_all id (c ∷ cs) log = call_all id cs (called id c ∷ log)

-- What an operation leaves: its result, its error, and the world.
abbrev pub Answer : Type 0 → Type 0
Answer R = R × Err × Log

abbrev pub close_at : {R : Type 0} → ℕ → Answer R → Answer R
close_at id (r, err, log) = (r, err, closed id ∷ log)

-- `sess := d.sess`, and a session of its own, closed at the end, where there is none.
unfoldable pub on_sess : {R : Type 0} → Option ℕ → (ℕ → Log → Answer R) → Log → Answer R
on_sess (some id) body log = body id log
on_sess none body log =
    close_at (opened_in log) (body (opened_in log) (opened (opened_in log) ∷ log))

module _ {R : Type 0} (xorm : Xorm R) where
  -- A call whose answer is the operation's.
  unfoldable pub run : List Call → ℕ → Log → Answer R
  unfolding call_all
  run calls id log =
      let after = call_all id calls log in ((xorm.answer after).0, (xorm.answer after).1, after)

  abbrev pub fail : Text → Log → Answer R
  fail message log = (xorm.zero_of, some message, log)

  -- The calls that follow `buildCond` where it does not fail.
  unfoldable pub after_cond : List Call × Bool → List Call → ℕ → Log → Answer R
  unfolding call_all run
  after_cond (built, ok) calls id log =
      if ok then run (built ++ calls) id log else fail (codes "error cond") (call_all id built log)

  unfoldable pub conditioned : Bool → Bool → Model → Cond → List Call → ℕ → Log → Answer R
  unfolding build_cond after_cond
  conditioned is_order is_paging t cond calls =
      after_cond (build_cond t cond is_order is_paging) calls

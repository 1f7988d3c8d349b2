-- ===== src/Db/Balance.antt =====
-- Which sessions are open: what the methods of `XormDao` open and close.
use hfw.Base.{
  ℕ, Bool, true, false, ◌||◌, List, [], ◌∷◌, ◌++◌, Option, none, some, ◌≡◌, refl, arith, ◌==◌,
  if◌then◌else◌,
}
use hfw.Db.{Model, Cond, Call}
use hfw.Db.Cond.{build_cond}
use hfw.Db.Log.{
  after_cond, Event, opened, closed, called, map_cacher, clear_cache, Log, XormDao, Xorm, opened_in,
  call_all, Answer, on_sess, run, conditioned,
}
use hfw.Db.Dao.{on_session, new_if_none, close_if_some, close}
use hfw.Db.Steps.{Steps, perform-Steps}
use hfw.Db.Ops.{Op, perform, perform_all}

abbrev is_among : ℕ → List ℕ → Bool
is_among i [] = false
is_among i (j ∷ is) = (i == j) || is_among i is

abbrev without : ℕ → List ℕ → List ℕ
without i [] = []
without i (j ∷ is) = let rest = without i is in if i == j then rest else j ∷ rest

-- The open sessions after an event; `none` where a session that is not open is called or closed.
abbrev after_event : Event → List ℕ → Option (List ℕ)
after_event (opened i) is = some (i ∷ is)
after_event (closed i) is = if is_among i is then some (without i is) else none
after_event (called i c) is = if is_among i is then some is else none
after_event (map_cacher _ _) is = some is
after_event (clear_cache _) is = some is

abbrev after_open : Event → Option (List ℕ) → Option (List ℕ)
after_open e none = none
after_open e (some is) = after_event e is

unfoldable pub open_sessions : Log → Option (List ℕ)
open_sessions [] = some []
open_sessions (e ∷ log) = after_open e (open_sessions log)

abbrev pub own : Option ℕ → List ℕ
own none = []
own (some i) = i ∷ []

-- The session of the object, and no other, is open, and no call was made on a closed one.
abbrev pub IsBalanced : XormDao → Log → Type 0
IsBalanced d log = open_sessions log ≡ some (own d.sess)

-- What a body does on an open session: it leaves it open.
abbrev pub Keeps : {R : Type 0} → (ℕ → Log → Answer R) → Type 0
Keeps body =
    (id : ℕ) (log : Log) (is : List ℕ)
    → open_sessions log ≡ some is
    → is_among id is ≡ true
    → open_sessions (body id log).2 ≡ some is

call_all-open :
    (id : ℕ) (cs : List Call) (log : Log) (is : List ℕ)
    → open_sessions log ≡ some is
    → is_among id is ≡ true
    → open_sessions (call_all id cs log) ≡ some is
unfolding call_all open_sessions
call_all-open id [] log is h k = h
call_all-open id (c ∷ cs) log is h k = call_all-open id cs (called id c ∷ log) is (rw (h, k)) k

eq_self : (i : ℕ) → (i == i) ≡ true
eq_self i = ground arith

module _ {R : Type 0} (xorm : Xorm R) where
  run-Keeps : (calls : List Call) → Keeps (run xorm calls)
  unfolding run
  run-Keeps calls id log is h k = call_all-open id calls log is h k

  either_open :
      (b : Bool) (x y : Answer R) (o : Option (List ℕ))
      → open_sessions x.2 ≡ o
      → open_sessions y.2 ≡ o
      → open_sessions (if b then x else y).2 ≡ o
  either_open true x y o h k = h
  either_open false x y o h k = k

  conditioned-Keeps :
      (is_order is_paging : Bool) (t : Model) (cond : Cond) (calls : List Call)
      → Keeps (conditioned xorm is_order is_paging t cond calls)
  unfolding conditioned after_cond
  conditioned-Keeps is_order is_paging t cond calls id log is h k =
      let built = build_cond t cond is_order is_paging in
      either_open built.1 _ _ (some is) (run-Keeps (built.0 ++ calls) id log is h k)
        (call_all-open id built.0 log is h k)

  on_sess-IsBalanced :
      (o : Option ℕ) (body : ℕ → Log → Answer R) (log : Log)
      → Keeps body
      → open_sessions log ≡ some (own o)
      → open_sessions (on_sess o body log).2 ≡ some (own o)
  unfolding on_sess open_sessions
  on_sess-IsBalanced (some i) body log keeps h = keeps i log (i ∷ []) h (rw (eq_self i) refl)
  on_sess-IsBalanced none body log keeps h =
      let i = opened_in log in
      let start : open_sessions (opened i ∷ log) ≡ some (i ∷ []) = rw h refl in
      let inside : open_sessions (body i (opened i ∷ log)).2 ≡ some (i ∷ []) =
        keeps i (opened i ∷ log) (i ∷ []) start (rw (eq_self i) refl) in
      rw (inside, eq_self i) refl

  on_session-open :
      (call : Call) (o : Option ℕ) (log : Log)
      → open_sessions log ≡ some (own o)
      → open_sessions (on_session xorm call o log).2 ≡ some (own o)
  on_session-open call none log h = h
  on_session-open call (some i) log h = run-Keeps (call ∷ []) i log (i ∷ []) h (rw (eq_self i) refl)

  new_if_none-open :
      (o : Option ℕ) (log : Log)
      → open_sessions log ≡ some (own o)
      → open_sessions (new_if_none o log).1 ≡ some (own (new_if_none o log).0)
  unfolding open_sessions
  new_if_none-open (some i) log h = h
  new_if_none-open none log h = rw h refl

  close_if_some-open :
      (o : Option ℕ) (log : Log)
      → open_sessions log ≡ some (own o)
      → open_sessions (close_if_some o log) ≡ some []
  unfolding open_sessions
  close_if_some-open (some i) log h = rw (h, eq_self i) refl
  close_if_some-open none log h = h

  abbrev Balanced : XormDao → Log → XormDao → Log → Type 0
  Balanced d log d' log' = IsBalanced d log → IsBalanced d' log'

  Balanced-steps : Steps xorm Balanced
  unfolding open_sessions
  Balanced-steps = record {
    same = λ d log h. h;
    ran = λ calls d log h. on_sess-IsBalanced d.sess _ log (run-Keeps calls) h;
    searched = λ is_order is_paging t cond calls d log h.
        on_sess-IsBalanced d.sess _ log (conditioned-Keeps is_order is_paging t cond calls) h;
    on_own = λ call d log h. on_session-open call d.sess log h;
    mapped = λ is_cache b t d log h. rw h refl;
    renewed = λ d log h. new_if_none-open d.sess log h;
    cleared = λ t d log h. rw h refl;
  }

  -- Any one call of a method keeps the balance.
  perform-IsBalanced :
      (op : Op) (d : XormDao) (log : Log)
      → IsBalanced d log
      → IsBalanced (perform xorm op d log).0 (perform xorm op d log).1.2
  unfolding close
  perform-IsBalanced op d log h =
      perform-Steps xorm Balanced-steps op d log (λ _ _. close_if_some-open d.sess log h) h

  -- After any calls of the methods, from where the session of the object and no other is open: it is so
  -- again, and no call was made on a closed session.
  pub perform_all-IsBalanced :
      (ops : List Op) (d : XormDao) (log : Log)
      → IsBalanced d log
      → IsBalanced (perform_all xorm ops d log).0 (perform_all xorm ops d log).1
  unfolding perform_all
  perform_all-IsBalanced [] d log h = h
  perform_all-IsBalanced (op ∷ ops) d log h =
      perform_all-IsBalanced ops (perform xorm op d log).0 (perform xorm op d log).1.2
        (perform-IsBalanced op d log h)

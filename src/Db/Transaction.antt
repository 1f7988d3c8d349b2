-- ===== src/Db/Transaction.antt =====
-- What the methods of `XormDao` do between its `NewSession` and its `Close`.
use hfw.Base.{
  ℕ, Bool, true, false, List, [], ◌∷◌, ◌++◌, Option, some, ◌≡◌, ◌≢◌, refl, sym, ap, ◌∙◌, All,
  All-append, append_assoc, if◌then◌else◌,
}
use hfw.Db.{Call, Model, Cond}
use hfw.Db.Cond.{build_cond}
use hfw.Db.Log.{
  after_cond, Event, opened, closed, called, map_cacher, clear_cache, Log, XormDao, Xorm, call_all,
  Answer, on_sess, run, conditioned,
}
use hfw.Db.Dao.{on_session, new_if_none}
use hfw.Db.Steps.{Steps, perform-Steps}
use hfw.Db.Ops.{Op, perform, perform_all, op_close}

-- A call on the session `id`, or on no session.
abbrev pub IsOn : ℕ → Event → Type 0
IsOn id (opened i) = ⊥
IsOn id (closed i) = ⊥
IsOn id (called i c) = i ≡ id
IsOn id (map_cacher t b) = Unit
IsOn id (clear_cache t) = Unit

-- All that was done since is done on the session `id`.
abbrev pub Continues : ℕ → Log → Log → Type 0
Continues id log log' = (new : Log) × (log' ≡ new ++ log) × All (IsOn id) new

Continues-refl : (id : ℕ) (log : Log) → Continues id log log
Continues-refl id log = ([], refl, tt)

Continues-trans : (id : ℕ) (a b c : Log) → Continues id a b → Continues id b c → Continues id a c
Continues-trans id a b c (new, e, h) (newer, f, k) = (
  newer ++ new,
  f ∙ ap (λ l. newer ++ l) e ∙ sym (append_assoc newer new a),
  All-append (IsOn id) newer new k h,
)

call_all-Continues : (id : ℕ) (cs : List Call) (log : Log) → Continues id log (call_all id cs log)
unfolding call_all
call_all-Continues id [] log = Continues-refl id log
call_all-Continues id (c ∷ cs) log =
    Continues-trans id log (called id c ∷ log) (call_all id cs (called id c ∷ log))
      (called id c ∷ [], refl, (refl, tt)) (call_all-Continues id cs (called id c ∷ log))

module _ {R : Type 0} (xorm : Xorm R) where
  either_Continues :
      (id : ℕ) (b : Bool) (log : Log) (x y : Answer R)
      → Continues id log x.2
      → Continues id log y.2
      → Continues id log (if b then x else y).2
  either_Continues id true log x y h k = h
  either_Continues id false log x y h k = k

  conditioned-Continues :
      (is_order is_paging : Bool) (t : Model) (cond : Cond) (calls : List Call) (id : ℕ) (log : Log)
      → Continues id log (conditioned xorm is_order is_paging t cond calls id log).2
  unfolding conditioned after_cond run
  conditioned-Continues is_order is_paging t cond calls id log =
      let built = build_cond t cond is_order is_paging in
      either_Continues id built.1 log _ _ (call_all-Continues id (built.0 ++ calls) log)
        (call_all-Continues id built.0 log)

  on_sess-Continues :
      (id : ℕ) (o : Option ℕ) (body : ℕ → Log → Answer R) (log : Log)
      → Continues id log (body id log).2
      → o ≡ some id
      → Continues id log (on_sess o body log).2
  unfolding on_sess
  on_sess-Continues id o body log h e = rw e h

  on_session-Continues :
      (id : ℕ) (call : Call) (o : Option ℕ) (log : Log)
      → o ≡ some id
      → Continues id log (on_session xorm call o log).2
  unfolding run
  on_session-Continues id call o log e = rw e (call_all-Continues id (call ∷ []) log)

  new_if_none-Continues :
      (id : ℕ) (o : Option ℕ) (log : Log)
      → o ≡ some id
      → ((new_if_none o log).0 ≡ some id) × Continues id log (new_if_none o log).1
  new_if_none-Continues id o log e = rw e (refl, Continues-refl id log)

  abbrev Inside : ℕ → XormDao → Log → XormDao → Log → Type 0
  Inside id d log d' log' = d.sess ≡ some id → (d'.sess ≡ some id) × Continues id log log'

  Inside-steps : (id : ℕ) → Steps xorm (Inside id)
  unfolding run
  Inside-steps id = record {
    same = λ d log h. (h, Continues-refl id log);
    ran =
        λ calls d log h. (h, on_sess-Continues id d.sess _ log (call_all-Continues id calls log) h);
    searched = λ is_order is_paging t cond calls d log h. (
      h,
      on_sess-Continues id d.sess _ log
          (conditioned-Continues is_order is_paging t cond calls id log) h,
    );
    on_own = λ call d log h. (h, on_session-Continues id call d.sess log h);
    mapped = λ is_cache b t d log h. (h, (map_cacher t b ∷ [], refl, (tt, tt)));
    renewed = λ d log h. new_if_none-Continues id d.sess log h;
    cleared = λ t d log h. (h, (clear_cache t ∷ [], refl, (tt, tt)));
  }

  -- Where the object has the session `id`, any calls of the methods but Close leave it that session, and
  -- all that they call on a session is called on that one: they open and close none.
  pub perform_all-Continues :
      (id : ℕ) (ops : List Op) (d : XormDao) (log : Log)
      → All (λ op. op ≢ op_close) ops
      → d.sess ≡ some id
      → ((perform_all xorm ops d log).0.sess ≡ some id)
        × Continues id log (perform_all xorm ops d log).1
  unfolding perform_all
  perform_all-Continues id [] d log _ h = (h, Continues-refl id log)
  perform_all-Continues id (op ∷ ops) d log (k, ks) h =
      let (h', c) = perform-Steps xorm (Inside-steps id) op d log (λ e. absurd (k e)) h in
      let (h'', c') =
        perform_all-Continues id ops (perform xorm op d log).0 (perform xorm op d log).1.2 ks h' in
      (h'', Continues-trans id log (perform xorm op d log).1.2 _ c c')

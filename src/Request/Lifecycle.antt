-- ===== src/Request/Lifecycle.antt =====
-- In which order the methods of a controller are called, and what panics do to it.
use hfw.Base.{◌≡◌, refl, ◌⊎◌, inl, inr}
use hfw.Base.Text.{Text}
use hfw.Context.{Outcome, returned, panicked, Panic, stop_run, failure, defer, behind, final}
use hfw.Request.{App, recover_panic, guarded, serve}

module _ {P : Type 0} (app : App P) (name : Text) (p p1 : P)
    (begun : app.init p ≡ returned p1) where
  final-defer : (d : P → Outcome P) (m : Outcome P) → final (defer d m) ≡ final (d (final m))
  final-defer d (returned q) = refl
  final-defer d (panicked e q) = final-behind e (d q)
    where
      final-behind : (e : Panic) (m : Outcome P) → final (behind e m) ≡ final m
      final-behind e (returned q) = refl
      final-behind e (panicked e' q) = refl

  serve_begun : serve app name p ≡ defer app.finish (recover_panic app (guarded app name p1))
  unfolding serve
  serve_begun = rw begun

  -- Once Init has returned, Finish is called, on whatever the other methods have left, however they
  -- ended: what is left after the request is what Finish leaves.
  finish_always :
      final (serve app name p)
      ≡ final (app.finish (final (recover_panic app (guarded app name p1))))
  finish_always = rw serve_begun (final-defer app.finish _)

  module _ (p2 p3 p4 : P) (ready : app.before p1 ≡ returned p2) where
    guarded_ready : guarded app name p1 ≡ defer app.after (app.action name p2)
    unfolding guarded
    guarded_ready = rw ready

    -- A method that stops the run is followed by After and Finish, as one that returns: the state
    -- at which it stops goes through both, and StopRun skips neither, where Init, Before and After
    -- return.
    pub after_stop :
        (app.action name p2 ≡ panicked stop_run p3) ⊎ (app.action name p2 ≡ returned p3)
        → app.after p3 ≡ returned p4
        → serve app name p ≡ app.finish p4
    unfolding recover_panic
    after_stop (inl e) h = rw (serve_begun, guarded_ready, e, h)
    after_stop (inr e) h = rw (serve_begun, guarded_ready, e, h)

    -- A method that fails is followed by After, then by ServerError, then by Finish, where Init,
    -- Before, After and ServerError return.
    pub after_failure :
        (e : Text) (p5 : P)
        → app.action name p2 ≡ panicked (failure e) p3
        → app.after p3 ≡ returned p4
        → app.server_error p4 ≡ returned p5
        → serve app name p ≡ app.finish p5
    unfolding recover_panic
    after_failure e p5 failed h k = rw (serve_begun, guarded_ready, failed, h) (rw k)

  -- What ServerError makes of the state `q` that After leaves, where the method ended in `o`: it is called
  -- if the method failed, and not if it returned or stopped the run.
  abbrev pub IsRescued : Outcome P → P → P → Type 0
  IsRescued (panicked (failure e) p3) q q' = app.server_error q ≡ returned q'
  IsRescued _ q q' = q ≡ q'

  -- Where Init returns and Before stops the run, neither the method nor After is called.
  stop_before : (p2 : P) → app.before p1 ≡ panicked stop_run p2 → serve app name p ≡ app.finish p2
  unfolding guarded recover_panic
  stop_before p2 h = rw serve_begun (rw h)

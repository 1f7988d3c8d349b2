-- ===== src/Signal/Tests.antt =====
-- A shutdown with one request that outlasts the timeout.
use hfw.Base.{true, false, ◌≡◌, refl}
use hfw.Signal.{State, started, close_done, wg_add, shutdown, select_timeout, Steps, stay, go}
use hfw.Signal.Shutdown.{shutdown_safe}

abbrev working : State
working = record started { wg = 1 }

abbrev stopping : State
stopping = record working { doing = true; waiting = true; selecting = true }

abbrev late : State
late = record stopping { selecting = false; timed_out = true; closed = true }

started-late : Steps started late
unfolding close_done
started-late = go started working late (wg_add started refl) (
    go working stopping late (shutdown working refl refl)
      (go stopping late late (select_timeout stopping refl refl) (stay late)))

shutdown_safe_example :
    (late.closed ≡ true → late.timed_out ≡ false → late.cancelled ≡ true)
    × (late.crashed ≡ true → late.timed_out ≡ true)
shutdown_safe_example = shutdown_safe late started-late

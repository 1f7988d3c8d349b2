-- ===== src/Signal.antt =====
-- signal/signal.go: the shutdown, as the steps of its goroutines and of the requests that it waits for.
pub mod Shutdown
mod Tests
use hfw.Base.{ℕ, zero, suc, Bool, true, false, ◌≡◌, if◌then◌else◌}

-- signalContext and its goroutines: the count of the wait group, whether the context is cancelled,
-- `doing`, whether waitDone and the select of doShutdownDone are under way, whether `done` is closed,
-- whether the timeout has been taken, and whether the process has panicked.
pub record State : Type 0 where
  pub wg : ℕ
  pub cancelled : Bool
  pub doing : Bool
  pub waiting : Bool
  pub selecting : Bool
  pub closed : Bool
  pub timed_out : Bool
  pub crashed : Bool

-- `init`
abbrev pub started : State
started = record {
  wg = 0;
  cancelled = false;
  doing = false;
  waiting = false;
  selecting = false;
  closed = false;
  timed_out = false;
  crashed = false;
}

-- `close(ctx.done)`, which panics at a closed channel.
unfoldable pub close_done : State → State
close_done s = if s.closed then record s { crashed = true } else record s { closed = true }

pub data Step : State → State → Type 0 where
  -- `WgAdd` and `WgDone`
  wg_add : (s : State) → s.crashed ≡ false → Step s (record s { wg = suc s.wg })
  wg_done : (s : State) (n : ℕ) → s.crashed ≡ false → s.wg ≡ suc n → Step s (record s { wg = n })
  -- `doShutdownDone`, of Listen or Shutdowned, up to its select.
  shutdown :
      (s : State)
      → s.crashed ≡ false
      → s.doing ≡ false
      → Step s (record s { doing = true; waiting = true; selecting = true })
  shutdown_again : (s : State) → s.crashed ≡ false → s.doing ≡ true → Step s s
  -- `waitDone`, before and after its wait.
  wait_cancel :
      (s : State) → s.crashed ≡ false → s.waiting ≡ true → Step s (record s { cancelled = true })
  wait_end :
      (s : State)
      → s.crashed ≡ false
      → s.waiting ≡ true
      → s.cancelled ≡ true
      → s.wg ≡ 0
      → Step s (close_done (record s { waiting = false }))
  -- The two cases of the select.
  select_timeout :
      (s : State)
      → s.crashed ≡ false
      → s.selecting ≡ true
      → Step s (close_done (record s { selecting = false; timed_out = true }))
  select_done :
      (s : State)
      → s.crashed ≡ false
      → s.selecting ≡ true
      → s.closed ≡ true
      → Step s (record s { selecting = false })

pub data Steps : State → State → Type 0 where
  stay : (s : State) → Steps s s
  go : (s t u : State) → Step s t → Steps t u → Steps s u

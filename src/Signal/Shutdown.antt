-- ===== src/Signal/Shutdown.antt =====
-- When the shutdown is said to be over, and when it panics.
use hfw.Base.{
  ℕ, zero, suc, Bool, true, false, ◌≡◌, refl, ap, subst, if◌then◌else◌, Bool-cases, inl, inr,
}
use hfw.Signal.{
  State, started, close_done, Step, wg_add, wg_done, shutdown, shutdown_again, wait_cancel,
  wait_end, select_timeout, select_done, Steps, stay, go,
}

-- What holds of every state that the shutdown reaches.
pub record IsValid (s : State) : Type 0 where
  pub idle :
      s.doing ≡ false
      → (s.waiting ≡ false) × (s.selecting ≡ false) × (s.closed ≡ false) × (s.timed_out ≡ false)
  pub one_close : s.waiting ≡ true → s.timed_out ≡ false → s.closed ≡ false
  pub one_timeout : s.selecting ≡ true → s.timed_out ≡ false
  pub timeout_closes : s.timed_out ≡ true → s.closed ≡ true
  pub told : s.closed ≡ true → s.timed_out ≡ false → s.cancelled ≡ true
  pub crash : s.crashed ≡ true → s.timed_out ≡ true

started-IsValid : IsValid started
started-IsValid = record {
  idle = λ _. (refl, refl, refl, refl);
  one_close = λ h k. refl;
  one_timeout = λ h. refl;
  timeout_closes = λ h. absurd (cc h);
  told = λ h k. absurd (cc h);
  crash = λ h. absurd (cc h);
}

either :
    (b : Bool) (x y : State)
    → (b ≡ true → IsValid x)
    → (b ≡ false → IsValid y)
    → IsValid (if b then x else y)
either true x y h k = h refl
either false x y h k = k refl

end-IsValid :
    (s : State)
    → IsValid s
    → s.crashed ≡ false
    → s.waiting ≡ true
    → s.cancelled ≡ true
    → IsValid (close_done (record s { waiting = false }))
unfolding close_done
end-IsValid s v h w c =
    either s.closed _ _
      (λ e. record {
        idle = λ x. absurd (cc ((v.idle x).0, w));
        one_close = λ x y. absurd (cc x);
        one_timeout = v.one_timeout;
        timeout_closes = v.timeout_closes;
        told = v.told;
        crash = λ _. elim (Bool-cases s.timed_out) [
          | inl t ↦ t
          | inr t ↦ absurd (cc (v.one_close w t, e))
        ];
      })
      (λ e. record {
        idle = λ x. absurd (cc ((v.idle x).0, w));
        one_close = λ x y. absurd (cc x);
        one_timeout = v.one_timeout;
        timeout_closes = λ x. refl;
        told = λ x y. c;
        crash = v.crash;
      })

timeout-IsValid :
    (s : State)
    → IsValid s
    → s.crashed ≡ false
    → s.selecting ≡ true
    → IsValid (close_done (record s { selecting = false; timed_out = true }))
unfolding close_done
timeout-IsValid s v h k =
    either s.closed _ _
      (λ e. record {
        idle = λ x. absurd (cc ((v.idle x).1, k));
        one_close = λ x y. absurd (cc y);
        one_timeout = λ x. absurd (cc x);
        timeout_closes = λ x. e;
        told = λ x y. absurd (cc y);
        crash = λ x. refl;
      })
      (λ e. record {
        idle = λ x. absurd (cc ((v.idle x).1, k));
        one_close = λ x y. absurd (cc y);
        one_timeout = λ x. absurd (cc x);
        timeout_closes = λ x. refl;
        told = λ x y. absurd (cc y);
        crash = λ x. refl;
      })

Step-IsValid : (s t : State) → IsValid s → Step s t → IsValid t
Step-IsValid _ _ v (wg_add s h) = record {
  idle = v.idle;
  one_close = v.one_close;
  one_timeout = v.one_timeout;
  timeout_closes = v.timeout_closes;
  told = v.told;
  crash = v.crash;
}
Step-IsValid _ _ v (wg_done s n h k) = record {
  idle = v.idle;
  one_close = v.one_close;
  one_timeout = v.one_timeout;
  timeout_closes = v.timeout_closes;
  told = v.told;
  crash = v.crash;
}
Step-IsValid _ _ v (shutdown s h k) = record {
  idle = λ x. absurd (cc x);
  one_close = λ x y. (v.idle k).2;
  one_timeout = λ x. (v.idle k).3;
  timeout_closes = v.timeout_closes;
  told = v.told;
  crash = v.crash;
}
Step-IsValid _ _ v (shutdown_again s h k) = v
Step-IsValid _ _ v (wait_cancel s h k) = record {
  idle = v.idle;
  one_close = v.one_close;
  one_timeout = v.one_timeout;
  timeout_closes = v.timeout_closes;
  told = λ x y. refl;
  crash = v.crash;
}
Step-IsValid _ _ v (wait_end s h w c z) = end-IsValid s v h w c
Step-IsValid _ _ v (select_timeout s h k) = timeout-IsValid s v h k
Step-IsValid _ _ v (select_done s h k l) = record {
  idle = λ x. ((v.idle x).0, refl, (v.idle x).2, (v.idle x).3);
  one_close = v.one_close;
  one_timeout = λ x. absurd (cc x);
  timeout_closes = v.timeout_closes;
  told = v.told;
  crash = v.crash;
}

Steps-IsValid : (s t : State) → IsValid s → Steps s t → IsValid t
Steps-IsValid _ _ v (stay s) = v
Steps-IsValid _ _ v (go s t u step steps) = Steps-IsValid t u (Step-IsValid s t v step) steps

-- From the start of the process: where `done` is closed and the timeout has not been taken, the
-- context has been cancelled, and the process panics only where the timeout has been taken.
pub shutdown_safe :
    (s : State)
    → Steps started s
    → (s.closed ≡ true → s.timed_out ≡ false → s.cancelled ≡ true)
      × (s.crashed ≡ true → s.timed_out ≡ true)
shutdown_safe s steps = let v = Steps-IsValid started s started-IsValid steps in (v.told, v.crash)

drain : (n : ℕ) (s : State) → s.crashed ≡ false → s.wg ≡ n → Steps s (record s { wg = 0 })
drain zero s h e = subst (λ w. Steps s (record s { wg = w })) e (stay s)
drain (suc n) s h e =
    go s (record s { wg = n }) (record s { wg = 0 }) (wg_done s n h e)
      (drain n (record s { wg = n }) h refl)

append-Step : (s t u : State) → Steps s t → Step t u → Steps s u
append-Step _ _ u (stay s) step = go s u u step (stay u)
append-Step _ _ u (go s t w first rest) step = go s t u first (append-Step t w u rest step)

crashes : (s : State) → s.closed ≡ true → (close_done (record s { waiting = false })).crashed ≡ true
unfolding close_done
crashes s e =
    ap
      (λ b.
        (if b
          then record s { waiting = false; crashed = true }
          else record s { waiting = false; closed = true }).crashed)
      e

-- From every state that the shutdown reaches after its timeout while waitDone still waits, the process
-- can panic: once the requests have ended, waitDone closes `done` a second time.
timeout_crashes :
    (s : State)
    → Steps started s
    → s.crashed ≡ false
    → s.timed_out ≡ true
    → s.waiting ≡ true
    → (t : State) × Steps s t × (t.crashed ≡ true)
timeout_crashes s steps h k w =
    let v = Steps-IsValid started s started-IsValid steps in
    let cancelled = record s { cancelled = true } in
    let ended = record cancelled { wg = 0 } in
    let first : Steps s ended =
      go s cancelled ended (wait_cancel s h w) (drain s.wg cancelled h refl) in
    let last : Step ended (close_done (record ended { waiting = false })) =
      wait_end ended h w refl refl in
    (
      close_done (record ended { waiting = false }),
      append-Step s ended _ first last,
      crashes ended (v.timeout_closes k),
    )

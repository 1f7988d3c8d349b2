-- ===== src/Request/Online.antt =====
-- The count of the requests in progress, the limit on it, and the wait group of the shutdown.
use hfw.Base.{ℕ, ◌+◌, ◌%◌, ◌<◌, ◌≤◌, true, false, ◌≡◌, refl, ◌∙◌, arith, Bool-cases, inl, inr}
use hfw.Base.Int.{pos}
use hfw.Route.{Instance}
use hfw.Context.{write_header, Page, Outcome, returned, panicked, defer, final, cancel}
use hfw.Request.{App, World, u32, enter, leave, too_many, Env}
use hfw.Request.Router.{routed, with_page, leave_world, cancel_world, router, swallow, handler_func}

leave-enter :
    (online meanwhile : ℕ) → leave ((enter online + meanwhile) % u32) ≡ (online + meanwhile) % u32
unfolding enter leave
leave-enter online meanwhile = omega arith

module _ {S : Type 0} (env : Env) (app_of : Instance → App (Page S)) where
  leave-with_page :
      (online : ℕ) (m : Outcome (Page S))
      → (final (
          defer
            (cancel_world env app_of)
            (defer (leave_world env app_of) (with_page env app_of online m)))).online
        ≡ leave online
  unfolding leave_world cancel_world
  leave-with_page online (returned p) = refl
  leave-with_page online (panicked e p) = refl

  -- However a request ends, refused, unanswered, served or panicking, and whatever the other
  -- requests add to the counter meanwhile, it leaves the counter as if it had not been there.
  pub router-online :
      (meanwhile : ℕ) (w : World S)
      → (final (router env app_of meanwhile w)).online ≡ (w.online + meanwhile) % u32
  unfolding router
  router-online meanwhile w =
      leave-with_page ((enter w.online + meanwhile) % u32)
        (routed env app_of (enter w.online) w.page)
      ∙ leave-enter w.online meanwhile

  swallowed :
      (meanwhile : ℕ) (w : World S) (m : Outcome (Page S))
      → (v : World S) × (defer
            (cancel_world env app_of)
            (swallow env app_of (with_page env app_of ((enter w.online + meanwhile) % u32) m))
          ≡ returned v)
        × (v.online ≡ (w.online + meanwhile) % u32)
  unfolding cancel_world
  swallowed meanwhile w (returned p) = (_, refl, leave-enter w.online meanwhile)
  swallowed meanwhile w (panicked e p) = (_, refl, leave-enter w.online meanwhile)

  -- A function registered by HandlerFunc always returns: no panic passes, and the counter is as if
  -- the request had not been there.
  handler_func_returns :
      (h : Page S → Outcome (Page S)) (meanwhile : ℕ) (w : World S)
      → (v : World S) × (handler_func env app_of h meanwhile w ≡ returned v)
        × (v.online ≡ (w.online + meanwhile) % u32)
  unfolding handler_func
  handler_func_returns h meanwhile w = swallowed meanwhile w _

-- A request that is let through, outside of a test, finds no more requests in progress than
-- Concurrence allows, itself included, if that is a positive int32.
too_many_bound :
    (limit online : ℕ)
    → 0 < limit
    → limit < u32
    → (too_many false (pos limit) (enter online) ≡ false → enter online ≤ limit)
      × (too_many false (pos limit) (enter online) ≡ true → limit < enter online)
unfolding too_many
too_many_bound limit online h k = (λ e. ground arith, λ e. ground arith)

too_many_over :
    (limit online : ℕ)
    → 0 < limit
    → limit < u32
    → limit < enter online
    → too_many false (pos limit) (enter online) ≡ true
too_many_over limit online h k over =
    elim (Bool-cases (too_many false (pos limit) (enter online))) [
      | inl e ↦ e
      | inr e ↦ let below = (too_many_bound limit online h k).0 e in absurd (omega arith)
    ]

module _ {S : Type 0} (env : Env) (app_of : Instance → App (Page S)) where
  -- A request too many is answered with 503 if nothing has been sent, and no method of any
  -- controller is called: the context is only cancelled.
  router_refused :
      (meanwhile : ℕ) (w : World S)
      → too_many env.is_go_test env.concurrence (enter w.online) ≡ true
      → router env app_of meanwhile w
        ≡ returned (record {
          online = leave ((enter w.online + meanwhile) % u32);
          page = cancel (record (w.page) { writer = write_header 503 w.page.writer });
        })
  unfolding router routed
  router_refused meanwhile w h = rw h

  -- Outside of a test and with a positive Concurrence that is a uint32, a request that finds, with itself,
  -- more requests in progress than Concurrence is answered with 503 if nothing has been sent, and no
  -- method of any controller is called: the context is only cancelled.
  router_over :
      (limit meanwhile : ℕ) (w : World S)
      → env.is_go_test ≡ false
      → env.concurrence ≡ pos limit
      → 0 < limit
      → limit < u32
      → limit < enter w.online
      → router env app_of meanwhile w
        ≡ returned (record {
          online = leave ((enter w.online + meanwhile) % u32);
          page = cancel (record (w.page) { writer = write_header 503 w.page.writer });
        })
  router_over limit meanwhile w outside e h k over =
      router_refused meanwhile w (rw (outside, e) (too_many_over limit w.online h k over))

-- ===== src/Request/Served.antt =====
-- What a client receives: of a method that fails, and of a server without routes.
use hfw.Base.{
  ℕ, ◌+◌, ◌%◌, Bool, true, false, ◌&&◌, List, [], ◌∷◌, some, ◌≡◌, refl, ap, ◌∙◌, arith, ◌⊎◌, inl,
  length, ◌==◌, if◌then◌else◌,
}
use hfw.Base.Text.{Text}
use hfw.Route.{Instance}
use hfw.Session.{SessionStore, SessionConfig}
use hfw.Context.{
  HttpContext, Body, Page, Outcome, returned, panicked, Panic, failure, final, cancel, defer,
}
use hfw.Context.Errors.{ErrorConfig, ErrorMap, throw_check}
use hfw.Context.Output.{render_response}
use hfw.Context.Controller.{init, before, after, server_error, not_found, finish}
use hfw.Context.Answer.{IsBlank, IsAnswer}
use hfw.Context.Rendered.{render_response-IsAnswer}
use hfw.Request.{App, serve, World, u32, enter, too_many, Env}
use hfw.Request.Router.{routed, router, with_page, leave_world, cancel_world}
use hfw.Request.Lifecycle.{after_failure}

module _ {S : Type 0} (store : SessionStore S) (config : SessionConfig) (errors : ErrorConfig)
    (error_map : ErrorMap) (session_enabled : Bool) (uuid : Text)
    (find_template : HttpContext → Text ⊎ Panic) where
  -- A controller that embeds Controller and has the given methods besides.
  abbrev pub embedding : (Text → Page S → Outcome (Page S)) → App (Page S)
  embedding action = record {
    init = init store config errors error_map session_enabled uuid;
    before = before;
    after = after;
    finish = finish store session_enabled find_template;
    server_error = server_error;
    action = action;
  }

  pub init_returns :
      (p : Page S)
      → init store config errors error_map session_enabled uuid p
        ≡ returned (final (init store config errors error_map session_enabled uuid p))
  unfolding init throw_check
  init_returns p = refl

  pub finish_renders :
      (p : Page S)
      → p.ctx.request.is_upgrade ≡ false
      → finish store session_enabled find_template p
        ≡ render_response store session_enabled find_template p
  unfolding finish
  finish_renders p h =
      ap (λ b. if b then returned p else render_response store session_enabled find_template p) h

  finish_answers :
      ((ctx : HttpContext) → (text : Text) × (find_template ctx ≡ inl text))
      → (p : Page S) → IsBlank p.writer
      → p.ctx.hijacked ≡ false
      → p.ctx.is_close_render ≡ false
      → p.ctx.request.is_upgrade ≡ false
      → (q : Page S) × (finish store session_enabled find_template p ≡ returned q)
        × IsAnswer p.ctx q.writer
  finish_answers found p blank h k l =
      let (q, rendered, a) =
        render_response-IsAnswer store session_enabled find_template found p blank h k in
      (q, finish_renders p l ∙ rendered, a)

  -- A method that fails before anything has been written and before a redirection or a coding has been
  -- set, of a controller that embeds Controller,
  -- is answered with the status 500 and one body that is not compressed, if every template is found,
  -- the connection is not hijacked or upgraded and the renderer is not closed.
  pub failing_action :
      (action : Text → Page S → Outcome (Page S)) (name e : Text) (p p' : Page S)
      → action name (final (init store config errors error_map session_enabled uuid p))
        ≡ panicked (failure e) p'
      → ((ctx : HttpContext) → (text : Text) × (find_template ctx ≡ inl text))
      → IsBlank p'.writer
      → p'.ctx.hijacked ≡ false
      → p'.ctx.is_close_render ≡ false
      → p'.ctx.request.is_upgrade ≡ false
      → (q : Page S) × (serve (embedding action) name p ≡ returned q)
        × ((headers : List (Text × Text)) × (q.writer.sent ≡ some (500, headers)))
        × ((b : Body) × (q.writer.body ≡ (false, b) ∷ []))
  unfolding before after server_error
  failing_action action name e p p' failed found blank h k l =
      let (q, finished, a) = finish_answers found (final (server_error p')) blank h k l in
      (
        q,
        after_failure (embedding action) name p _ (init_returns p) _ p' p' refl e _ failed refl refl
            ∙ finished,
        (a.headers, a.sent),
        (a.content, rw (← a.error refl) a.body),
      )

module _ {S : Type 0} (env : Env) (app_of : Instance → App (Page S)) where
  abbrev empty : Bool
  empty = (length env.routes.route_map == 0) && (length env.routes.route_map_method == 0)

  routed_no_routes :
      (online : ℕ) (p : Page S)
      → too_many env.is_go_test env.concurrence online ≡ false
      → empty ≡ true
      → routed env app_of online p ≡ not_found p
  unfolding routed
  routed_no_routes online p h k = rw (h, k) refl

  no_routes : env.routes.route_map ≡ [] → env.routes.route_map_method ≡ [] → empty ≡ true
  no_routes h k = rw (h, k) refl

  cancelled :
      (p : Page S)
      → ((cancel p).writer ≡ p.writer) × ((cancel p).ctx.http_status ≡ p.ctx.http_status)
  unfolding cancel
  cancelled p = ground arith

  -- With both tables empty a request that is let through returns with the 404 in its context and
  -- nothing written to the client.
  router_no_routes :
      (meanwhile : ℕ) (w : World S)
      → too_many env.is_go_test env.concurrence (enter w.online) ≡ false
      → env.routes.route_map ≡ []
      → env.routes.route_map_method ≡ []
      → (v : World S) × (router env app_of meanwhile w ≡ returned v)
        × (v.page.ctx.http_status ≡ 404)
        × (v.page.writer ≡ w.page.writer)
  unfolding router leave_world cancel_world not_found
  router_no_routes meanwhile w h k l =
      let m = routed_no_routes (enter w.online) w.page h (no_routes k l) in
      (
        _,
        ap
            (λ m. defer (cancel_world env app_of) (
              defer (leave_world env app_of)
                (with_page env app_of ((enter w.online + meanwhile) % u32) m)))
            m,
        (cancelled _).1,
        (cancelled _).0,
      )

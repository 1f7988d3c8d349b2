-- ===== src/Request/Router.antt =====
-- Router, HandlerFunc and the calls of DispatchRoute.
use hfw.Base.{ℕ, ◌+◌, ◌%◌, Bool, false, ◌&&◌, ◌++◌, Option, none, some, ◌==◌, if◌then◌else◌, length}
use hfw.Base.Text.{Text, codes, contains}
use hfw.Base.Dict.{insert}
use hfw.Route.{Instance, find_instance, dispatch_route}
use mathlib.Core.Option
use hfw.Context.{
  Request, Writer, write_header, set_header, page, Page, Outcome, returned, panicked, failure,
  defer, cancel, get_header,
}
use hfw.Context.Controller.{not_found}
use hfw.Context.Output.{add_body}
use hfw.Request.{App, guarded, serve, World, u32, enter, leave, too_many, init_ctx, Env}

module _ {S : Type 0} (env : Env) (app_of : Instance → App (Page S)) where
  -- Router once a context has been made and counted.
  unfoldable pub routed : ℕ → Page S → Outcome (Page S)
  routed online_num p =
      if too_many env.is_go_test env.concurrence online_num
      then returned (record p { writer = write_header 503 p.writer })
      else if (length env.routes.route_map == 0) && (length env.routes.route_map_method == 0)
      then not_found p
      else elim (find_instance env.route env.routes p.ctx.request.url_path p.ctx.request.method
          p.ctx.target) [
            | none ↦ panicked (failure (codes "nil pointer dereference")) p
            | some (i, name, target) ↦
                serve (app_of i) name (record p { ctx = record (p.ctx) { target = target } })
          ]

  -- `meanwhile` is what the other requests have added to the counter, modulo 2^32.
  abbrev pub with_page : ℕ → Outcome (Page S) → Outcome (World S)
  with_page online (returned p) = returned (record { online = online; page = p })
  with_page online (panicked e p) = panicked e (record { online = online; page = p })

  -- Deferred last, run first: the count of the requests, then the cancellation.
  unfoldable pub leave_world : World S → Outcome (World S)
  unfolding leave
  leave_world w = returned (record w { online = leave w.online })

  unfoldable pub cancel_world : World S → Outcome (World S)
  unfolding cancel
  cancel_world w = returned (record w { page = cancel w.page })

  -- `Router` behind the branch for gRPC, at the context that initCtx has made.
  unfoldable pub router : ℕ → World S → Outcome (World S)
  unfolding routed leave_world cancel_world enter
  router meanwhile w =
      let online_num = enter w.online in
      defer cancel_world
        (defer leave_world (with_page ((online_num + meanwhile) % u32) (routed online_num w.page)))

  -- `DispatchRoute`
  unfoldable pub dispatch : Page S → Outcome (Page S)
  unfolding guarded
  dispatch p =
      elim (dispatch_route env.route env.routes p.ctx.request.url_path p.ctx.request.method
        p.ctx.target) [
          | none ↦ panicked (failure (codes "nil pointer dereference")) p
          | some (i, name, target) ↦
              guarded (app_of i) name (record p { ctx = record (p.ctx) { target = target } })
        ]

  -- The deferred function of HandlerFunc: the count is lowered, and no panic passes.
  abbrev pub swallow : Outcome (World S) → Outcome (World S)
  swallow (returned w) = returned (record w { online = leave w.online })
  swallow (panicked e w) = returned (record w { online = leave w.online })

  -- The function that HandlerFunc registers for a handler `h`.
  unfoldable pub handler_func : (Page S → Outcome (Page S)) → ℕ → World S → Outcome (World S)
  unfolding enter leave cancel_world
  handler_func h meanwhile w =
      let online_num = enter w.online in
      let refused : Outcome (Page S) =
        returned (record (w.page) { writer = write_header 503 w.page.writer }) in
      defer cancel_world (
        swallow (
          with_page ((online_num + meanwhile) % u32)
            (if too_many env.is_go_test env.concurrence online_num then refused else h w.page)))

-- A response of the gRPC server, or of Router.
pub data Handled (S : Type 0) : Type 0 where
  grpc : Writer → Handled S
  plain : Outcome (World S) → Handled S

unfoldable pub is_grpc : Request → Bool
is_grpc request =
    (request.proto_major == 2)
    && contains (get_header (codes "Content-Type") request.headers) (codes "application/grpc")

-- `http.Error`
abbrev pub http_error : Text → ℕ → Writer → Writer
http_error message status w = add_body false (page (message ++ codes "\n")) (
    write_header status (
      set_header (codes "X-Content-Type-Options") (codes "nosniff")
        (set_header (codes "Content-Type") (codes "text/plain; charset=utf-8") w)))

-- The gRPC server finds a trace in every request.
abbrev pub traced : Text → Request → Request
traced trace_id request = record request {
  headers = insert (codes "Trace_id") trace_id request.headers;
}

abbrev pub served_by : Option (Writer → Writer) → Writer → Writer
served_by none w = http_error (codes "grpc server has not init") 500 w
served_by (some serve_http) w = serve_http w

-- `Router`, with the gRPC server if there is one.
unfoldable pub entry :
    {S : Type 0}
    → Env
    → (Instance → App (Page S))
    → Option (Request → Writer → Writer)
    → Text
    → ℕ
    → Request
    → World S
    → Handled S
unfolding is_grpc router init_ctx
entry env app_of server trace_id meanwhile request w =
    if is_grpc request
    then grpc (served_by (Option.map (λ f. f (traced trace_id request)) server) w.page.writer)
    else plain (
        router env app_of meanwhile (record w {
          page = init_ctx request trace_id w.page.writer w.page.store_state w.page.wait_group;
        }))

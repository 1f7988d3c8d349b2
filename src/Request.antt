-- ===== src/Request.antt =====
-- The life of one request: Router, HandlerFunc and recoverPanic of router.go, initCtx of context.go.
pub mod Router
pub mod Lifecycle
pub mod Online
pub mod Served
pub mod Json
pub mod Thrown
mod Tests
use hfw.Base.{
  ℕ, ◌+◌, ◌-◌, ◌%◌, ◌^◌, Bool, true, false, ◌&&◌, ◌||◌, not, List, [], ◌∷◌, Option, none, some,
  ◌++◌, ◌==◌, ltb, leb, if◌then◌else◌, length,
}
use hfw.Base.Text.{Text, codes, text_eq, contains}
use hfw.Base.Int.{ℤ, pos, negsuc, ltb_ℤ}
use hfw.Route.{Instance, RouteConfig, Routes, Target, find_instance, dispatch_route}
use hfw.Context.{
  Request, null, HttpContext, Writer, write_header, set_header, page, Page, Outcome, returned,
  panicked, ◌>>=◌, Panic, stop_run, failure, defer, behind, final, cancel, get_header,
}
use mathlib.Core.Option
use hfw.Context.Controller.{not_found}
use hfw.Context.Output.{add_body}

-- The methods of a controller as reflection calls them.
pub record App (P : Type 0) : Type 0 where
  pub init : P → Outcome P
  pub before : P → Outcome P
  pub after : P → Outcome P
  pub finish : P → Outcome P
  pub server_error : P → Outcome P
  pub action : Text → P → Outcome P

module _ {P : Type 0} (app : App P) where
  -- `recoverPanic`
  unfoldable pub recover_panic : Outcome P → Outcome P
  recover_panic (returned p) = returned p
  recover_panic (panicked stop_run p) = returned p
  recover_panic (panicked (failure e) p) = app.server_error p

  -- From the call of Before on: After is deferred behind the recovery, so it runs first.
  unfoldable pub guarded : Text → P → Outcome P
  guarded name p = do p' ← app.before p; defer app.after (app.action name p')

  -- From the call of Init on.
  unfoldable pub serve : Text → P → Outcome P
  unfolding recover_panic guarded
  serve name p = do p' ← app.init p; defer app.finish (recover_panic (guarded name p'))

-- What the whole process shares: the requests in progress (a uint32), and one request's page.
pub record World (S : Type 0) : Type 0 where
  pub online : ℕ
  pub page : Page S

abbrev pub u32 : ℕ
u32 = 2 ^ 32

-- `atomic.AddUint32(&online, 1)` and `atomic.AddUint32(&online, ^uint32(0))`
unfoldable pub enter : ℕ → ℕ
enter online = (online + 1) % u32

unfoldable pub leave : ℕ → ℕ
leave online = (online + (u32 - 1)) % u32

-- `uint32(Config.Server.Concurrence)`, of an int
abbrev pub to_u32 : ℤ → ℕ
to_u32 (pos n) = n % u32
to_u32 (negsuc n) = u32 - 1 - n % u32

-- `checkConcurrence`: whether it returns an error.
unfoldable pub too_many : Bool → ℤ → ℕ → Bool
too_many is_go_test concurrence online_num =
    if is_go_test || not (ltb_ℤ (pos 0) concurrence)
    then false
    else ltb (to_u32 concurrence) online_num

-- `initCtx`; `trace_id` is what GetTraceIDFromRequest finds.
unfoldable pub init_ctx : {S : Type 0} → Request → Text → Writer → S → ℕ → Page S
init_ctx request trace_id w store_state wait_group = record {
  ctx = record {
    is_canceled = false;
    http_status = 200;
    request = request;
    session = none;
    target = record { path = []; controller = []; action = [] };
    is_zip = false;
    is_error = false;
    template = [];
    template_file = [];
    values = [];
    is_json = false;
    has_header = false;
    is_only_results = false;
    err_no = pos 0;
    err_msg = [];
    results = null;
    header = [];
    is_close_render = false;
    hijacked = false;
    trace_id = trace_id;
  };
  writer = w;
  store_state = store_state;
  wait_group = wait_group + 1;
}

-- `Config.Server.Concurrence`, `Config.Route`, the tables, and common.IsGoTest.
pub record Env : Type 0 where
  pub route : RouteConfig
  pub routes : Routes
  pub concurrence : ℤ
  pub is_go_test : Bool

-- ===== src/Request/Tests.antt =====
-- Requests to a server with one controller, whose sessions are switched off.
use hfw.Base.{◌≡◌, some}
use hfw.Context.Download.{Files}
use hfw.Base.{◌+◌, ◌%◌, true, false, List, [], ◌∷◌, none, some, ◌≡◌, refl, ◌⊎◌, inl, if◌then◌else◌}
use hfw.Base.Text.{Text, codes, text_eq, contains}
use hfw.Base.Dict.{lookup, insert, remove}
use hfw.Base.Int.{pos, wrap64}
use hfw.Session.{SessionStore, SessionConfig}
use hfw.Context.{
  Request, HttpContext, Body, Writer, Page, Outcome, returned, panicked, Panic, failure, final,
  cancel,
}
use hfw.Context.Errors.{ErrorConfig, error, error_map, full_code, throw_check, check_err}
use hfw.Context.Output.{render_response}
use hfw.Context.Answer.{IsBlank, IsAnswer}
use hfw.Context.Rendered.{render_response-IsAnswer}
use hfw.Context.Controller.{init, before, after, server_error, finish}
use hfw.Request.{App, recover_panic, guarded, serve, World, enter, leave, too_many, init_ctx, Env}
use hfw.Request.Served.{embedding, failing_action}
use hfw.Base.{Bool}
use hfw.Context.{Results, response, cancel}
use hfw.Request.{u32}
use hfw.Request.Router.{router}
use hfw.Request.Online.{router-online}
use hfw.Request.Thrown.{thrown_action}

-- A store without sessions.
abbrev store : SessionStore (Unit {0})
store = record {
  set_expiration = λ expiration s. s;
  put = λ id key value s. (none, s);
  get = λ id key s. (none, none);
  is_exist = λ id key s. (false, none);
  del = λ id key s. (none, s);
  destroy = λ id s. (none, s);
  rename = λ id newid s. (none, s);
}

abbrev config : SessionConfig
config = record { cookie_name = []; re_name = false; expiration = pos 0 }

abbrev errors : ErrorConfig
errors = record { app_id = pos 7; error_base = pos 10000 }

abbrev request : Request
request = record {
  proto_major = 1;
  method = codes "GET";
  url_path = codes "/user/list";
  raw_query = codes "format=json";
  scheme = codes "http";
  headers = (codes "Accept-Encoding", codes "gzip, br") ∷ [];
  cookies = [];
  is_upgrade = false;
}

abbrev writer : Writer
writer = record { headers = []; cookies = []; sent = none; body = [] }

abbrev arrived : Page (Unit {0})
arrived = init_ctx request (codes "t1") writer tt 0

writer-IsBlank : IsBlank writer
unfolding lookup
writer-IsBlank = record { sent = refl; body = refl; coding = refl; location = refl }

abbrev find_template : HttpContext → Text ⊎ Panic
find_template ctx = inl (codes "<p>")

-- The method `Fail` fails, `Stop` throws an error, every other one returns.
abbrev action : Text → Page (Unit {0}) → Outcome (Page (Unit {0}))
action name p =
    if text_eq name (codes "Fail")
    then panicked (failure (codes "index out of range")) p
    else if text_eq name (codes "Stop")
    then throw_check errors error_map (pos 12) (error (codes "no user")) p
    else returned p

abbrev app : App (Page (Unit {0}))
app = embedding store config errors error_map false (codes "u1") find_template action

abbrev ready : Page (Unit {0})
ready = final (app.init arrived)

abbrev stopped : Page (Unit {0})
stopped = final (action (codes "Stop") ready)

abbrev world : World (Unit {0})
world = record { online = 3; page = arrived }

abbrev env : Env
env = record {
  route = record { default_controller = codes "index"; default_action = codes "index" };
  routes = record {
    route_map = [];
    route_map_method = [];
    route_map_register = [];
    default_instance = none;
    is_init = true;
  };
  concurrence = pos 2;
  is_go_test = false;
}

abbrev idle : World (Unit {0})
idle = record world { online = 0 }

page_steps : Unit {0}
unfolding init_ctx init throw_check text_eq lookup insert remove contains before after server_error
    finish serve guarded recover_panic enter leave too_many cancel full_code wrap64 check_err
    error_map
page_steps = tt

render_response-IsAnswer_example :
    (q : Page (Unit {0})) × (render_response store false find_template ready ≡ returned q)
    × IsAnswer ready.ctx q.writer
unfolding page_steps
render_response-IsAnswer_example =
    render_response-IsAnswer store false find_template (λ ctx. (codes "<p>", refl)) ready
      writer-IsBlank refl refl

failing_action_example :
    (q : Page (Unit {0})) × (serve app (codes "Fail") arrived ≡ returned q)
    × ((headers : List (Text × Text)) × (q.writer.sent ≡ some (500, headers)))
    × ((b : Body) × (q.writer.body ≡ (false, b) ∷ []))
unfolding page_steps
failing_action_example =
    failing_action store config errors error_map false (codes "u1") find_template action
      (codes "Fail") (codes "index out of range") arrived ready refl (λ ctx. (codes "<p>", refl))
      writer-IsBlank refl refl refl

thrown_action_example :
    (q : Page (Unit {0})) × (zipped : Bool) × (results : Results) × (serve app
        (codes "Stop")
        arrived
      ≡ returned q)
    × (q.writer.body
        ≡ (
          zipped,
          response
              (check_err errors error_map (pos 12) (error (codes "no user")) ready).0.0
              (check_err errors error_map (pos 12) (error (codes "no user")) ready).0.1
              results,
        )
          ∷ [])
unfolding page_steps
thrown_action_example =
    thrown_action store false find_template config errors error_map (codes "u1") action
      (codes "Stop") arrived ready (pos 12) (error (codes "no user")) refl refl writer-IsBlank
      (record {
        hijacked = refl;
        is_close_render = refl;
        is_json = refl;
        is_only_results = refl;
        has_header = refl;
      })
      refl

router-online_example : (final (router env (λ i. app) 1 world)).online ≡ (3 + 1) % u32
router-online_example = router-online env (λ i. app) 1 world

abbrev no_files : Files
no_files = record {
  abs = λ t. (t, none);
  is_exist = λ t. false;
  open_file = λ t. ([], some (codes "no such file"));
}

-- ===== src/Context/Controller.antt =====
-- controller.go: the methods of Controller that every controller has.
use hfw.Base.{Bool, true, some, ◌⊎◌, if◌then◌else◌}
use hfw.Base.Text.{Text, codes, contains}
use hfw.Base.Int.{pos}
use hfw.Session.{SessionStore, SessionConfig, new_session}
use hfw.Context.{HttpContext, Page, Outcome, returned, Panic, get_header}
use hfw.Context.Errors.{ErrorConfig, ErrorMap, throw_check, nil}
use hfw.Context.Output.{render_response}

-- The switches that Init reads of the request.
unfoldable pub negotiated : HttpContext → HttpContext
negotiated ctx =
    let accept = get_header (codes "Accept") ctx.request.headers in
    let encoding = get_header (codes "Accept-Encoding") ctx.request.headers in
    record ctx {
      is_json =
          if contains ctx.request.raw_query (codes "format=json")
          then true
          else if contains accept (codes "application/json")
          then true
          else ctx.is_json;
      is_zip = if contains encoding (codes "gzip") then true else ctx.is_zip;
    }

module _ {S : Type 0} (store : SessionStore S) (config : SessionConfig) (errors : ErrorConfig)
    (error_map : ErrorMap) (session_enabled : Bool) (uuid : Text) where
  -- The session of the request, where sessions are enabled; redis.DefaultIns is never nil.
  unfoldable pub open_session : Page S → Page S
  open_session p =
      let (session, s) = new_session store p.ctx.request.cookies config uuid p.store_state in
      if session_enabled
      then record p { ctx = record (p.ctx) { session = some session }; store_state = s }
      else p

  -- `Init`; the error that it throws at its end is always nil.
  unfoldable pub init : Page S → Outcome (Page S)
  unfolding negotiated open_session
  init p =
      throw_check errors error_map (pos 500) nil
        (open_session (record p { ctx = negotiated p.ctx }))

module _ {S : Type 0} where
  -- `Before` and `After`
  unfoldable pub before : Page S → Outcome (Page S)
  before p = returned p

  unfoldable pub after : Page S → Outcome (Page S)
  after p = returned p

  -- `NotFound`
  unfoldable pub not_found : Page S → Outcome (Page S)
  not_found p = returned (record p {
    ctx = record (p.ctx) {
      http_status = 404;
      is_error = true;
      err_no = pos 404;
      err_msg = codes "NotFound";
    };
  })

  -- `ServerError`
  unfoldable pub server_error : Page S → Outcome (Page S)
  server_error p = returned (record p {
    ctx = record (p.ctx) {
      http_status = 500;
      is_error = true;
      err_no = pos 500;
      err_msg = codes "ServerError";
    };
  })

-- `Finish`
unfoldable pub finish :
    {S : Type 0} → SessionStore S → Bool → (HttpContext → Text ⊎ Panic) → Page S → Outcome (Page S)
unfolding render_response
finish store session_enabled find_template p =
    if p.ctx.request.is_upgrade
    then returned p
    else render_response store session_enabled find_template p

-- ===== src/Context.antt =====
-- HTTPContext of context.go and what a response writer records of a response.
pub mod Errors
pub mod Output
pub mod Controller
pub mod Answer
pub mod Rendered
pub mod Download
use hfw.Base.{ℕ, Bool, true, false, List, [], ◌∷◌, ◌++◌, Option, none, some, if◌then◌else◌, ◌-◌}
use hfw.Base.Text.{Text, codes}
use hfw.Base.Dict.{lookup, insert, remove}
use hfw.Base.Int.{ℤ}
use hfw.Route.{Target}
use hfw.Session.{Session, Cookie}

-- What the code reads of a request.
pub record Request : Type 0 where
  pub proto_major : ℕ
  pub method : Text
  pub url_path : Text
  pub raw_query : Text
  pub scheme : Text
  pub headers : List (Text × Text)
  pub cookies : List (Text × Text)
  pub is_upgrade : Bool

-- `Response.Results`, an interface: nil, the map `Data`, or a value of the program's.
pub data Results : Type 0 where
  null : Results
  data_map : List (Text × Text) → Results
  value : Text → Results

pub record HttpContext : Type 0 where
  pub is_canceled : Bool
  pub http_status : ℕ
  pub request : Request
  pub session : Option Session
  pub target : Target
  pub is_zip : Bool
  pub is_error : Bool
  pub template : Text
  pub template_file : Text
  pub values : List (Text × Text)
  pub is_json : Bool
  pub has_header : Bool
  pub is_only_results : Bool
  pub err_no : ℤ
  pub err_msg : Text
  pub results : Results
  pub header : Text
  pub is_close_render : Bool
  pub hijacked : Bool
  pub trace_id : Text

-- What is written behind the headers.
pub data Body : Type 0 where
  only_results : Results → Body
  with_header : Text → ℤ → Text → Results → Body
  response : ℤ → Text → Results → Body
  page : Text → Body

-- http.ResponseWriter: the headers, which are sent, with the status, by the first WriteHeader.
pub record Writer : Type 0 where
  pub headers : List (Text × Text)
  pub cookies : List Cookie
  pub sent : Option (ℕ × List (Text × Text))
  pub body : List (Bool × Body)

abbrev pub first_sent :
    Option (ℕ × List (Text × Text)) → ℕ → List (Text × Text) → Option (ℕ × List (Text × Text))
first_sent none status headers = some (status, headers)
first_sent (some old) status headers = some old

abbrev pub write_header : ℕ → Writer → Writer
write_header status w = record w { sent = first_sent w.sent status w.headers }

abbrev pub set_header : Text → Text → Writer → Writer
set_header key v w = record w { headers = insert key v w.headers }

abbrev pub del_header : Text → Writer → Writer
del_header key w = record w { headers = remove key w.headers }

abbrev pub value_or_nil : Option Text → Text
value_or_nil none = []
value_or_nil (some v) = v

-- `Header().Get`
abbrev pub get_header : Text → List (Text × Text) → Text
get_header key headers = value_or_nil (lookup key headers)

-- The state that one request changes: its context, its response, the store of the sessions and the
-- count of the wait group of package signal.
pub record Page (S : Type 0) : Type 0 where
  pub ctx : HttpContext
  pub writer : Writer
  pub store_state : S
  pub wait_group : ℕ

pub data Panic : Type 0 where
  stop_run : Panic
  failure : Text → Panic

pub data Outcome (P : Type 0) : Type 0 where
  returned : P → Outcome P
  panicked : Panic → P → Outcome P

infixl 5 ◌>>=◌
abbrev pub ◌>>=◌ : {P : Type 0} → Outcome P → (P → Outcome P) → Outcome P
returned p >>= f = f p
panicked e p >>= f = panicked e p

-- The state that a call leaves, however it ends.
abbrev pub final : {P : Type 0} → Outcome P → P
final (returned p) = p
final (panicked e p) = p

-- `defer d` in front of a body that ends in the given way: a panic of `d` takes the place of another.
abbrev pub behind : {P : Type 0} → Panic → Outcome P → Outcome P
behind e (returned p) = panicked e p
behind e (panicked e' p) = panicked e' p

abbrev pub defer : {P : Type 0} → (P → Outcome P) → Outcome P → Outcome P
defer d (returned p) = d p
defer d (panicked e p) = behind e (d p)

-- `Cancel`: the wait group is left once.
unfoldable pub cancel : {S : Type 0} → Page S → Page S
cancel p =
    if p.ctx.is_canceled
    then p
    else record p { ctx = record (p.ctx) { is_canceled = true }; wait_group = p.wait_group - 1 }

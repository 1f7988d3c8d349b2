-- ===== src/Request/Json.antt =====
-- How a page is rendered as JSON, with the error of its context.
use hfw.Base.{
  Bool, true, false, not, [], ◌∷◌, ◌++◌, Option, none, ◌≡◌, refl, ap, ◌∙◌, arith, ◌⊎◌, inl, inr,
  Option-cases, if◌then◌else◌,
}
use hfw.Base.Text.{Text, codes, is_nil}
use hfw.Base.Int.{ℤ}
use hfw.Base.Text.{text_eq}
use hfw.Base.Dict.{lookup}
use hfw.Session.{SessionStore, Session}
use hfw.Context.{
  HttpContext, Results, Body, response, Writer, Page, Outcome, returned, Panic, get_header,
  set_header,
}
use hfw.Context.Output.{
  json_body, filled, return_json, render_response, close_session, opened_page, is_zipped,
  zip_headers,
}
use hfw.Context.Answer.{IsBlank, zip_rest, set_header-IsBlank}

-- A context that is answered with its error and its results, as JSON.
pub record IsJson (ctx : HttpContext) : Type 0 where
  pub hijacked : ctx.hijacked ≡ false
  pub is_close_render : ctx.is_close_render ≡ false
  pub is_json : ctx.is_json ≡ true
  pub is_only_results : ctx.is_only_results ≡ false
  pub has_header : ctx.has_header ≡ false

with_session :
    (ctx : HttpContext) (x : Option Session) → IsJson ctx → IsJson (record ctx { session = x })
with_session ctx x j = record {
  hijacked = j.hijacked;
  is_close_render = j.is_close_render;
  is_json = j.is_json;
  is_only_results = j.is_only_results;
  has_header = j.has_header;
}

pub with_error :
    (ctx : HttpContext) (err_no : ℤ) (err_msg : Text)
    → IsJson ctx
    → IsJson (record ctx { err_no = err_no; err_msg = err_msg })
with_error ctx err_no err_msg j = record {
  hijacked = j.hijacked;
  is_close_render = j.is_close_render;
  is_json = j.is_json;
  is_only_results = j.is_only_results;
  has_header = j.has_header;
}

json_body_lem :
    (ctx : HttpContext)
    → IsJson ctx
    → json_body (filled ctx) ≡ response ctx.err_no ctx.err_msg (filled ctx).results
unfolding filled
json_body_lem ctx j = ground (arith, j.is_only_results, j.has_header)

module _ {S : Type 0} (store : SessionStore S) (session_enabled : Bool)
    (find_template : HttpContext → Text ⊎ Panic) where
  abbrev render_page : Page S → Outcome (Page S)
  render_page = render_response store session_enabled find_template

  pub record IsOpened (p q : Page S) : Type 0 where
    pub json : IsJson q.ctx
    pub err_no : q.ctx.err_no ≡ p.ctx.err_no
    pub err_msg : q.ctx.err_msg ≡ p.ctx.err_msg
    pub body : q.writer.body ≡ []
    pub location : lookup (codes "Location") q.writer.headers ≡ none

  closed-IsOpened :
      (p : Page S)
      → IsJson p.ctx
      → IsBlank p.writer
      → IsOpened p (close_session store session_enabled find_template p)
  unfolding close_session
  closed-IsOpened p j b = elim (Option-cases p.ctx.session) [
    | inl e ↦ rw e (record {
      json = with_session p.ctx _ j;
      err_no = refl;
      err_msg = refl;
      body = b.body;
      location = b.location;
    })
    | inr (session, e) ↦ rw e (record {
      json = with_session p.ctx _ j;
      err_no = refl;
      err_msg = refl;
      body = b.body;
      location = b.location;
    })
  ]

  either :
      (test : Bool) (p q r : Page S)
      → IsOpened p q
      → IsOpened p r
      → IsOpened p (if test then q else r)
  either true p q r o o' = o
  either false p q r o o' = o'

  unfoldable pub with_trace_id : Page S → Page S
  with_trace_id p = record p { writer = set_header (codes "Trace-Id") p.ctx.trace_id p.writer }

  pub opened_page_json :
      (p : Page S)
      → IsJson p.ctx
      → IsBlank p.writer
      → IsOpened (with_trace_id p) (opened_page store session_enabled find_template p)
  unfolding with_trace_id text_eq
  opened_page_json p j b =
      let b' : IsBlank (with_trace_id p).writer = set_header-IsBlank _ _ p.writer refl refl b in
      either session_enabled (with_trace_id p) _ (with_trace_id p)
        (closed-IsOpened (with_trace_id p) j b')
        (record { json = j; err_no = refl; err_msg = refl; body = b'.body; location = b'.location })

  by_tests :
      (m1 m2 m3 m4 m5 : Outcome (Page S)) (hijacked located closed json : Bool)
      → hijacked ≡ false
      → located ≡ false
      → closed ≡ false
      → json ≡ true
      → (if hijacked
          then m1
          else if located
          then m2
          else if closed
          then m3
          else if json
          then m4
          else m5)
        ≡ m4
  by_tests m1 m2 m3 m4 m5 hijacked located closed json h k l j = rw (h, k, l, j) refl

  not_located :
      (w : Writer)
      → lookup (codes "Location") w.headers ≡ none
      → not (is_nil (get_header (codes "Location") w.headers)) ≡ false
  not_located w h = rw h refl

  pub render_json :
      (p : Page S)
      → IsJson p.ctx
      → IsBlank p.writer
      → render_page p ≡ returned (return_json (opened_page store session_enabled find_template p))
  unfolding render_response
  render_json p j b =
      let o = opened_page_json p j b in
      by_tests _ _ _ _ _ _ _ _ _ j.hijacked
        (not_located (opened_page store session_enabled find_template p).writer o.location)
        o.json.is_close_render o.json.is_json

  body_written :
      (w : Writer) (zipped : Bool) (b : Body)
      → w.body ≡ []
      → (zip_headers zipped w).body ++ ((zipped, b) ∷ []) ≡ (zipped, b) ∷ []
  body_written w zipped b h = rw ((zip_rest zipped w).1, h) refl

  pub json_written :
      (p : Page S)
      → IsJson p.ctx
      → p.writer.body ≡ []
      → (zipped : Bool) × (results : Results) × ((return_json p).writer.body
          ≡ (zipped, response p.ctx.err_no p.ctx.err_msg results) ∷ [])
  unfolding return_json
  json_written p j b = (
    is_zipped (filled p.ctx),
    (filled p.ctx).results,
    body_written _ (is_zipped (filled p.ctx)) _ b
        ∙ ap (λ body. (is_zipped (filled p.ctx), body) ∷ []) (json_body_lem p.ctx j),
  )

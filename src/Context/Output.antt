-- ===== src/Context/Output.antt =====
-- output.go: what a response is made of.
use hfw.Base.{
  Bool, true, false, ◌&&◌, ◌||◌, not, List, [], ◌∷◌, ◌++◌, Option, none, some, ◌⊎◌, inl, inr,
  if◌then◌else◌,
}
use hfw.Base.Text.{Text, codes, is_nil, text_eq}
use hfw.Session.{SessionStore, Cookie, close}
use hfw.Context.{
  null, data_map, HttpContext, Body, only_results, with_header, response, page, Writer,
  write_header, set_header, del_header, get_header, Page, Outcome, returned, panicked, Panic,
}

-- The headers and the compression of a body: an error page is not compressed.
abbrev pub is_zipped : HttpContext → Bool
is_zipped ctx = not ctx.is_error && ctx.is_zip

abbrev pub zip_headers : Bool → Writer → Writer
zip_headers true w =
    set_header (codes "Content-Encoding") (codes "gzip") (del_header (codes "Content-Length") w)
zip_headers false w = w

abbrev pub add_body : Bool → Body → Writer → Writer
add_body zipped b w = record w { body = w.body ++ ((zipped, b)) ∷ [] }

-- `Results` takes `Data` if it holds nothing itself.
unfoldable pub filled : HttpContext → HttpContext
filled ctx = elim ctx.results [
  | null ↦ elim ctx.values [ [] ↦ ctx | kv ∷ kvs ↦ record ctx { results = data_map (kv ∷ kvs) } ]
  | _ ↦ ctx
]

abbrev pub json_body : HttpContext → Body
json_body ctx =
    if ctx.is_only_results
    then only_results ctx.results
    else if ctx.has_header
    then with_header ctx.header ctx.err_no ctx.err_msg ctx.results
    else response ctx.err_no ctx.err_msg ctx.results

module _ {S : Type 0} where
  abbrev pub on_writer : (Writer → Writer) → Page S → Page S
  on_writer f p = record p { writer = f p.writer }

  -- `ReturnJSON`
  unfoldable pub return_json : Page S → Page S
  unfolding filled
  return_json p =
      let ctx = filled p.ctx in
      let w =
        zip_headers (is_zipped ctx)
          (set_header (codes "Content-Type") (codes "application/json; charset=utf-8") p.writer) in
      record p {
        ctx = ctx;
        writer = add_body (is_zipped ctx) (json_body ctx) (write_header ctx.http_status w);
      }

  -- `Render`, with the text that the template found by `render` writes.
  unfoldable pub render_text : Text → Page S → Page S
  render_text text p =
      let w =
        if is_nil (get_header (codes "Content-Type") p.writer.headers)
        then set_header (codes "Content-Type") (codes "text/html; charset=utf-8") p.writer
        else p.writer in
      on_writer
        (λ _.
          add_body (is_zipped p.ctx) (page text)
            (write_header p.ctx.http_status (zip_headers (is_zipped p.ctx) w)))
        p

module _ {S : Type 0} (find_template : HttpContext → Text ⊎ Panic) where
  -- Finding the template panics where it is missing or broken; the error that ThrowCheck sets in the
  -- context of a missing one is left out.
  unfoldable pub render : Page S → Outcome (Page S)
  unfolding render_text
  render p = elim (find_template p.ctx) [
    | inl text ↦ returned (render_text text p)
    | inr e ↦ panicked e p
  ]

abbrev pub cookie_list : Option Cookie → List Cookie
cookie_list none = []
cookie_list (some c) = c ∷ []

module _ {S : Type 0} (store : SessionStore S) (session_enabled : Bool)
    (find_template : HttpContext → Text ⊎ Panic) where
  -- The session is closed, and its cookie set, before anything is sent.
  unfoldable pub close_session : Page S → Page S
  close_session p = elim p.ctx.session [
    | none ↦ p
    | some session ↦
        let https = text_eq p.ctx.request.scheme (codes "https") in
        let (session', cookie, s) = close store https session p.store_state in
        record p {
          ctx = record (p.ctx) { session = some session' };
          writer = record (p.writer) { cookies = p.writer.cookies ++ cookie_list cookie };
          store_state = s;
        }
  ]

  abbrev pub opened_page : Page S → Page S
  opened_page p =
      let p' = on_writer (set_header (codes "Trace-Id") p.ctx.trace_id) p in
      if session_enabled then close_session p' else p'

  -- `RenderResponse`
  unfoldable pub render_response : Page S → Outcome (Page S)
  unfolding close_session return_json render
  render_response p =
      let p' = opened_page p in
      if p.ctx.hijacked
      then returned p
      else if not (is_nil (get_header (codes "Location") p'.writer.headers))
      then returned p'
      else if p'.ctx.is_close_render
      then returned (on_writer (write_header p'.ctx.http_status) p')
      else if p'.ctx.is_json
      then returned (return_json p')
      else if not (is_nil p'.ctx.template_file) || not (is_nil p'.ctx.template)
      then render find_template p'
      else returned (return_json p')

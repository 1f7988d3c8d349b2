-- ===== src/Context/Rendered.antt =====
-- RenderResponse of output.go, from a response in which nothing is written yet.
use hfw.Context.Answer.{
  IsBlank, IsAnswer, set_header-IsBlank, moved, return_json-IsAnswer, render_text-IsAnswer,
}
use hfw.Base.{Bool, true, false, not, ◌≡◌, refl, ◌∙◌, ◌⊎◌, inl, inr, Option-cases, if◌then◌else◌}
use hfw.Base.Text.{Text, codes, text_eq, is_nil}
use hfw.Session.{SessionStore}
use hfw.Context.{HttpContext, Writer, set_header, get_header, Page, Outcome, returned, Panic}
use hfw.Context.Output.{
  return_json, render_text, render, close_session, opened_page, render_response,
}

module _ {S : Type 0} (store : SessionStore S) (session_enabled : Bool)
    (find_template : HttpContext → Text ⊎ Panic) where
  close_session_kept :
      (p : Page S)
      → ((close_session store session_enabled find_template p).ctx.http_status ≡ p.ctx.http_status)
        × ((close_session store session_enabled find_template p).ctx.is_error ≡ p.ctx.is_error)
        × ((close_session store session_enabled find_template p).ctx.is_close_render
            ≡ p.ctx.is_close_render)
        × (IsBlank p.writer → IsBlank (close_session store session_enabled find_template p).writer)
  unfolding close_session
  close_session_kept p = elim (Option-cases p.ctx.session) [
    | inl e ↦ rw e (refl, refl, refl, λ b. b)
    | inr (session, e) ↦ rw e (
      refl,
      refl,
      refl,
      λ b. record { sent = b.sent; body = b.body; coding = b.coding; location = b.location },
    )
  ]

  opened : Page S → Page S
  opened = opened_page store session_enabled find_template

  record IsOpened (p q : Page S) : Type 0 where
    status : q.ctx.http_status ≡ p.ctx.http_status
    error : q.ctx.is_error ≡ p.ctx.is_error
    close_render : q.ctx.is_close_render ≡ p.ctx.is_close_render
    blank : IsBlank q.writer

  either :
      (test : Bool) (p q r : Page S)
      → IsOpened p q
      → IsOpened p r
      → IsOpened p (if test then q else r)
  either true p q r o o' = o
  either false p q r o o' = o'

  opened-IsOpened : (p : Page S) → IsBlank p.writer → IsOpened p (opened p)
  unfolding opened text_eq
  opened-IsOpened p b =
      let p' : Page S = record p {
        writer = set_header (codes "Trace-Id") p.ctx.trace_id p.writer;
      } in
      let b' : IsBlank p'.writer = set_header-IsBlank _ _ p.writer refl refl b in
      let (status, error, close_render, blank) = close_session_kept p' in
      either session_enabled p _ p'
        (record { status = status; error = error; close_render = close_render; blank = blank b' })
        (record { status = refl; error = refl; close_render = refl; blank = b' })

  abbrev Answers : Page S → Outcome (Page S) → Type 0
  Answers p m = (q : Page S) × (m ≡ returned q) × IsAnswer p.ctx q.writer

  by_json : (p q : Page S) → IsOpened p q → Answers p (returned (return_json q))
  by_json p q o =
      (_, refl, moved p.ctx q.ctx _ (o.status, o.error) (return_json-IsAnswer q o.blank))

  module _ (found : (ctx : HttpContext) → (text : Text) × (find_template ctx ≡ inl text)) where
    by_template : (p q : Page S) → IsOpened p q → Answers p (render find_template q)
    unfolding render
    by_template p q o =
        let (text, e) = found q.ctx in
        (
          render_text text q,
          rw (e, render),
          moved p.ctx q.ctx _ (o.status, o.error) (render_text-IsAnswer text q o.blank),
        )

    by_either :
        (p q : Page S) (json template : Bool)
        → IsOpened p q
        → Answers p (
            if json
            then returned (return_json q)
            else if template
            then render find_template q
            else returned (return_json q))
    by_either p q true template o = by_json p q o
    by_either p q false true o = by_template p q o
    by_either p q false false o = by_json p q o

    by_tests :
        (p q : Page S) (hijacked located closed json template : Bool) (m1 m2 m3 : Outcome (Page S))
        → hijacked ≡ false
        → located ≡ false
        → closed ≡ false
        → IsOpened p q
        → Answers p (
            if hijacked
            then m1
            else if located
            then m2
            else if closed
            then m3
            else if json
            then returned (return_json q)
            else if template
            then render find_template q
            else returned (return_json q))
    by_tests p q true located closed json template m1 m2 m3 h k l o = absurd (cc h)
    by_tests p q false true closed json template m1 m2 m3 h k l o = absurd (cc k)
    by_tests p q false false true json template m1 m2 m3 h k l o = absurd (cc l)
    by_tests p q false false false json template m1 m2 m3 h k l o = by_either p q json template o

    not_located :
        (w : Writer) → IsBlank w → not (is_nil (get_header (codes "Location") w.headers)) ≡ false
    not_located w b = rw b.location refl

    -- Where nothing has been written, no redirection or coding is set, the connection is not
    -- hijacked, the renderer is not closed and every template is found, RenderResponse returns with
    -- one response: its status is the context's, and its one body is compressed exactly where the
    -- headers sent say so, then without a length, and never where the context holds an error.
    pub render_response-IsAnswer :
        (p : Page S)
        → IsBlank p.writer
        → p.ctx.hijacked ≡ false
        → p.ctx.is_close_render ≡ false
        → (q : Page S) × (render_response store session_enabled find_template p ≡ returned q)
          × IsAnswer p.ctx q.writer
    unfolding render_response opened
    render_response-IsAnswer p blank h k =
        let o : IsOpened p (opened p) = opened-IsOpened p blank in
        by_tests p (opened p) _ _ _ _ _ _ _ _ h (not_located _ o.blank) (o.close_render ∙ k) o

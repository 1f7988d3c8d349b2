-- ===== src/Context/Download.antt =====
-- ReturnFileContent of output.go and SetDownloadMode of context.go.
use hfw.Base.{Bool, true, false, List, [], ◌∷◌, ◌++◌, none, some, ◌≡◌, refl, ap, ◌∙◌, if◌then◌else◌}
use hfw.Base.Text.{Text, codes}
use hfw.Base.Int.{pos}
use hfw.Session.{Err}
use hfw.Context.{
  page, first_sent, write_header, set_header, Page, Outcome, returned, panicked, ◌>>=◌, stop_run,
  final,
}
use hfw.Context.Errors.{ErrorConfig, ErrorMap, Value, nil, error, string, throw_check}
use hfw.Context.Answer.{zip_rest}
use hfw.Context.Output.{is_zipped, zip_headers, add_body}

-- What path/filepath and os say of a path: filepath.Abs, common.IsExist, and os.Open with the content.
pub record Files : Type 0 where
  pub abs : Text → Text × Err
  pub is_exist : Text → Bool
  pub open_file : Text → Text × Err

-- A path, or an io.Reader by its content.
pub data Source : Type 0 where
  at_path : Text → Source
  reader : Text → Source

abbrev pub value_of : Err → Value
value_of none = nil
value_of (some e) = error e

abbrev pub disposition : Text → Text
disposition filename = codes "attachment;filename=\"" ++ (filename ++ codes "\"")

-- `SetDownloadMode`: Finish will not render.
unfoldable pub set_download_mode : {S : Type 0} → Text → Page S → Page S
set_download_mode filename p = record p {
  ctx = record (p.ctx) { is_close_render = true };
  writer = set_header (codes "Content-Disposition") (disposition filename) p.writer;
}

abbrev pub content_of : Files → Source → Text
content_of files (reader content) = content
content_of files (at_path t) = (files.open_file t).0

module _ {S : Type 0} (errors : ErrorConfig) (error_map : ErrorMap) (files : Files) where
  -- The checks of a file before anything is sent.
  unfoldable pub check_source : Source → Page S → Outcome (Page S)
  check_source (reader content) p = returned p
  check_source (at_path t) p = do
    p1 ← throw_check errors error_map (pos 500) (value_of (files.abs t).1) p
    p2 ←
        if files.is_exist (files.abs t).0
        then returned p1
        else throw_check errors error_map (pos 500) (string (codes "file not exist")) p1
    throw_check errors error_map (pos 500) (value_of (files.open_file t).1) p2

  -- The deferred Close of the gzip writer: where nothing has been written it writes an empty stream,
  -- and net/http sends the headers with status 200 in front of it.
  abbrev pub close_zip : Bool → Outcome (Page S) → Outcome (Page S)
  close_zip true (panicked e p) =
      panicked e (record p { writer = add_body true (page []) (write_header 200 p.writer) })
  close_zip true (returned p) = returned p
  close_zip false m = m

  -- From the content type on.
  unfoldable pub send_file : Text → Text → Text → Page S → Outcome (Page S)
  unfolding set_download_mode
  send_file content_type filename content p =
      let typed = record p { writer = set_header (codes "Content-Type") content_type p.writer } in
      let p' = set_download_mode filename typed in
      returned (record p' {
        writer =
            add_body (is_zipped p'.ctx) (page content) (write_header p'.ctx.http_status p'.writer);
      })

  -- What ReturnFileContent changes before it looks at the file.
  abbrev pub prepared : Page S → Page S
  prepared p = record p {
    ctx = record (p.ctx) { is_json = false; template = []; template_file = [] };
    writer = zip_headers (is_zipped p.ctx) p.writer;
  }

  -- `ReturnFileContent`
  unfoldable pub return_file_content : Text → Text → Source → Page S → Outcome (Page S)
  unfolding check_source send_file
  return_file_content content_type filename source p = close_zip (is_zipped p.ctx) (
      check_source source (prepared p)
      >>= send_file content_type filename (content_of files source))

  abbrev stopped : Page S → Page S
  stopped p = final (throw_check errors error_map (pos 500) (string (codes "file not exist")) p)

  missing :
      (t : Text) (p : Page S)
      → (files.abs t).1 ≡ none
      → files.is_exist (files.abs t).0 ≡ false
      → check_source (at_path t) p ≡ panicked stop_run (stopped p)
  unfolding check_source throw_check
  missing t p h k = rw (h, k) refl

  -- A file that does not exist stops the run, but to a client that takes gzip the response has then
  -- been sent with status 200 and an empty body: neither the status of the context nor the error can
  -- reach it any more.
  missing_file_sent :
      (content_type filename t : Text) (p : Page S)
      → (files.abs t).1 ≡ none
      → files.is_exist (files.abs t).0 ≡ false
      → is_zipped p.ctx ≡ true
      → p.writer.sent ≡ none
      → (q : Page S) × (headers : List (Text × Text)) × (return_file_content content_type filename
            (at_path t)
            p
          ≡ panicked stop_run q)
        × (q.writer.sent ≡ some (200, headers))
        × (q.writer.body ≡ p.writer.body ++ ((true, page []) ∷ []))
  unfolding return_file_content throw_check
  missing_file_sent content_type filename t p h k zip fresh =
      let (sent, body) = zip_rest (is_zipped p.ctx) p.writer in
      let end = panicked stop_run (stopped (prepared p)) in
      (
        record (stopped (prepared p)) {
          writer = add_body true (page []) (write_header 200 (prepared p).writer);
        },
        (prepared p).writer.headers,
        ap
              (λ m.
                close_zip (is_zipped p.ctx)
                  (m >>= send_file content_type filename (content_of files (at_path t))))
              (missing t (prepared p) h k)
            ∙ ap (λ b. close_zip b end) zip,
        ap (λ old. first_sent old 200 (prepared p).writer.headers) (sent ∙ fresh),
        ap (λ bodies. bodies ++ ((true, page []) ∷ [])) body,
      )

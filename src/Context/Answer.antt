-- ===== src/Context/Answer.antt =====
-- The parts of a response that describe each other: its status, its headers and its body (output.go).
use hfw.Base.{
  Bool, true, false, List, [], ◌∷◌, none, some, ◌≡◌, refl, ◌∙◌, arith, inl, inr, Bool-cases,
  if◌then◌else◌,
}
use hfw.Base.Text.{Text, codes, text_eq, is_nil}
use hfw.Base.Dict.{lookup, insert, remove, lookup-insert, lookup-insert_self, lookup-remove}
use hfw.Context.{HttpContext, Body, page, Writer, write_header, set_header, get_header, Page}
use hfw.Context.Output.{is_zipped, zip_headers, add_body, filled, return_json, render_text}

abbrev coding : Text
coding = codes "Content-Encoding"

abbrev gzip : Text
gzip = codes "gzip"

-- Nothing has been written, and no coding and no redirection has been set.
pub record IsBlank (w : Writer) : Type 0 where
  pub sent : w.sent ≡ none
  pub body : w.body ≡ []
  pub coding : lookup (codes "Content-Encoding") w.headers ≡ none
  pub location : lookup (codes "Location") w.headers ≡ none

-- One response with one body: the status is the context's, the body is compressed where the headers
-- that are sent say so, and only there, then without a length, and never for an error.
pub record IsAnswer (ctx : HttpContext) (w : Writer) : Type 0 where
  pub headers : List (Text × Text)
  pub zipped : Bool
  pub content : Body
  pub sent : w.sent ≡ some (ctx.http_status, headers)
  pub body : w.body ≡ (zipped, content) ∷ []
  pub coding :
      lookup (codes "Content-Encoding") headers ≡ (if zipped then some (codes "gzip") else none)
  pub length : zipped ≡ true → lookup (codes "Content-Length") headers ≡ none
  pub error : ctx.is_error ≡ true → zipped ≡ false

module _ (headers : List (Text × Text)) where
  set_other :
      (key value at : Text)
      → text_eq key at ≡ false
      → lookup at (insert key value headers) ≡ lookup at headers
  set_other key value at h = rw (lookup-insert, h)

  zip_coding :
      (zipped : Bool) (w : Writer)
      → w.headers ≡ headers
      → lookup coding headers ≡ none
      → lookup coding (zip_headers zipped w).headers ≡ (if zipped then some gzip else none)
  zip_coding true w e h = lookup-insert_self coding gzip _
  zip_coding false w e h = rw (e, h)

zip_length : (w : Writer) → lookup (codes "Content-Length") (zip_headers true w).headers ≡ none
unfolding text_eq
zip_length w =
    set_other (remove (codes "Content-Length") w.headers) coding gzip (codes "Content-Length") refl
    ∙ lookup-remove (codes "Content-Length") (codes "Content-Length") w.headers

pub zip_rest :
    (zipped : Bool) (w : Writer)
    → ((zip_headers zipped w).sent ≡ w.sent) × ((zip_headers zipped w).body ≡ w.body)
zip_rest true w = (refl, refl)
zip_rest false w = (refl, refl)

zip_none :
    (zipped : Bool) (w : Writer)
    → zipped ≡ true
    → lookup (codes "Content-Length") (zip_headers zipped w).headers ≡ none
zip_none true w h = zip_length w
zip_none false w h = absurd (cc h)

unzipped : (ctx : HttpContext) → ctx.is_error ≡ true → is_zipped ctx ≡ false
unzipped ctx h = rw h

answered :
    (ctx : HttpContext) (w : Writer) (b : Body)
    → IsBlank w
    → IsAnswer ctx
        (add_body (is_zipped ctx) b (write_header ctx.http_status (zip_headers (is_zipped ctx) w)))
answered ctx w b blank =
    let (sent, body) = zip_rest (is_zipped ctx) w in
    record {
      headers = (zip_headers (is_zipped ctx) w).headers;
      zipped = is_zipped ctx;
      content = b;
      sent = rw (sent, blank.sent);
      body = rw (body, blank.body);
      coding = zip_coding w.headers (is_zipped ctx) w refl blank.coding;
      length = zip_none (is_zipped ctx) w;
      error = unzipped ctx;
    }

pub set_header-IsBlank :
    (key value : Text) (w : Writer)
    → text_eq key coding ≡ false
    → text_eq key (codes "Location") ≡ false
    → IsBlank w
    → IsBlank (set_header key value w)
set_header-IsBlank key value w h k blank = record {
  sent = blank.sent;
  body = blank.body;
  coding = set_other w.headers key value coding h ∙ blank.coding;
  location = set_other w.headers key value (codes "Location") k ∙ blank.location;
}

filled_status :
    (ctx : HttpContext)
    → ((filled ctx).http_status ≡ ctx.http_status) × ((filled ctx).is_error ≡ ctx.is_error)
unfolding filled
filled_status ctx = ground arith

pub moved :
    (ctx ctx' : HttpContext) (w : Writer)
    → (ctx'.http_status ≡ ctx.http_status) × (ctx'.is_error ≡ ctx.is_error)
    → IsAnswer ctx' w
    → IsAnswer ctx w
moved ctx ctx' w (h, k) a = record {
  headers = a.headers;
  zipped = a.zipped;
  content = a.content;
  sent = rw (← h) a.sent;
  body = a.body;
  coding = a.coding;
  length = a.length;
  error = λ e. a.error (k ∙ e);
}

module _ {S : Type 0} where
  pub return_json-IsAnswer : (p : Page S) → IsBlank p.writer → IsAnswer p.ctx (return_json p).writer
  unfolding return_json text_eq
  return_json-IsAnswer p blank =
      moved p.ctx (filled p.ctx) _ (filled_status p.ctx)
        (answered (filled p.ctx) _ _ (set_header-IsBlank _ _ p.writer refl refl blank))

  pub render_text-IsAnswer :
      (text : Text) (p : Page S) → IsBlank p.writer → IsAnswer p.ctx (render_text text p).writer
  unfolding render_text text_eq
  render_text-IsAnswer text p blank =
      elim (Bool-cases (is_nil (get_header (codes "Content-Type") p.writer.headers))) [
        | inl e ↦
            rw e (answered p.ctx _ (page text) (set_header-IsBlank _ _ p.writer refl refl blank))
        | inr e ↦ rw e (answered p.ctx p.writer (page text) blank)
      ]

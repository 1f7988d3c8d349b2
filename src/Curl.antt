-- ===== src/Curl.antt =====
-- The requests of curl/curl.go: the body that a request is made with, and the clients that are kept. The
-- encoding of forms, the files and net/http are parameters.
pub mod Bodies
pub mod Clients
pub mod Kept
mod Tests
use hfw.Base.{
  ℕ, Bool, true, false, not, ◌&&◌, ◌||◌, List, [], ◌∷◌, ◌++◌, map, Option, none, some,
  if◌then◌else◌, drop,
}
use hfw.Base.Text.{Text, codes, is_nil}
use hfw.Base.Dict.{lookup, insert}
use hfw.Session.{Err}

-- The fields of `Curl` that CreateRequest reads. `post_reader` is what is left to read of the reader, which
-- the request and the transport share; `headers` is not nil, as NewCurl makes it; a cookie is the text that
-- AddCookie makes of it.
pub record Posting : Type 0 where
  pub url : Text
  pub method : Text
  pub headers : List (Text × Text)
  pub cookies : List Text
  pub post_reader : Option Text
  pub post_bytes : Text
  pub post_string : Text
  pub post_fields : List (Text × List Text)
  pub post_field_readers : List (Text × Text)
  pub post_files : List (Text × List Text)

-- A part of a form.
pub data Part : Type 0 where
  field stream : Text → Text → Part
  file : (key path content : Text) → Part

pub record HttpRequest : Type 0 where
  pub method : Text
  pub url : Text
  pub headers : List (Text × Text)
  pub body : Option Text

pub record Lib : Type 0 where
  pub encode : List Part → Text
  pub form_content_type : Text
  -- The error of `io.Copy` from a reader, and what opening and copying a file gives.
  pub copy_err : Text → Err
  pub read_file : Text → Text × Err
  -- `http.NewRequest`
  pub new_request : Text → Text → Err

abbrev pub fields_of : List (Text × List Text) → List Part
fields_of [] = []
fields_of ((key, vals) ∷ rest) = map (Part.field key) vals ++ fields_of rest

abbrev pub is_some : {A : Type 0} → Option A → Bool
is_some none = false
is_some (some a) = true

abbrev pub is_empty : {A : Type 0} → List A → Bool
is_empty [] = true
is_empty (a ∷ l) = false

abbrev pub has_form : Posting → Bool
has_form c =
    not (is_empty c.post_fields)
    || not (is_empty c.post_field_readers)
    || not (is_empty c.post_files)

abbrev pub with_parts : List Part → List Part × Err → List Part × Err
with_parts ps (qs, e) = (ps ++ qs, e)

module _ (lib : Lib) where
  abbrev pub copied : Err → Text → Text → List Part × Err → List Part × Err
  copied (some e) key t rest = ([], some e)
  copied none key t rest = with_parts (Part.stream key t ∷ []) rest

  abbrev pub streams_of : List (Text × Text) → List Part × Err
  streams_of [] = ([], none)
  streams_of ((key, t) ∷ more) = copied (lib.copy_err t) key t (streams_of more)

  abbrev pub opened : Text × Err → Text → Text → List Part × Err → List Part × Err
  opened (t, some e) key path rest = ([], some e)
  opened (t, none) key path rest = with_parts (Part.file key path t ∷ []) rest

  abbrev pub files_at : Text → List Text → List Part × Err → List Part × Err
  files_at key [] rest = rest
  files_at key (path ∷ paths) rest = opened (lib.read_file path) key path (files_at key paths rest)

  abbrev pub files_in : List (Text × List Text) → List Part × Err
  files_in [] = ([], none)
  files_in ((key, paths) ∷ more) = files_at key paths (files_in more)

  abbrev pub then_parts : List Part × Err → List Part × Err → List Part × Err
  then_parts (ps, some e) rest = ([], some e)
  then_parts (ps, none) rest = with_parts ps rest

  unfoldable pub form_of : Posting → List Part × Err
  form_of c =
      with_parts (fields_of c.post_fields)
        (then_parts (streams_of c.post_field_readers) (files_in c.post_files))

  abbrev pub with_form : List Part × Err → Posting → Posting × Err
  with_form (ps, some e) c = (c, some e)
  with_form (ps, none) c = (
    record c {
      headers = insert (codes "Content-Type") lib.form_content_type c.headers;
      post_reader = some (lib.encode ps);
    },
    none,
  )

  -- The choice of createPostRequest, which leaves a reader in the curl.
  abbrev pub reader_or : Option Text → Posting → Posting × Err
  unfolding form_of
  reader_or (some t) c = (c, none)
  reader_or none c =
      if not (is_nil c.post_bytes)
      then (record c { post_reader = some c.post_bytes }, none)
      else if not (is_nil c.post_string)
      then (record c { post_reader = some c.post_string }, none)
      else if has_form c
      then with_form (form_of c) c
      else (c, none)

  abbrev pub is_post : Posting → Bool
  is_post c =
      is_some c.post_reader || not (is_nil c.post_bytes) || not (is_nil c.post_string) || has_form c

  abbrev pub failed : Text → Err
  failed e = some (codes "CreateRequest failed: " ++ e)

  -- `AddCookie` of net/http, on what the header Cookie was.
  abbrev pub cookie_line : Option Text → Text → Text
  cookie_line none cookie = cookie
  cookie_line (some []) cookie = cookie
  cookie_line (some (d ∷ line)) cookie = (d ∷ line) ++ (codes "; " ++ cookie)

  unfoldable pub add_cookies : List Text → List (Text × Text) → List (Text × Text)
  unfolding lookup insert
  add_cookies [] headers = headers
  add_cookies (cookie ∷ cookies) headers =
      add_cookies cookies
        (insert (codes "Cookie") (cookie_line (lookup (codes "Cookie") headers) cookie) headers)

  -- The request has the map of the curl's headers, so the cookies are added to those.
  abbrev pub requested : Err → Posting → (Option HttpRequest × Err) × Posting
  requested (some e) c = ((none, failed e), c)
  requested none c =
      let headers = add_cookies c.cookies c.headers in
      (
        (
          some (record { method = c.method; url = c.url; headers = headers; body = c.post_reader }),
          none,
        ),
        record c { headers = headers },
      )

  abbrev pub post_requested : Posting × Err → (Option HttpRequest × Err) × Posting
  post_requested (c, some e) = ((none, failed e), c)
  post_requested (c, none) = requested (lib.new_request c.method c.url) c

  -- `CreateRequest`
  unfoldable pub create_request : Posting → (Option HttpRequest × Err) × Posting
  unfolding reader_or add_cookies
  create_request c =
      if is_post c
      then post_requested (reader_or c.post_reader c)
      else requested (lib.new_request c.method c.url) c

  -- The transport has read `n` bytes of the body.
  abbrev pub read_some : ℕ → Option Text → Option Text
  read_some n none = none
  read_some n (some t) = some (drop n t)

  abbrev pub transported : ℕ → Posting → Posting
  transported n c = record c { post_reader = read_some n c.post_reader }

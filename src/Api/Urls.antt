-- ===== src/Api/Urls.antt =====
-- What a call of api/api.go is made of: its options and its URL.
use hfw.Base.{ℕ, Bool, List, [], ◌∷◌, ◌++◌, Option, none, some, if◌then◌else◌, length, get_elem?}
use hfw.Base.Text.{Text, codes, is_nil, has_prefix}
use hfw.Base.Int.{ℤ}
use hfw.Session.{Err}

-- The fields of the curl that Call sets.
pub record Curl (H : Type 0) : Type 0 where
  pub url : Text
  pub headers : H
  pub timeout : ℤ
  pub post_bytes : Text

-- `Response`: what a service answers.
pub record Response : Type 0 where
  pub err_no : ℤ
  pub err_msg : Text
  pub results : Text

pub record Net (H U S : Type 0) : Type 0 where
  pub no_headers : H
  pub header_set : Text → Text → H → H
  pub header_add : Text → Text → H → H
  pub header_del : Text → H → H
  pub parse_request_uri : Text → Option U
  pub scheme : U → Text
  pub parse_in : U → Text → U × Err
  pub url_string : U → Text
  pub intn : ℕ → ℕ
  pub int63n : ℕ → ℕ
  -- The error of the context where it is done before a try.
  pub done : ℕ → Err
  pub trace_id : ℕ → Text
  -- `Request`, at a try.
  pub request : ℕ → Curl H → S × Err
  pub status_code : S → ℤ
  -- `%d`
  pub decimal : ℤ → Text
  -- Whether the log level is DEBUG; `ReadAll` of the body, and the two ways to unmarshal it.
  pub is_debug : Bool
  pub read_all : S → Text × Err
  pub unmarshal : Text → Response × Err
  pub unmarshal_io : S → Response × Err

pub data CallOption : Type 0 where
  time_out : ℤ → CallOption
  add_headers : List (Text × Text) → CallOption
  del_headers : List Text → CallOption

module _ {H U S : Type 0} (net : Net H U S) where
  abbrev pub set_all : List (Text × Text) → H → H
  set_all [] h = h
  set_all ((k, v) ∷ rest) h = set_all rest (net.header_set k v h)

  abbrev pub add_all : List (Text × Text) → H → H
  add_all [] h = h
  add_all ((k, v) ∷ rest) h = add_all rest (net.header_add k v h)

  abbrev pub del_all : List Text → H → H
  del_all [] h = h
  del_all (k ∷ rest) h = del_all rest (net.header_del k h)

  -- `Do` of the three options, which return no error.
  abbrev pub do_option : CallOption → Curl H → Curl H
  do_option (time_out t) c = record c { timeout = t }
  do_option (add_headers hs) c = record c { headers = add_all hs c.headers }
  do_option (del_headers ks) c = record c { headers = del_all ks c.headers }

  abbrev pub do_options : List CallOption → Curl H → Curl H
  do_options [] c = c
  do_options (o ∷ os) c = do_options os (do_option o c)

  abbrev pub with_http : Text → Text
  with_http domain = if has_prefix domain (codes "http") then domain else codes "http://" ++ domain

  abbrev pub bad_url : Text → Text × Err
  bad_url domain = ([], some (codes "error url: [" ++ (domain ++ codes "]")))

  abbrev pub joined : U × Err → Text × Err
  joined (u, none) = (net.url_string u, none)
  joined (u, some err) = ([], some err)

  abbrev pub url_at : Text → Text → Option U → Text × Err
  url_at domain uri none = bad_url domain
  url_at domain uri (some u) =
      if is_nil (net.scheme u)
      then bad_url domain
      else if is_nil uri
      then (net.url_string u, none)
      else joined (net.parse_in u uri)

  abbrev pub url_of : Text → Text → Text × Err
  url_of domain uri = url_at (with_http domain) uri (net.parse_request_uri (with_http domain))

  -- `getApiUrl`; `none` where it indexes out of range.
  unfoldable pub get_api_url : List Text → Text → Option (Text × Err)
  unfolding has_prefix
  get_api_url [] uri = some ([], some (codes "nil addresses for call " ++ uri))
  get_api_url (a ∷ []) uri = some (url_of a uri)
  get_api_url (a ∷ b ∷ more) uri =
      elim (get_elem? (a ∷ b ∷ more) (net.intn (length (a ∷ b ∷ more)))) [
        | none ↦ none
        | some domain ↦ some (url_of domain uri)
      ]

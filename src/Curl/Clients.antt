-- ===== src/Curl/Clients.antt =====
-- The clients of net/http that curl/curl.go keeps for all curls, by their settings.
use hfw.Base.{
  ℕ, Bool, true, false, not, ◌==◌, List, [], ◌++◌, Option, none, some, ◌≡◌, ◌⊎◌, inl, inr,
  if◌then◌else◌,
}
use hfw.Base.Text.{Text, codes, is_nil}
use hfw.Base.Dict.{lookup, insert}

-- The settings of a curl.
pub record Settings : Type 0 where
  pub auto_redirect : Bool
  pub keep_alive : Bool
  pub proxy_url : Text

-- A client. Its CheckRedirect reads the settings of the curl that it was made for, by the curl's number.
pub record HttpClient : Type 0 where
  pub disable_keep_alives : Bool
  pub proxy : Option Text
  pub check_redirect : ℕ

-- `clientMap`, the curls, and which of them have asked for a client.
pub record Curls : Type 0 where
  pub settings : ℕ → Settings
  pub client_map : List (Text × HttpClient)
  pub has_asked : ℕ → Bool

abbrev bool_text : Bool → Text
bool_text true = codes "true"
bool_text false = codes "false"

unfoldable pub key_of : Bool → Bool → Text
key_of keep_alive auto_redirect = bool_text keep_alive ++ (codes "||" ++ bool_text auto_redirect)

abbrev pub new_client : ℕ → Settings → Option Text → HttpClient
new_client i s proxy = record {
  disable_keep_alives = not s.keep_alive;
  proxy = proxy;
  check_redirect = i;
}

abbrev pub asks : ℕ → Curls → Curls
asks i c = record c { has_asked = λ j. if i == j then true else c.has_asked j }

abbrev pub with_found : ℕ → Settings → Option HttpClient → Curls → (HttpClient ⊎ Text) × Curls
with_found i s (some hc) c = (inl hc, c)
with_found i s none c =
    let hc = new_client i s none in
    (inl hc, record c { client_map = insert (key_of s.keep_alive s.auto_redirect) hc c.client_map })

-- The host of the parsed URL of a proxy, empty if it has none, or an error.
abbrev pub with_proxy : ℕ → Settings → Text ⊎ Text → Curls → (HttpClient ⊎ Text) × Curls
with_proxy i s (inl host) c = (inl (new_client i s (if is_nil host then none else some host)), c)
with_proxy i s (inr e) c = (inr e, c)

module _ (parse_url : Text → Text ⊎ Text) where
  -- `getHttpClient`
  abbrev client_at : ℕ → Settings → Curls → (HttpClient ⊎ Text) × Curls
  unfolding key_of
  client_at i s c =
      if is_nil s.proxy_url
      then with_found i s (lookup (key_of s.keep_alive s.auto_redirect) c.client_map) c
      else with_proxy i s (parse_url s.proxy_url) c

  unfoldable pub get_http_client : ℕ → Curls → (HttpClient ⊎ Text) × Curls
  unfolding client_at
  get_http_client i c = client_at i (c.settings i) (asks i c)

  -- SetAutoRedirect, SetKeepAlive and SetProxy, which leave the other curls.
  abbrev pub set_settings : ℕ → Settings → Curls → Curls
  set_settings i s c = record c { settings = λ j. if i == j then s else c.settings j }

  pub data CurlStep : Curls → Curls → Type 0 where
    sets :
        {c : Curls}
        → (i : ℕ) (s : Settings) → c.has_asked i ≡ false
        → CurlStep c (set_settings i s c)
    gets : {c : Curls} → (i : ℕ) → CurlStep c (get_http_client i c).1

  pub data CurlReach : Curls → Type 0 where
    begins :
        (settings : ℕ → Settings)
        → CurlReach (record { settings = settings; client_map = []; has_asked = λ i. false })
    goes_on : {c c' : Curls} → CurlReach c → CurlStep c c' → CurlReach c'

  abbrev pub may_redirect : HttpClient → Curls → Bool
  may_redirect hc c = (c.settings hc.check_redirect).auto_redirect

  -- A client is as its key says, and was made for a curl that has asked.
  pub record Fits (keep_alive auto_redirect : Bool) (c : Curls) (hc : HttpClient) : Type 0 where
    pub keeps : hc.disable_keep_alives ≡ not keep_alive
    pub redirects : may_redirect hc c ≡ auto_redirect
    pub asked : c.has_asked hc.check_redirect ≡ true
    pub is_direct : hc.proxy ≡ none

  abbrev pub AllFit : Curls → Type 0
  AllFit c =
      (k a : Bool) (hc : HttpClient) → lookup (key_of k a) c.client_map ≡ some hc → Fits k a c hc

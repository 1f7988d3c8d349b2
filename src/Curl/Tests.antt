-- ===== src/Curl/Tests.antt =====
-- A curl with bytes to post, tried twice, and two curls with one client.
use hfw.Base.{true, false, [], ◌∷◌, none, some, ◌≡◌, refl, inr}
use hfw.Base.Text.{codes, text_eq}
use hfw.Base.Dict.{lookup, insert}
use hfw.Curl.{Posting, Lib, form_of, create_request}
use hfw.Curl.Bodies.{bodies, rests, bodies-rests}
use hfw.Curl.Clients.{Settings, Curls, CurlStep, CurlReach, get_http_client}
use hfw.Curl.Kept.{IsFor, get_http_client-IsFor}

abbrev lib : Lib
lib = record {
  encode = λ ps. codes "form";
  form_content_type = codes "multipart/form-data";
  copy_err = λ t. none;
  read_file = λ path. ([], none);
  new_request = λ method url. none;
}

abbrev post : Posting
post = record {
  url = codes "http://a/";
  method = codes "POST";
  headers = [];
  cookies = [];
  post_reader = none;
  post_bytes = codes "{}";
  post_string = [];
  post_fields = [];
  post_field_readers = [];
  post_files = [];
}

-- The cookies are added to the headers of the curl, again by each request.
cookies_twice :
    (create_request lib
      (create_request lib (record post { cookies = codes "a=1" ∷ [] })).1).1.headers
    ≡ (codes "Cookie", codes "a=1; a=1") ∷ []
unfolding create_request lookup insert text_eq
cookies_twice = refl

second_body_empty : bodies lib (2 ∷ 2 ∷ []) post ≡ some (codes "{}") ∷ some [] ∷ []
unfolding create_request
second_body_empty = refl

bodies-rests_example : bodies lib (2 ∷ 2 ∷ []) post ≡ rests lib (2 ∷ 2 ∷ []) (codes "{}")
unfolding form_of
bodies-rests_example = bodies-rests lib (2 ∷ 2 ∷ []) post (codes "{}") refl refl

abbrev plain : Settings
plain = record { auto_redirect = false; keep_alive = true; proxy_url = [] }

abbrev curls : Curls
curls = record { settings = λ i. plain; client_map = []; has_asked = λ i. false }

get_http_client-IsFor_example :
    IsFor inr plain (get_http_client inr 1 (get_http_client inr 0 curls).1)
unfolding get_http_client lookup
get_http_client-IsFor_example =
    get_http_client-IsFor inr (CurlReach.goes_on (CurlReach.begins (λ i. plain)) (CurlStep.gets 0))
      1

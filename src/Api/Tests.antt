-- ===== src/Api/Tests.antt =====
-- A service at three addresses, whose first answer is lost.
use hfw.Base.{false, ℕ, zero, suc, ◌<◌, true, List, [], ◌∷◌, ◌++◌, none, some, ◌≡◌, refl, arith}
use hfw.Base.Text.{Text, codes, has_prefix}
use hfw.Base.Int.{pos}
use hfw.Session.{Err}
use hfw.Discovery.{ConsulResolver, robin_policy, got, get_address}
use hfw.Discovery.Robin.{after_calls, get_address_fair}
use hfw.Api.{of_resolver, call, tries, concluded, read_body, at_start, at_address}
use hfw.Api.Urls.{Response, Net, get_api_url}
use hfw.Api.Tries.{IsAnswered, call-IsAnswered}
use hfw.Api.Turns.{InTurn, call-InTurn}

abbrev replies : ℕ → ℕ × Err
replies zero = (0, some (codes "connection refused"))
replies (suc i) = (200, none)

abbrev listing : Response
listing = record { err_no = pos 0; err_msg = []; results = codes "ok" }

abbrev net : Net (List Text) Text ℕ
net = record {
  no_headers = [];
  header_set = λ k v h. k ∷ h;
  header_add = λ k v h. k ∷ h;
  header_del = λ k h. h;
  parse_request_uri = λ t. some t;
  scheme = λ u. codes "http";
  parse_in = λ u uri. (u ++ uri, none);
  url_string = λ u. u;
  intn = λ n. 0;
  int63n = λ n. 0;
  done = λ i. none;
  trace_id = λ i. codes "t1";
  request = λ i c. replies i;
  status_code = λ s. pos s;
  decimal = λ n. codes "200";
  is_debug = false;
  read_all = λ s. (codes "{}", none);
  unmarshal = λ t. (listing, none);
  unmarshal_io = λ s. (listing, none);
}

abbrev users : ConsulResolver
users = record {
  service_name = codes "users";
  tags = [];
  passing_only = true;
  addresses = codes "10.0.0.1:80" ∷ codes "10.0.0.2:80" ∷ codes "10.0.0.3:80" ∷ [];
  has_tags = [];
  policy = robin_policy;
  lb_index = 7;
  wait_index = 1;
}

get_address_fair_example :
    (j : ℕ) × (j < 3)
    × ((get_address (λ n. 0) (after_calls (λ n. 0) j users)).0 ≡ got (codes "10.0.0.3:80"))
get_address_fair_example =
    get_address_fair (λ n. 0) users 2 (omega arith) (λ e. cc e) (omega arith) (omega arith)

call-IsAnswered_example :
    IsAnswered net
      (call net none [] (of_resolver (some users)) (codes "/list") (codes "{}", none) [])
unfolding call tries at_start at_address get_address get_api_url has_prefix concluded read_body
call-IsAnswered_example =
    call-IsAnswered net none [] (of_resolver (some users)) (codes "/list") (codes "{}", none) []
      refl

call-InTurn_example :
    InTurn net users
      (codes "/list")
      (call net none [] (of_resolver (some users)) (codes "/list") (codes "{}", none) []).1.sent
call-InTurn_example =
    call-InTurn net users (codes "/list") (omega arith) (λ e. cc e) (omega arith) none []
      (codes "{}", none) []

-- ===== src/Grpc/Tests.antt =====
-- A service at two addresses, which answers the second call.
use hfw.Base.{ℕ, zero, suc, true, false, [], ◌∷◌, Option, none, some, ◌≡◌, refl}
use hfw.Base.Text.{Text, codes, text_eq}
use hfw.Base.Dict.{lookup}
use hfw.Session.{Err}
use hfw.Grpc.{GrpcConfig, Clients, conn, Lib, complete_resolver_scheme, get_conn_with_auth}
use hfw.Grpc.Do.{GrpcErr, plain, conn_of, grpc_do}
use hfw.Grpc.Shared.{after_requests, get_conn_again}
use hfw.Grpc.Tries.{IsDone, grpc_do-IsDone}

abbrev lib : Lib
lib = record {
  dial_context = λ n address opts. none;
  resolver_func = λ t. none;
  app_path = codes "/app/";
  join = λ a b. b;
  is_abs = λ t. true;
  is_exist = λ t. false;
  tls_from_file = λ c n. none;
}

abbrev config : GrpcConfig
config = record {
  server_name = codes "pay";
  tag = [];
  resolver_type = codes "static";
  resolver_scheme = codes "pay_scheme";
  resolver_addresses = [];
  balancer_name = [];
  addresses = codes "a:80" ∷ codes "b:80" ∷ [];
  cert_file = [];
  is_auth = false;
}

abbrev no_conn : Clients
no_conn = record { conn_instance_map = []; resolvers = []; dials = [] }

abbrev with_token : GrpcConfig
with_token = record config { is_auth = true }

abbrev untyped : GrpcConfig
untyped = record config { resolver_scheme = []; resolver_type = [] }

with_token_whole : (complete_resolver_scheme with_token).1 ≡ none
unfolding complete_resolver_scheme
with_token_whole = refl

with_token_scheme :
    (complete_resolver_scheme with_token).0.resolver_scheme
    ≡ (complete_resolver_scheme config).0.resolver_scheme
unfolding complete_resolver_scheme
with_token_scheme = refl

abbrev second : ℕ → ℕ → Text × Option GrpcErr
second n zero = ([], some (plain (codes "unavailable")))
second n (suc i) = (codes "paid", none)

first_dial : (get_conn_with_auth lib config [] [] no_conn).0 ≡ conn 0
unfolding get_conn_with_auth lookup text_eq
first_dial = refl

-- The token is not sent: the connection without one is shared.
get_conn_again_example :
    get_conn_with_auth lib with_token
      (codes "token")
      []
      (after_requests lib ((untyped, [], []) ∷ []) (get_conn_with_auth lib config [] [] no_conn).1)
    ≡ (
      conn 0,
      after_requests lib ((untyped, [], []) ∷ []) (get_conn_with_auth lib config [] [] no_conn).1,
    )
get_conn_again_example =
    get_conn_again lib config with_token [] (codes "token") [] [] ((untyped, [], []) ∷ []) no_conn 0
      first_dial refl with_token_whole with_token_scheme

abbrev never : ℕ → Err
never i = none

grpc_do-IsDone_example :
    IsDone [] lib never second config
      (conn_of [] lib never second config [] no_conn).0
      (grpc_do [] lib never second config [] no_conn).0
grpc_do-IsDone_example = grpc_do-IsDone [] lib never second config [] no_conn

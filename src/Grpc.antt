-- ===== src/Grpc.antt =====
-- Calls over gRPC: grpc/client/conn.go and do.go, with the resolver scheme of grpc/discovery/resolver. The
-- dials of grpc-go, the resolvers of consul and etcd, the file system and the calls are parameters.
pub mod Kept
pub mod Shared
pub mod Untyped
pub mod Do
pub mod Tries
mod Tests
use hfw.Base.{
  ℕ, zero, suc, ◌+◌, ◌-◌, Bool, true, false, not, ◌&&◌, List, [], ◌∷◌, ◌++◌, Option, none, some,
  if◌then◌else◌, length, ltb,
}
use hfw.Base.Text.{Text, codes, is_nil, contains, text_eq}
use hfw.Base.Dict.{lookup, insert}
use hfw.Base.Int.{ℤ, pos}
use hfw.Session.{Err}

-- `configs.GrpcConfig`
pub record GrpcConfig : Type 0 where
  pub server_name : Text
  pub tag : Text
  pub resolver_type : Text
  pub resolver_scheme : Text
  pub resolver_addresses : List Text
  pub balancer_name : Text
  pub addresses : List Text
  pub cert_file : Text
  pub is_auth : Bool

-- The options of a dial.
pub data DialOption : Type 0 where
  unary_interceptor stream_interceptor insecure keepalive : DialOption
  load_balancing : Text → DialOption
  per_rpc_credentials : (https : Bool) (value : Text) → DialOption
  transport_credentials : (cert_file server_name : Text) → DialOption
  other_option : Text → DialOption

pub record StaticBuilder : Type 0 where
  pub scheme : Text
  pub service_name : Text
  pub addrs : List Text

-- The package variables; a connection is known by how many dials were made before its own.
pub record Clients : Type 0 where
  pub conn_instance_map : List (Text × Option ℕ)
  pub resolvers : List (Text × StaticBuilder)
  pub dials : List (Text × List DialOption)

pub data ConnResult : Type 0 where
  conn : ℕ → ConnResult
  refused : Text → ConnResult

pub record Lib : Type 0 where
  -- `DialContext`, the n-th one.
  pub dial_context : ℕ → Text → List DialOption → Err
  -- `ResolverFuncMap` for consul and etcd.
  pub resolver_func : Text → Option (GrpcConfig → Text × Err)
  pub app_path : Text
  pub join : Text → Text → Text
  pub is_abs : Text → Bool
  pub is_exist : Text → Bool
  -- The error of `NewClientTLSFromFile`.
  pub tls_from_file : Text → Text → Err

abbrev pub static_resolver : Text
static_resolver = codes "static"

abbrev pub scheme_of : GrpcConfig → Text → Text
scheme_of c address =
    c.resolver_type
    ++ (codes "_" ++ (c.server_name ++ (codes "_" ++ (c.tag ++ (codes "_" ++ address)))))

abbrev pub with_scheme : GrpcConfig → List Text → GrpcConfig × Err
with_scheme c [] = (c, some (codes "please specify grpc " ++ (c.server_name ++ codes " Addresses")))
with_scheme c (a ∷ more) = (record c { resolver_scheme = scheme_of c a }, none)

-- `CompleteResolverScheme`
unfoldable pub complete_resolver_scheme : GrpcConfig → GrpcConfig × Err
complete_resolver_scheme c =
    if not (is_nil c.resolver_scheme)
    then (c, none)
    else if text_eq c.resolver_type static_resolver
    then with_scheme c c.addresses
    else with_scheme c c.resolver_addresses

-- `GenerateAndRegisterStaticResolver`, once it knows the scheme.
abbrev pub registered_static : GrpcConfig → Option StaticBuilder → Clients → (Text × Err) × Clients
registered_static c (some b) s = ((c.resolver_scheme, none), s)
registered_static c none s =
    let b : StaticBuilder = record {
      scheme = c.resolver_scheme;
      service_name = c.server_name;
      addrs = c.addresses;
    } in
    ((b.scheme, none), record s { resolvers = insert b.scheme b s.resolvers })

abbrev pub register_static : GrpcConfig × Err → Clients → (Text × Err) × Clients
register_static (c, some e) s = (([], some e), s)
register_static (c, none) s = registered_static c (lookup c.resolver_scheme s.resolvers) s

abbrev pub static_with : GrpcConfig → List Text → Clients → (Text × Err) × Clients
static_with c [] s = (([], some (codes "GrpcConfig has nil Addresses")), s)
static_with c (a ∷ more) s = register_static (complete_resolver_scheme c) s

unfoldable pub generate_and_register_static_resolver : GrpcConfig → Clients → (Text × Err) × Clients
unfolding complete_resolver_scheme
generate_and_register_static_resolver c s = static_with c c.addresses s

abbrev pub balancer_of : Text → Text
balancer_of name =
    if text_eq name (codes "round_robin")
    then codes "round_robin"
    else if text_eq name (codes "pick_first")
    then codes "pick_first"
    else codes "p2c"

abbrev pub with_interceptors : List DialOption → List DialOption
with_interceptors opts = DialOption.unary_interceptor ∷ DialOption.stream_interceptor ∷ opts

module _ (lib : Lib) where
  -- `GetAndRegisterResolver`
  abbrev pub with_func :
      Option (GrpcConfig → Text × Err) → GrpcConfig → Clients → (Text × Err) × Clients
  with_func (some f) c s = (f c, s)
  with_func none c s =
      generate_and_register_static_resolver (record c { resolver_type = static_resolver }) s

  unfoldable pub get_and_register_resolver : GrpcConfig → Clients → (Text × Err) × Clients
  unfolding generate_and_register_static_resolver
  get_and_register_resolver c s =
      if text_eq c.resolver_type static_resolver
      then generate_and_register_static_resolver c s
      else with_func (lib.resolver_func c.resolver_type) c s

  abbrev pub dialed : Err → Clients → ConnResult × Clients
  dialed (some e) s = (refused e, s)
  dialed none s = (conn (length s.dials - 1), s)

  abbrev pub dial : Text → List DialOption → Clients → ConnResult × Clients
  dial address opts s =
      dialed (lib.dial_context (length s.dials) address opts)
        (record s { dials = (address, opts) ∷ s.dials })

  -- `NewClientConn`, `NewClientConnWithSecurity`
  unfoldable pub new_client_conn_plain : Text → List DialOption → Clients → ConnResult × Clients
  new_client_conn_plain address opts s =
      if is_nil address
      then (refused (codes "nil address"), s)
      else dial address (DialOption.insecure ∷ DialOption.keepalive ∷ opts) s

  abbrev pub with_creds :
      Err → Text → Text → Text → List DialOption → Clients → ConnResult × Clients
  with_creds (some e) address cert_file server_name opts s = (refused e, s)
  with_creds none address cert_file server_name opts s =
      dial address
        (opts
          ++ (DialOption.transport_credentials cert_file server_name ∷ DialOption.keepalive ∷ []))
        s

  unfoldable pub new_client_conn_with_security :
      Text → Text → Text → List DialOption → Clients → ConnResult × Clients
  new_client_conn_with_security address cert_file server_name opts s =
      let cert = if lib.is_exist cert_file then cert_file else lib.join lib.app_path cert_file in
      if not (is_nil address) && (not (is_nil server_name) && lib.is_exist cert)
      then with_creds (lib.tls_from_file cert server_name) address cert server_name opts s
      else (refused (codes "nil address or serverName or certFile not exist"), s)

  abbrev pub balanced_opts : Text → GrpcConfig → List DialOption → List DialOption
  balanced_opts address c opts =
      if contains address (codes ":///")
      then opts ++ (DialOption.load_balancing (balancer_of c.balancer_name) ∷ [])
      else opts

  abbrev pub with_auth : Bool → Bool → Text → List DialOption → List DialOption
  with_auth https is_auth value opts =
      if is_auth then opts ++ (DialOption.per_rpc_credentials https value ∷ []) else opts

  -- The certificate of `newClientConn`, and whether it is missing.
  abbrev pub is_relative : GrpcConfig → Bool
  is_relative c = not (is_nil c.cert_file) && not (lib.is_abs c.cert_file)

  abbrev pub cert_of : GrpcConfig → Text
  cert_of c = if is_relative c then lib.join lib.app_path c.cert_file else c.cert_file

  unfoldable pub new_client_conn :
      Text → GrpcConfig → Text → List DialOption → Clients → ConnResult × Clients
  unfolding new_client_conn_plain new_client_conn_with_security
  new_client_conn address c value opts s =
      let cert = cert_of c in
      let opts' = balanced_opts address c opts in
      if is_relative c && not (lib.is_exist cert)
      then (refused (codes "cert file: " ++ (cert ++ codes " not exist")), s)
      else if not (is_nil c.server_name) && (not (is_nil cert) && lib.is_exist cert)
      then new_client_conn_with_security address cert c.server_name
          (with_auth true c.is_auth value opts') s
      else new_client_conn_plain address (with_auth false c.is_auth value opts') s

  -- The rest of `GetConnWithAuth`, from the last step back to the first.
  abbrev pub keep_conn : Text → ConnResult × Clients → ConnResult × Clients
  keep_conn key (refused e, s) = (refused e, s)
  keep_conn key (conn n, s) =
      (conn n, record s { conn_instance_map = insert key (some n) s.conn_instance_map })

  abbrev pub with_resolver :
      GrpcConfig → Text → List DialOption → (Text × Err) × Clients → ConnResult × Clients
  with_resolver c value opts ((scheme, some e), s) = (refused e, s)
  with_resolver c value opts ((scheme, none), s) =
      keep_conn c.resolver_scheme
        (new_client_conn (scheme ++ (codes ":///" ++ c.server_name)) c value opts s)

  abbrev pub at_instance :
      GrpcConfig → Text → List DialOption → Option (Option ℕ) → Clients → ConnResult × Clients
  at_instance c value opts (some (some n)) s = (conn n, s)
  at_instance c value opts (some none) s =
      with_resolver c value opts (get_and_register_resolver c s)
  at_instance c value opts none s = with_resolver c value opts (
      get_and_register_resolver c
        (record s { conn_instance_map = insert c.resolver_scheme none s.conn_instance_map }))

  abbrev pub completed : Text → List DialOption → GrpcConfig × Err → Clients → ConnResult × Clients
  completed value opts (c, some e) s = (refused e, s)
  completed value opts (c, none) s =
      at_instance c value opts (lookup c.resolver_scheme s.conn_instance_map) s

  unfoldable pub get_conn_with_auth :
      GrpcConfig → Text → List DialOption → Clients → ConnResult × Clients
  unfolding complete_resolver_scheme get_and_register_resolver new_client_conn
  get_conn_with_auth c value opts s =
      if is_nil c.server_name
      then (refused (codes "please specify grpc ServerName"), s)
      else completed value opts (complete_resolver_scheme c) s

  -- `GetConnWithDefaultInterceptor`
  abbrev pub get_conn : GrpcConfig → List DialOption → Clients → ConnResult × Clients
  get_conn c opts s = get_conn_with_auth c [] (with_interceptors opts) s

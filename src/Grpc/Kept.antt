-- ===== src/Grpc/Kept.antt =====
-- What grpc/client/conn.go keeps: a connection that is shared stays so.
use hfw.Base.{
  ℕ, Bool, true, false, List, [], ◌∷◌, Option, none, some, ◌≡◌, refl, sym, ◌∙◌, subst,
  if◌then◌else◌, arith, length, not, ◌&&◌, ◌++◌,
}
use hfw.Base.Text.{Text, codes, is_nil}
use hfw.Base.Text.Laws.{text_eq_iff}
use hfw.Base.Dict.{lookup, insert, lookup-insert, lookup-insert_self, lookup-insert_absent}
use hfw.Session.{Err}
use hfw.Grpc.{
  GrpcConfig, DialOption, StaticBuilder, Clients, ConnResult, conn, refused, Lib, static_resolver,
  complete_resolver_scheme, registered_static, register_static, static_with,
  generate_and_register_static_resolver, with_func, get_and_register_resolver, dialed, dial,
  new_client_conn_plain, with_creds, new_client_conn_with_security, new_client_conn, cert_of,
  is_relative, balanced_opts, with_auth, keep_conn, with_resolver, at_instance, completed,
  get_conn_with_auth,
}

module _ {A : Type 0} where
  -- A step that leaves the map of the connections.
  unfoldable Leaves : Clients → A × Clients → Type 0
  Leaves s p = p.1.conn_instance_map ≡ s.conn_instance_map

  same : (s : Clients) (a : A) → Leaves s (a, s)
  unfolding Leaves
  same s a = refl

  either-Leaves :
      (s : Clients) (b : Bool) (p q : A × Clients)
      → Leaves s p
      → Leaves s q
      → Leaves s (if b then p else q)
  unfolding Leaves
  either-Leaves s true p q h k = h
  either-Leaves s false p q h k = k

registered_static-Leaves :
    (c : GrpcConfig) (o : Option StaticBuilder) (s : Clients) → Leaves s (registered_static c o s)
unfolding Leaves
registered_static-Leaves c (some b) s = refl
registered_static-Leaves c none s = refl

register-Leaves : (p : GrpcConfig × Err) (s : Clients) → Leaves s (register_static p s)
register-Leaves (c, some e) s = same s _
register-Leaves (c, none) s = registered_static-Leaves c (lookup c.resolver_scheme s.resolvers) s

static-Leaves : (c : GrpcConfig) (l : List Text) (s : Clients) → Leaves s (static_with c l s)
static-Leaves c [] s = same s _
static-Leaves c (a ∷ more) s = register-Leaves (complete_resolver_scheme c) s

module _ (lib : Lib) where
  with_func-Leaves :
      (f : Option (GrpcConfig → Text × Err)) (c : GrpcConfig) (s : Clients)
      → Leaves s (with_func lib f c s)
  unfolding generate_and_register_static_resolver
  with_func-Leaves (some f) c s = same s _
  with_func-Leaves none c s =
      static-Leaves (record c { resolver_type = static_resolver }) c.addresses s

  get_and_register-Leaves :
      (c : GrpcConfig) (s : Clients) → Leaves s (get_and_register_resolver lib c s)
  unfolding get_and_register_resolver generate_and_register_static_resolver
  get_and_register-Leaves c s =
      either-Leaves s _ _ _ (static-Leaves c c.addresses s)
        (with_func-Leaves (lib.resolver_func c.resolver_type) c s)

  dialed-Leaves : (e : Err) (s : Clients) → Leaves s (dialed lib e s)
  unfolding Leaves
  dialed-Leaves (some e) s = refl
  dialed-Leaves none s = refl

  dial-Leaves :
      (address : Text) (opts : List DialOption) (s : Clients) → Leaves s (dial lib address opts s)
  unfolding Leaves
  dial-Leaves address opts s = dialed-Leaves (lib.dial_context (length s.dials) address opts) _

  plain-Leaves :
      (address : Text) (opts : List DialOption) (s : Clients)
      → Leaves s (new_client_conn_plain lib address opts s)
  unfolding new_client_conn_plain
  plain-Leaves address opts s =
      either-Leaves s (is_nil address) _ _ (same s (refused (codes "nil address")))
        (dial-Leaves address (DialOption.insecure ∷ DialOption.keepalive ∷ opts) s)

  creds-Leaves :
      (e : Err) (address cert name : Text) (opts : List DialOption) (s : Clients)
      → Leaves s (with_creds lib e address cert name opts s)
  creds-Leaves (some e) address cert name opts s = same s _
  creds-Leaves none address cert name opts s = dial-Leaves address _ s

  security-Leaves :
      (address cert name : Text) (opts : List DialOption) (s : Clients)
      → Leaves s (new_client_conn_with_security lib address cert name opts s)
  unfolding new_client_conn_with_security
  security-Leaves address cert name opts s =
      let cert' = if lib.is_exist cert then cert else lib.join lib.app_path cert in
      either-Leaves s (not (is_nil address) && (not (is_nil name) && lib.is_exist cert')) _ _
        (creds-Leaves (lib.tls_from_file cert' name) address cert' name opts s)
        (same s (refused (codes "nil address or serverName or certFile not exist")))

  new_client_conn-Leaves :
      (address : Text) (c : GrpcConfig) (value : Text) (opts : List DialOption) (s : Clients)
      → Leaves s (new_client_conn lib address c value opts s)
  unfolding new_client_conn
  new_client_conn-Leaves address c value opts s =
      let cert = cert_of lib c in
      let opts' = balanced_opts lib address c opts in
      either-Leaves s (is_relative lib c && not (lib.is_exist cert)) _ _
        (same s (refused (codes "cert file: " ++ (cert ++ codes " not exist"))))
        (either-Leaves s (not (is_nil c.server_name) && (not (is_nil cert) && lib.is_exist cert)) _
          _
          (security-Leaves address cert c.server_name (with_auth lib true c.is_auth value opts') s)
          (plain-Leaves address (with_auth lib false c.is_auth value opts') s))

  -- The scheme of a connection, and the connection.
  abbrev pub IsShared : Text → ℕ → Clients → Type 0
  IsShared key n s = lookup key s.conn_instance_map ≡ some (some n)

  -- What is shared stays so.
  abbrev pub Keeps : Clients → ConnResult × Clients → Type 0
  Keeps s p = (key : Text) (n : ℕ) → IsShared key n s → IsShared key n p.1

  Leaves-Keeps :
      {A : Type 0} (s : Clients) (p : A × Clients) (key : Text) (n : ℕ)
      → Leaves s p
      → IsShared key n s
      → IsShared key n p.1
  unfolding Leaves
  Leaves-Keeps s p key n l h = subst (λ m. lookup key m ≡ some (some n)) (sym l) h

  keep-Keeps :
      (key : Text) (s : Clients) (p : ConnResult × Clients)
      → lookup key s.conn_instance_map ≡ some none
      → Leaves s p
      → Keeps s (keep_conn lib key p)
  unfolding Leaves
  keep-Keeps key s (refused e, s') absent l j n h = Leaves-Keeps s (refused e, s') j n l h
  keep-Keeps key s (conn m, s') absent l j n h =
      ground (arith, lookup-insert key j (some m) s'.conn_instance_map, text_eq_iff key j, l)

  with_resolver-Keeps :
      (c : GrpcConfig) (value : Text) (opts : List DialOption) (s : Clients)
      (p : (Text × Err) × Clients)
      → lookup c.resolver_scheme s.conn_instance_map ≡ some none
      → Leaves s p
      → Keeps s (with_resolver lib c value opts p)
  unfolding Leaves
  with_resolver-Keeps c value opts s ((scheme, some e), s') absent l j n h =
      Leaves-Keeps {A = Text × Err} s ((scheme, some e), s') j n l h
  with_resolver-Keeps c value opts s ((scheme, none), s') absent l j n h =
      let address = scheme ++ (codes ":///" ++ c.server_name) in
      keep-Keeps c.resolver_scheme s (new_client_conn lib address c value opts s') absent
        (new_client_conn-Leaves address c value opts s' ∙ l) j n h

  at_instance-Keeps :
      (c : GrpcConfig) (value : Text) (opts : List DialOption) (o : Option (Option ℕ)) (s : Clients)
      → lookup c.resolver_scheme s.conn_instance_map ≡ o
      → Keeps s (at_instance lib c value opts o s)
  at_instance-Keeps c value opts (some (some n)) s e j m h = h
  at_instance-Keeps c value opts (some none) s e j n h =
      with_resolver-Keeps c value opts s (get_and_register_resolver lib c s) e
        (get_and_register-Leaves c s) j n h
  at_instance-Keeps c value opts none s e j n h =
      let s' = record s { conn_instance_map = insert c.resolver_scheme none s.conn_instance_map } in
      with_resolver-Keeps c value opts s' (get_and_register_resolver lib c s')
        (lookup-insert_self c.resolver_scheme none s.conn_instance_map)
        (get_and_register-Leaves c s') j n
        (lookup-insert_absent c.resolver_scheme j none (some n) s.conn_instance_map e h)

  completed-Keeps :
      (value : Text) (opts : List DialOption) (p : GrpcConfig × Err) (s : Clients)
      → Keeps s (completed lib value opts p s)
  completed-Keeps value opts (c, some e) s j n h = h
  completed-Keeps value opts (c, none) s j n h =
      at_instance-Keeps c value opts (lookup c.resolver_scheme s.conn_instance_map) s refl j n h

  either-Keeps :
      (s : Clients) (b : Bool) (p q : ConnResult × Clients)
      → Keeps s p
      → Keeps s q
      → Keeps s (if b then p else q)
  either-Keeps s true p q h k = h
  either-Keeps s false p q h k = k

  pub get_conn-Keeps :
      (c : GrpcConfig) (value : Text) (opts : List DialOption) (s : Clients)
      → Keeps s (get_conn_with_auth lib c value opts s)
  unfolding get_conn_with_auth
  get_conn-Keeps c value opts s =
      either-Keeps s (is_nil c.server_name) (refused (codes "please specify grpc ServerName"), s)
        (completed lib value opts (complete_resolver_scheme c) s) (λ j n h. h)
        (completed-Keeps value opts (complete_resolver_scheme c) s)

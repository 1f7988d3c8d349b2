-- ===== src/Grpc/Shared.antt =====
-- The connections that grpc/client/conn.go shares.
use hfw.Base.{
  ℕ, Bool, true, false, List, [], ◌∷◌, Option, none, some, ◌≡◌, refl, sym, ap, ◌∙◌, subst,
  if◌then◌else◌, ◌++◌,
}
use hfw.Base.Text.{Text, codes, is_nil}
use hfw.Base.Dict.{lookup, insert, lookup-insert_self}
use hfw.Session.{Err}
use hfw.Grpc.{
  GrpcConfig, DialOption, Clients, ConnResult, conn, refused, Lib, complete_resolver_scheme,
  get_and_register_resolver, new_client_conn, keep_conn, with_resolver, at_instance, completed,
  get_conn_with_auth,
}
use hfw.Grpc.Kept.{IsShared, get_conn-Keeps}

module _ (lib : Lib) where
  abbrev number : ConnResult → Option ℕ
  number (refused e) = none
  number (conn n) = some n

  -- A connection that is returned is shared under the scheme.
  abbrev Gives : Text → ConnResult × Clients → Type 0
  Gives key p = (n : ℕ) → p.0 ≡ conn n → IsShared lib key n p.1

  keep-Gives : (key : Text) (p : ConnResult × Clients) → Gives key (keep_conn lib key p)
  keep-Gives key (refused e, s) n h = absurd (cc h)
  keep-Gives key (conn m, s) n h =
      lookup-insert_self key (some m) s.conn_instance_map ∙ ap (λ r. some (number r)) h

  with_resolver-Gives :
      (c : GrpcConfig) (value : Text) (opts : List DialOption) (p : (Text × Err) × Clients)
      → Gives c.resolver_scheme (with_resolver lib c value opts p)
  with_resolver-Gives c value opts ((scheme, some e), s) n h = absurd (cc h)
  with_resolver-Gives c value opts ((scheme, none), s) n h =
      let address = scheme ++ (codes ":///" ++ c.server_name) in
      keep-Gives c.resolver_scheme (new_client_conn lib address c value opts s) n h

  at_instance-Gives :
      (c : GrpcConfig) (value : Text) (opts : List DialOption) (o : Option (Option ℕ)) (s : Clients)
      → lookup c.resolver_scheme s.conn_instance_map ≡ o
      → Gives c.resolver_scheme (at_instance lib c value opts o s)
  at_instance-Gives c value opts (some (some m)) s e n h = e ∙ ap (λ r. some (number r)) h
  at_instance-Gives c value opts (some none) s e n h =
      with_resolver-Gives c value opts (get_and_register_resolver lib c s) n h
  at_instance-Gives c value opts none s e n h =
      let s' = record s { conn_instance_map = insert c.resolver_scheme none s.conn_instance_map } in
      with_resolver-Gives c value opts (get_and_register_resolver lib c s') n h

  completed-Gives :
      (value : Text) (opts : List DialOption) (p : GrpcConfig × Err) (s : Clients)
      → Gives p.0.resolver_scheme (completed lib value opts p s)
  completed-Gives value opts (c, some e) s n h = absurd (cc h)
  completed-Gives value opts (c, none) s n h =
      at_instance-Gives c value opts (lookup c.resolver_scheme s.conn_instance_map) s refl n h

  named-Gives :
      (key : Text) (b : Bool) (s : Clients) (q : ConnResult × Clients)
      → Gives key q
      → Gives key (if b then (refused (codes "please specify grpc ServerName"), s) else q)
  named-Gives key true s q k n h = absurd (cc h)
  named-Gives key false s q k n h = k n h

  -- Requests for connections, one after the other.
  abbrev pub after_requests : List (GrpcConfig × Text × List DialOption) → Clients → Clients
  after_requests [] s = s
  after_requests ((c, value, opts) ∷ rest) s =
      after_requests rest (get_conn_with_auth lib c value opts s).1

  after-Keeps :
      (requests : List (GrpcConfig × Text × List DialOption)) (s : Clients) (key : Text) (n : ℕ)
      → IsShared lib key n s
      → IsShared lib key n (after_requests requests s)
  after-Keeps [] s key n h = h
  after-Keeps ((c, value, opts) ∷ rest) s key n h =
      after-Keeps rest (get_conn_with_auth lib c value opts s).1 key n
        (get_conn-Keeps lib c value opts s key n h)

  again :
      (b : Bool) (value : Text) (opts : List DialOption) (p : GrpcConfig × Err) (n : ℕ)
      (s : Clients)
      → b ≡ false
      → p.1 ≡ none
      → IsShared lib p.0.resolver_scheme n s
      → (if b
          then (refused (codes "please specify grpc ServerName"), s)
          else completed lib value opts p s)
        ≡ (conn n, s)
  again true value opts p n s b e h = absurd (cc b)
  again false value opts (c, some err) n s b e h = absurd (cc e)
  again false value opts (c, none) n s b e h = ap (λ o. at_instance lib c value opts o s) h

  -- Once a connection was given for a configuration, and whatever was asked for since, a configuration with
  -- the same resolver scheme and a server's name gets that connection, and nothing is dialed or changed:
  -- also where its server, its certificate or its authentication is another.
  pub get_conn_again :
      (c d : GrpcConfig) (value value' : Text) (opts opts' : List DialOption)
      (between : List (GrpcConfig × Text × List DialOption)) (s : Clients) (n : ℕ)
      → (get_conn_with_auth lib c value opts s).0 ≡ conn n
      → is_nil d.server_name ≡ false
      → (complete_resolver_scheme d).1 ≡ none
      → (complete_resolver_scheme d).0.resolver_scheme
        ≡ (complete_resolver_scheme c).0.resolver_scheme
      → get_conn_with_auth lib d value' opts'
          (after_requests between (get_conn_with_auth lib c value opts s).1)
        ≡ (conn n, after_requests between (get_conn_with_auth lib c value opts s).1)
  unfolding get_conn_with_auth
  get_conn_again c d value value' opts opts' between s n given named whole same_scheme =
      let s' = (get_conn_with_auth lib c value opts s).1 in
      let shared : IsShared lib (complete_resolver_scheme c).0.resolver_scheme n s' =
        named-Gives (complete_resolver_scheme c).0.resolver_scheme (is_nil c.server_name) s
          (completed lib value opts (complete_resolver_scheme c) s)
          (completed-Gives value opts (complete_resolver_scheme c) s) n given in
      again (is_nil d.server_name) value' opts' (complete_resolver_scheme d) n
        (after_requests between s') named whole
        (subst (λ key. IsShared lib key n (after_requests between s')) (sym same_scheme)
          (after-Keeps between s' (complete_resolver_scheme c).0.resolver_scheme n shared))

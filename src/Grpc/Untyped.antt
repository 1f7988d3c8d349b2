-- ===== src/Grpc/Untyped.antt =====
-- What grpc/client/conn.go does without a type of the resolver.
use hfw.Base.{Bool, true, false, List, [], some, ◌≡◌, refl, ap, if◌then◌else◌, ◌++◌}
use hfw.Base.Text.{Text, codes, is_nil, text_eq}
use hfw.Grpc.{
  GrpcConfig, DialOption, Clients, ConnResult, refused, Lib, complete_resolver_scheme, completed,
  get_conn_with_auth,
}

module _ (lib : Lib) where
  named_or :
      (b : Bool) (e : Text) (s : Clients) (p : ConnResult × Clients)
      → p ≡ (refused e, s)
      → (m : Text) × ((if b then (refused (codes "please specify grpc ServerName"), s) else p)
          ≡ (refused m, s))
  named_or true e s p h = (codes "please specify grpc ServerName", refl)
  named_or false e s p h = (e, h)

  incomplete :
      (c : GrpcConfig)
      → c.resolver_scheme ≡ []
      → c.resolver_type ≡ []
      → c.resolver_addresses ≡ []
      → complete_resolver_scheme c
        ≡ (c, some (codes "please specify grpc " ++ (c.server_name ++ codes " Addresses")))
  unfolding complete_resolver_scheme text_eq
  incomplete c scheme type addresses = rw (scheme, type, addresses) refl

  -- Without a scheme and a type of the resolver, a configuration whose servers are given by their addresses
  -- gets no connection, and nothing is dialed: only the addresses of a resolver are looked for.
  get_conn_untyped :
      (c : GrpcConfig) (value : Text) (opts : List DialOption) (s : Clients)
      → c.resolver_scheme ≡ []
      → c.resolver_type ≡ []
      → c.resolver_addresses ≡ []
      → (e : Text) × (get_conn_with_auth lib c value opts s ≡ (refused e, s))
  unfolding get_conn_with_auth complete_resolver_scheme
  get_conn_untyped c value opts s scheme type addresses =
      named_or (is_nil c.server_name) _ s (completed lib value opts (complete_resolver_scheme c) s)
        (ap (λ p. completed lib value opts p s) (incomplete c scheme type addresses))

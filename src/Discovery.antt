-- ===== src/Discovery.antt =====
-- The resolver of service/discovery/consul.go: which address of a service a call goes to.
pub mod Robin
use hfw.Base.{
  ℕ, ◌+◌, ◌%◌, ◌^◌, Bool, true, false, List, [], ◌∷◌, ◌++◌, map, Option, none, some, ◌==◌,
  if◌then◌else◌, length, get_elem?,
}
use hfw.Base.Text.{Text, codes, text_eq}
use hfw.Session.{Err}

-- `balancePolicy`
pub data BalancePolicy : Type 0 where
  unknown_policy : BalancePolicy
  robin_policy : BalancePolicy
  rand_policy : BalancePolicy

-- What `resolve` and `GetAddress` work on.
pub record ConsulResolver : Type 0 where
  pub service_name : Text
  pub tags : List Text
  pub passing_only : Bool
  pub addresses : List Text
  pub has_tags : List Text
  pub policy : BalancePolicy
  pub lb_index : ℕ
  pub wait_index : ℕ

-- What Consul answers: an entry of a service, with its port written out.
pub record ServiceEntry : Type 0 where
  pub address : Text
  pub port : Text
  pub entry_tags : List Text

pub data Answer : Type 0 where
  entries : List ServiceEntry → ℕ → Answer
  canceled : Answer
  failed : Text → Answer

abbrev host_port : ServiceEntry → Text
host_port e = e.address ++ (codes ":" ++ e.port)

abbrev last_tags : List ServiceEntry → List Text → List Text
last_tags [] tags = tags
last_tags (e ∷ es) tags = last_tags es e.entry_tags

-- `resolve`, at an answer of `ServiceMultipleTags`.
unfoldable pub resolve : Answer → ConsulResolver → Err × ConsulResolver
resolve canceled cr = (none, cr)
resolve (failed err) cr = (some err, cr)
resolve (entries es last_index) cr = (
  none,
  record cr {
    wait_index = last_index;
    addresses = map host_port es;
    has_tags = last_tags es cr.has_tags;
  },
)

-- `Addresses`, which a nil resolver has none of.
abbrev pub addresses_of : Option ConsulResolver → List Text
addresses_of none = []
addresses_of (some cr) = cr.addresses

-- What GetAddress does: it returns an address or an error, or indexes out of range.
pub data Got : Type 0 where
  got : Text → Got
  no_address : Text → Got
  out_of_range : Got

abbrev pub at_index : List Text → ℕ → Got
at_index addresses i = elim (get_elem? addresses i) [ none ↦ out_of_range | some a ↦ got a ]

abbrev pub u64 : ℕ
u64 = 2 ^ 64

-- `Int63n` is the parameter `int63n`.
module _ (int63n : ℕ → ℕ) where
  abbrev pub balanced : BalancePolicy → List Text → ConsulResolver → Got × ConsulResolver
  balanced rand_policy addresses cr = (at_index addresses (int63n (length addresses)), cr)
  balanced _ addresses cr = (
    at_index addresses (cr.lb_index % length addresses),
    record cr { lb_index = (cr.lb_index + 1) % u64 },
  )

  abbrev pub among : List Text → ConsulResolver → Got × ConsulResolver
  among [] cr = (no_address (codes "addresses is nil"), cr)
  among (a ∷ []) cr = (got a, cr)
  among (a ∷ b ∷ more) cr = balanced cr.policy (a ∷ b ∷ more) cr

  unfoldable pub get_address : ConsulResolver → Got × ConsulResolver
  get_address cr = among cr.addresses cr

  -- `GetAddress` of a resolver that may be nil.
  abbrev pub get_address_of : Option ConsulResolver → Got × Option ConsulResolver
  unfolding get_address
  get_address_of none = (no_address (codes "consul not init"), none)
  get_address_of (some cr) = ((get_address cr).0, some (get_address cr).1)

-- `HasTag`
unfoldable pub has_tag : List Text → Text → Bool
has_tag [] tag = false
has_tag (v ∷ vs) tag = let rest = has_tag vs tag in if text_eq v tag then true else rest

-- ===== src/Route.antt =====
-- router_map.go, and the registration of controllers (Handler) of router.go.
pub mod Actions
pub mod Key
pub mod Tables
pub mod Register
pub mod Served
pub mod Handle
pub mod Find
pub mod Resolve
pub mod Reach
pub mod Dispatch
mod Tests
use hfw.Base.{
  ℕ, ◌+◌, Bool, true, false, ◌&&◌, ◌||◌, List, [], ◌∷◌, ◌++◌, Option, none, some, ltb,
  if◌then◌else◌, length,
}
use hfw.Base.Text.{
  Text, codes, text_eq, is_nil, to_lower, trim, trim_suffix, split, split_text, join, last_part,
  init_parts,
}
use hfw.Base.Dict.{lookup, insert}
use hfw.Encoding.{snake}

-- What reflection reads of a registered controller: which value it is, the name of its type, and
-- the names of its exported methods.
pub record Controller : Type 0 where
  pub tag : ℕ
  pub name : Text
  pub methods : List Text

pub record Instance : Type 0 where
  pub reflect_val : Controller
  pub controller_name : Text
  pub method_name : Text

-- `Config.Route`
pub record RouteConfig : Type 0 where
  pub default_controller : Text
  pub default_action : Text

-- The package variables of the router.
pub record Routes : Type 0 where
  pub route_map : List (Text × Instance)
  pub route_map_method : List (Text × Instance)
  pub route_map_register : List (Text × Text)
  pub default_instance : Option Instance
  pub is_init : Bool

unfoldable pub complete_url : RouteConfig → Text → Text
complete_url config url =
    let trim_url = trim b'/' (to_lower url) in
    if is_nil trim_url then config.default_controller else trim_url

abbrev pub methods : List Text
methods =
    codes "OPTIONS"
    ∷ codes "GET"
    ∷ codes "HEAD"
    ∷ codes "POST"
    ∷ codes "PUT"
    ∷ codes "DELETE"
    ∷ codes "TRACE"
    ∷ codes "CONNECT"
    ∷ []

unfoldable pub is_one_of : Text → List Text → Bool
is_one_of s [] = false
is_one_of s (t ∷ ts) = text_eq s t || is_one_of s ts

abbrev pub for_text : Text
for_text = codes "For"

-- The end of getActionsAndMethod: both spellings of an action, once.
unfoldable pub spellings : Text → List Text
spellings action =
    let action' = to_lower action in
    let snake_action = snake action in
    if text_eq action' snake_action then action' ∷ [] else action' ∷ snake_action ∷ []

unfoldable pub get_actions_and_method : Text → List Text × Text × Bool
unfolding is_one_of spellings
get_actions_and_method [] = ([], [], false)
get_actions_and_method (c ∷ name) =
    let func_name : Text = c ∷ name in
    let tmp = split_text func_name for_text in
    let method = last_part tmp in
    if ltb 1 (length tmp) && is_one_of method methods
    then (spellings (trim_suffix func_name (for_text ++ method)), method, true)
    else (spellings func_name, [], false)

-- Registration ends, or panics half way through.
pub data Registered : Type 0 where
  ok panicked : Routes → Registered

infixl 5 ◌>>=◌
abbrev pub ◌>>=◌ : Registered → (Routes → Registered) → Registered
ok t >>= f = f t
panicked t >>= f = panicked t

abbrev pub action_key : Text → Text → Text
action_key path action = path ++ (b'/' ∷ action)

abbrev pub method_key : Text → Text → Text
method_key path method = path ++ (codes "for" ++ method)

-- The body of the loop over `actions` in Handler.
unfoldable pub register_action : Text → Instance → Text → Bool → Text → Routes → Registered
register_action controller_path value method true action t =
    let key = method_key (action_key controller_path action) method in
    elim (lookup key t.route_map_method) [
      | some _ ↦ panicked t
      | none ↦ ok (record t { route_map_method = insert key value t.route_map_method })
    ]
register_action controller_path value method false action t =
    let key = action_key controller_path action in
    elim (lookup key t.route_map) [
      | some _ ↦ panicked t
      | none ↦ ok (record t { route_map = insert key value t.route_map })
    ]

unfoldable pub register_actions : Text → Instance → Text → Bool → List Text → Routes → Registered
register_actions controller_path value method is_method [] t = ok t
register_actions controller_path value method is_method (action ∷ actions) t = do
  t' ← register_action controller_path value method is_method action t
  register_actions controller_path value method is_method actions t'

abbrev pub reserved : List Text
reserved =
    codes "Init"
    ∷ codes "Before"
    ∷ codes "After"
    ∷ codes "Finish"
    ∷ codes "NotFound"
    ∷ codes "ServerError"
    ∷ []

abbrev pub or_default : Option Instance → Instance → Option Instance
or_default none value = some value
or_default (some old) value = some old

-- The body of the loop over the methods of the controller.
unfoldable pub register_method : Text → Controller → Text → Routes → Registered
register_method controller_path c m t =
    let (actions, method, is_method) = get_actions_and_method m in
    let value : Instance = record { reflect_val = c; controller_name = c.name; method_name = m } in
    let t' : Routes = record t { default_instance = or_default t.default_instance value } in
    if is_one_of m reserved
    then ok t
    else register_actions controller_path value method is_method actions t'

unfoldable pub register_methods : Text → Controller → List Text → Routes → Registered
register_methods controller_path c [] t = ok t
register_methods controller_path c (m ∷ ms) t = do
  t' ← register_method controller_path c m t
  register_methods controller_path c ms t'

-- `Handler`
unfoldable pub handler : RouteConfig → Routes → Text → Controller → Registered
handler config t pattern c =
    let t0 : Routes = record t { is_init = true } in
    let controller_path = complete_url config pattern in
    elim (lookup controller_path t.route_map_register) [
      | some name ↦ if text_eq name c.name then ok t0 else panicked t0
      | none ↦
          register_methods controller_path c c.methods
            (record t0 { route_map_register = insert controller_path c.name t.route_map_register })
    ]

-- The fields of HTTPContext that choose the action and record it.
pub record Target : Type 0 where
  pub path : Text
  pub controller : Text
  pub action : Text

-- The two lookups made for one reading of the URL.
unfoldable pub find_at : Routes → Text → Text → Option Instance
find_at t path method = elim (lookup (method_key path method) t.route_map_method) [
  | some found ↦ some found
  | none ↦ lookup path t.route_map
]

abbrev pub not_found_name : Text
not_found_name = codes "NotFound"

-- What a branch of findInstanceByPath returns, and the fields its deferred function leaves.
abbrev pub result : Text → Text → Instance → Option (Instance × Text × Target)
result path name i =
    some (i, name, record { path = path; controller = i.controller_name; action = name })

-- `findInstanceByPath`: the instance, the name of the method to call, and the fields it leaves in
-- the context. `none` is the panic at the nil default instance, in the deferred function.
unfoldable pub find_instance :
    RouteConfig → Routes → Text → Text → Target → Option (Instance × Text × Target)
find_instance config t url_path method target =
    let input_path = if is_nil target.path then url_path else target.path in
    let controller_path = complete_url config input_path in
    let whole = action_key controller_path config.default_action in
    let tmp = split controller_path b'/' in
    let last = action_key (join (init_parts tmp) (b'/' ∷ [])) (last_part tmp) in
    elim (find_at t whole method) [
      | some i ↦ result whole i.method_name i
      | none ↦ elim (find_at t last method) [
        | some i ↦ result last i.method_name i
        | none ↦ elim t.default_instance [ none ↦ none | some i ↦ result last not_found_name i ]
      ]
    ]

-- The routing half of `DispatchRoute`: the path is rewritten from the names in the context first.
unfoldable pub dispatch_target : Target → Target
dispatch_target target = record target {
  path = codes "C:" ++ (target.controller ++ (codes " M:" ++ target.action));
}

unfoldable pub dispatch_route :
    RouteConfig → Routes → Text → Text → Target → Option (Instance × Text × Target)
unfolding dispatch_target
dispatch_route config t url_path method target =
    find_instance config t url_path method (dispatch_target target)

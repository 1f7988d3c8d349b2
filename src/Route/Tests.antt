-- ===== src/Route/Tests.antt =====
-- The router at one controller with a plain method and one for a verb.
use hfw.Base.{true, false, [], ◌∷◌, none, some, ◌≡◌, ◌≢◌, refl, subst, arith, inl, inr, Bool-cases}
use hfw.Base.Text.{
  Text, codes, text_eq, to_lower, has_prefix, trim, trim_suffix, split, split_text, join,
}
use hfw.Base.Text.Laws.{text_eq_iff}
use hfw.Base.Dict.{lookup, insert}
use hfw.Encoding.{snake}
use hfw.Route.{
  Controller, Instance, RouteConfig, Routes, Target, complete_url, get_actions_and_method, ok,
  handler, register_action, register_actions, register_method, register_methods, find_at,
  find_instance, dispatch_route, result, not_found_name,
}
use hfw.Route.Tables.{left, IsSound, Extends}
use hfw.Route.Register.{instance_of}
use hfw.Route.Handle.{handler-IsKept}
use hfw.Route.Find.{asked}
use hfw.Route.Resolve.{IsResolved, find_instance-IsResolved, find_instance_total}
use hfw.Route.Reach.{handler-find_instance}
use hfw.Route.Dispatch.{IsOrdinary}
use hfw.Encoding.Case.{camel, camel-snake}

router : Unit {0}
unfolding handler register_action register_actions register_method register_methods find_at
    find_instance dispatch_route complete_url get_actions_and_method text_eq to_lower has_prefix
    trim trim_suffix split split_text join lookup insert snake
router = tt

abbrev config : RouteConfig
config = record { default_controller = codes "index"; default_action = codes "index" }

abbrev no_routes : Routes
no_routes = record {
  route_map = [];
  route_map_method = [];
  route_map_register = [];
  default_instance = none;
  is_init = false;
}

no_routes-IsSound : IsSound no_routes
unfolding lookup
no_routes-IsSound = record {
  plain = λ k i h. absurd (cc h);
  plain_verb = λ k i h. absurd (cc h);
  verbs = λ k i h. absurd (cc h);
  default = λ _. (refl, refl);
}

abbrev user : Controller
user = record {
  tag = 1;
  name = codes "User";
  methods = codes "Before" ∷ codes "DetailForGET" ∷ codes "ListAll" ∷ [];
}

abbrev detail : Instance
detail = instance_of user (codes "DetailForGET")

abbrev list_all : Instance
list_all = instance_of user (codes "ListAll")

abbrev routes : Routes
routes = record {
  route_map = (codes "user/listall", list_all) ∷ (codes "user/list_all", list_all) ∷ [];
  route_map_method = (codes "user/detailforGET", detail) ∷ [];
  route_map_register = (codes "user", codes "User") ∷ [];
  default_instance = some detail;
  is_init = true;
}

handler-user : handler config no_routes (codes "/User") user ≡ ok routes
unfolding router
handler-user = refl

routes-IsSound : IsSound routes
routes-IsSound =
    subst (λ r. IsSound (left r)) handler-user
      (handler-IsKept config no_routes (codes "/User") user no_routes-IsSound).0

abbrev fresh : Target
fresh = record { path = []; controller = []; action = [] }

find_list :
    find_instance config routes (codes "/USER/list_all/") (codes "POST") fresh
    ≡ result (codes "user/list_all") (codes "ListAll") list_all
unfolding router
find_list = refl

-- The verb of another method: NotFound of the default instance.
find_post :
    find_instance config routes (codes "/user/detail") (codes "POST") fresh
    ≡ result (codes "user/detail") not_found_name detail
unfolding router
find_post = refl

camel-snake_example : camel true (snake (codes "ListAll")) ≡ codes "ListAll"
camel-snake_example = camel-snake (codes "ListAll") (ground arith)

handler-IsKept_example :
    IsSound (left (handler config routes (codes "/user") user))
    × Extends routes (left (handler config routes (codes "/user") user))
handler-IsKept_example = handler-IsKept config routes (codes "/user") user routes-IsSound

abbrev found_list : Target
found_list = record {
  path = codes "user/list_all";
  controller = codes "User";
  action = codes "ListAll";
}

find_instance-IsResolved_example :
    IsResolved config routes
      (asked config (codes "/USER/list_all/") fresh)
      (codes "POST")
      list_all
      (codes "ListAll")
      found_list
find_instance-IsResolved_example =
    find_instance-IsResolved config routes (codes "/USER/list_all/") (codes "POST") fresh found_list
      list_all (codes "ListAll") routes-IsSound (ground arith) find_list

find_instance_total_example :
    find_instance config routes (codes "/user/detail") (codes "POST") fresh ≢ none
find_instance_total_example =
    find_instance_total config routes (codes "/user/detail") (codes "POST") fresh routes-IsSound
      refl

handler-find_instance_example :
    find_instance config routes (codes "/USER/list_all/") (codes "POST") fresh
    ≡ result
        (asked config (codes "/USER/list_all/") fresh)
        (codes "ListAll")
        (instance_of user (codes "ListAll"))
unfolding router
handler-find_instance_example =
    handler-find_instance config no_routes routes (codes "/User") user (codes "ListAll")
      (codes "list_all") (codes "/USER/list_all/") (codes "POST") fresh refl handler-user refl refl
      refl refl refl (λ h. absurd (cc h)) (λ _. refl)

routes-IsOrdinary :
    (path name : Text) → lookup path routes.route_map_register ≡ some name → IsOrdinary path
unfolding lookup
routes-IsOrdinary path name h = elim (Bool-cases (text_eq (codes "user") path)) [
  | inl e ↦ subst IsOrdinary ((text_eq_iff _ path).0 e) (unfold has_prefix in ground arith)
  | inr e ↦ absurd (cc (rw (e, lookup) at h))
]

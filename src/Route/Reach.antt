-- ===== src/Route/Reach.antt =====
-- Handler and findInstanceByPath together.
use hfw.Base.{Bool, true, false, [], ◌∷◌, none, some, ◌≡◌, refl, ap, ◌∙◌, arith}
use hfw.Base.Text.{Text}
use hfw.Base.Text.Parts.{has_byte, rejoin-split}
use hfw.Base.Dict.{lookup}
use hfw.Route.{
  Controller, Instance, RouteConfig, Routes, Target, complete_url, reserved, is_one_of,
  get_actions_and_method, ok, handler, action_key, method_key, find_at, find_instance, result,
}
use hfw.Route.Actions.{All-is_one_of}
use hfw.Route.Register.{instance_of}
use hfw.Route.Served.{IsServed, entry}
use hfw.Route.Handle.{handler-IsServed}
use hfw.Route.Find.{asked, whole_path, last_path, find_instance_second}

has_byte-action_key : (path action : Text) → has_byte b'/' (action_key path action) ≡ true
has_byte-action_key [] action = refl
has_byte-action_key (c ∷ path) action = ground (arith, has_byte-action_key path action)

last_path-action_key :
    (path action : Text) → last_path (action_key path action) ≡ action_key path action
last_path-action_key path action = rejoin-split _ b'/' (has_byte-action_key path action)

find_at-entry :
    (t : Routes) (is_method : Bool) (path action verb method : Text) (i : Instance)
    → entry t is_method path action verb ≡ some i
    → (is_method ≡ true → verb ≡ method)
    → (is_method ≡ false
        → lookup (method_key (action_key path action) method) t.route_map_method ≡ none)
    → find_at t (action_key path action) method ≡ some i
unfolding find_at
find_at-entry t true path action verb method i h same absent = rw (← same refl) (rw (h, find_at))
find_at-entry t false path action verb method i h same absent = rw (absent refl, find_at) h

-- A method that Handler has registered is called for the requests of its path, in upper or lower
-- case and with or without slashes at the ends: the path is the controller's pattern and a
-- spelling of the action, the verb is the method's if its name has one, no default action is
-- registered below the whole path, and no method with a verb takes a plain method's place.
pub handler-find_instance :
    (config : RouteConfig) (t u : Routes) (pattern : Text) (c : Controller)
    (m action url method : Text) (target : Target)
    → lookup (complete_url config pattern) t.route_map_register ≡ none
    → handler config t pattern c ≡ ok u
    → is_one_of m c.methods ≡ true
    → is_one_of m reserved ≡ false
    → is_one_of action (get_actions_and_method m).0 ≡ true
    → asked config url target ≡ action_key (complete_url config pattern) action
    → find_at u (whole_path config (asked config url target)) method ≡ none
    → ((get_actions_and_method m).2 ≡ true → (get_actions_and_method m).1 ≡ method)
    → ((get_actions_and_method m).2 ≡ false
        → lookup (method_key (asked config url target) method) u.route_map_method ≡ none)
    → find_instance config u url method target
      ≡ result (asked config url target) m (instance_of c m)
handler-find_instance config t u pattern c m action url method target absent h listed free spelled
      shape miss same plain =
    let path = complete_url config pattern in
    let served : IsServed path c u m =
      All-is_one_of (IsServed path c u) m c.methods (handler-IsServed config t u pattern c absent h)
        listed in
    let here : entry u (get_actions_and_method m).2 path action (get_actions_and_method m).1
        ≡ some (instance_of c m) =
      All-is_one_of
        (λ a.
          entry u (get_actions_and_method m).2 path a (get_actions_and_method m).1
          ≡ some (instance_of c m))
        action _ (served free) spelled in
    let straight : last_path (asked config url target) ≡ asked config url target =
      rw shape (last_path-action_key path action) in
    let found : find_at u (last_path (asked config url target)) method ≡ some (instance_of c m) =
      rw (straight, shape)
        (find_at-entry u _ path action _ method (instance_of c m) here same (rw shape at plain)) in
    find_instance_second config u url method target (instance_of c m) miss found
    ∙ ap (λ p. result p m (instance_of c m)) straight

-- ===== src/Route/Resolve.antt =====
-- findInstanceByPath of router_map.go: what it returns.
use hfw.Base.{
  true, false, ◌&&◌, none, some, ◌≡◌, ◌≢◌, refl, sym, arith, subst, ◌⊎◌, inl, inr, ◌==◌,
  Option-cases, length,
}
use hfw.Base.Text.{Text}
use hfw.Base.Dict.{lookup}
use hfw.Route.{
  Instance, RouteConfig, Routes, Target, get_actions_and_method, method_key, find_at, find_instance,
  result, not_found_name,
}
use hfw.Route.Actions.{get_actions_verb}
use hfw.Route.Key.{NoLower, method-NoLower, method_key_injective}
use hfw.Route.Tables.{Serves, IsSound}
use hfw.Route.Find.{
  asked, whole_path, last_path, find_instance_first, find_instance_second, find_instance_third,
}

-- The instance stands under the path, and its method's verb, if it has one, is the request's.
pub record Matches (t : Routes) (path method : Text) (i : Instance) : Type 0 where
  pub serves : Serves t.route_map_register path i
  pub verb :
      (get_actions_and_method i.method_name).2 ≡ true
      → (get_actions_and_method i.method_name).1 ≡ method

find_at-cases :
    (t : Routes) (path method : Text) (i : Instance)
    → find_at t path method ≡ some i
    → (lookup (method_key path method) t.route_map_method ≡ some i)
      ⊎ (lookup path t.route_map ≡ some i)
unfolding find_at
find_at-cases t path method i h = ground arith

pub find_at-Matches :
    (t : Routes) (path method : Text) (i : Instance)
    → IsSound t
    → NoLower method
    → find_at t path method ≡ some i
    → Matches t path method i
find_at-Matches t path method i s capital h = elim (find_at-cases t path method i h) [
  | inr plain ↦ record {
    serves = s.plain path i plain;
    verb = λ e. absurd (cc (e, s.plain_verb path i plain));
  }
  | inl verbs ↦
      let v = s.verbs _ i verbs in
      let (same_path, same_verb) =
        method_key_injective path v.path method _ capital
          (method-NoLower _ (get_actions_verb i.method_name v.verb)) v.keyed in
      record {
        serves = subst (λ p. Serves t.route_map_register p i) (sym same_path) v.serves;
        verb = λ _. sym same_verb;
      }
]

-- Everything that a call which returns says of the instance, the method's name and the context.
pub record IsResolved (config : RouteConfig) (t : Routes) (path method : Text) (i : Instance)
    (name : Text) (target : Target) : Type 0 where
  pub path_read : (target.path ≡ whole_path config path) ⊎ (target.path ≡ last_path path)
  pub controller_set : target.controller ≡ i.controller_name
  pub action_set : target.action ≡ name
  pub chosen :
      ((name ≡ i.method_name) × Matches t target.path method i)
      ⊎ ((name ≡ not_found_name) × (t.default_instance ≡ some i))

result-eq :
    (P : Instance → Text → Target → Type 0) (path name' : Text) (j : Instance) {i : Instance}
    {name : Text} {target : Target}
    → P j name' (record { path = path; controller = j.controller_name; action = name' })
    → result path name' j ≡ some (i, name, target)
    → P i name target
result-eq P path name' j {i} {name} {target} p e =
    let e' : ◌≡◌ {A = Instance × Text × Target}
        (j, name', record { path = path; controller = j.controller_name; action = name' })
        (i, name, target) =
      cc e in
    subst (λ r. P r.0 r.1 r.2) e' p

-- A request is never handed to a method that does not stand for it: the method returned is that of
-- a controller registered under the first part of the request's path, the rest of the path (or the
-- default action) is a spelling of its action, and a method named after a verb gets only requests of
-- that verb, as long as the request's verb holds no lower-case letter. Otherwise the method is
-- NotFound of the default instance. The controller and the action are recorded in the context.
pub find_instance-IsResolved :
    (config : RouteConfig) (t : Routes) (url method : Text) (target target' : Target) (i : Instance)
    (name : Text)
    → IsSound t
    → NoLower method
    → find_instance config t url method target ≡ some (i, name, target')
    → IsResolved config t (asked config url target) method i name target'
find_instance-IsResolved config t url method target target' i name s capital h =
    let path = asked config url target in
    let P = IsResolved config t path method in
    elim (Option-cases (find_at t (whole_path config path) method)) [
      | inr (j, e) ↦
          result-eq P (whole_path config path) j.method_name j
            (record {
              path_read = inl refl;
              controller_set = refl;
              action_set = refl;
              chosen = inl (refl, find_at-Matches t _ method j s capital e);
            })
            (rw (find_instance_first config t url method target j e) at h)
      | inl e ↦ elim (Option-cases (find_at t (last_path path) method)) [
        | inr (j, f) ↦
            result-eq P (last_path path) j.method_name j
              (record {
                path_read = inr refl;
                controller_set = refl;
                action_set = refl;
                chosen = inl (refl, find_at-Matches t _ method j s capital f);
              })
              (rw (find_instance_second config t url method target j e f) at h)
        | inl f ↦
            let h' = rw (find_instance_third config t url method target e f) at h in
            elim (Option-cases t.default_instance) [
              | inl g ↦ absurd (cc (rw g at h'))
              | inr (j, g) ↦
                  result-eq P (last_path path) not_found_name j
                    (record {
                      path_read = inr refl;
                      controller_set = refl;
                      action_set = refl;
                      chosen = inr (refl, g);
                    })
                    (rw g at h')
            ]
      ]
    ]

-- With sound tables the panic at a nil default instance is behind the check that Router makes
-- first: as soon as one of the two tables is not empty, the search returns.
pub find_instance_total :
    (config : RouteConfig) (t : Routes) (url method : Text) (target : Target)
    → IsSound t
    → ((length t.route_map == 0) && (length t.route_map_method == 0)) ≡ false
    → find_instance config t url method target ≢ none
find_instance_total config t url method target s guard h =
    let path = asked config url target in
    elim (Option-cases (find_at t (whole_path config path) method)) [
      | inr (j, e) ↦ cc (rw (find_instance_first config t url method target j e) at h)
      | inl e ↦ elim (Option-cases (find_at t (last_path path) method)) [
        | inr (j, f) ↦ cc (rw (find_instance_second config t url method target j e f) at h)
        | inl f ↦ elim (Option-cases t.default_instance) [
          | inr (j, g) ↦ cc (rw (find_instance_third config t url method target e f, g) at h)
          | inl g ↦
              let (no_routes, no_verbs) = s.default g in cc (rw (no_routes, no_verbs) at guard)
        ]
      ]
    ]

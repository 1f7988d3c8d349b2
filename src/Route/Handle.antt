-- ===== src/Route/Handle.antt =====
-- Handler of router.go as a whole.
use hfw.Base.{
  true, List, none, some, ◌≡◌, ap, arith, if◌then◌else◌, inl, inr, Bool-cases, Option-cases, All,
}
use hfw.Base.Text.{Text, text_eq}
use hfw.Base.Text.Laws.{text_eq_iff}
use hfw.Base.Dict.{lookup, insert, lookup-insert_self, lookup-insert_absent}
use hfw.Route.{
  Controller, Instance, RouteConfig, Routes, complete_url, ok, panicked, register_methods, handler,
}
use hfw.Route.Tables.{left, Serves, IsSound, Extends, Kept}
use hfw.Route.Register.{register_methods-Kept}
use hfw.Route.Served.{IsServed, register_methods_ok}

-- The tables when the loop over the methods begins.
abbrev started_routes : RouteConfig → Routes → Text → Controller → Routes
started_routes config t pattern c = record t {
  route_map_register = insert (complete_url config pattern) c.name t.route_map_register;
  is_init = true;
}

handler_new :
    (config : RouteConfig) (t : Routes) (pattern : Text) (c : Controller)
    → lookup (complete_url config pattern) t.route_map_register ≡ none
    → handler config t pattern c
      ≡ register_methods
          (complete_url config pattern)
          c
          c.methods
          (started_routes config t pattern c)
unfolding handler
handler_new config t pattern c absent = rw (absent, handler)

handler_old :
    (config : RouteConfig) (t : Routes) (pattern : Text) (c : Controller) (name : Text)
    → lookup (complete_url config pattern) t.route_map_register ≡ some name
    → handler config t pattern c ≡ (
        if text_eq name c.name
        then ok (record t { is_init = true })
        else panicked (record t { is_init = true }))
unfolding handler
handler_old config t pattern c name found = rw (found, handler)

initiated-IsSound : {t : Routes} → IsSound t → IsSound (record t { is_init = true })
initiated-IsSound s = record {
  plain = s.plain;
  plain_verb = s.plain_verb;
  verbs = s.verbs;
  default = s.default;
}

initiated-Extends : (t : Routes) → Extends t (record t { is_init = true })
initiated-Extends t = record {
  keeps = λ k i h. h;
  keeps_verbs = λ k i h. h;
  keeps_default = λ i h. h;
}

Serves-insert :
    {register : List (Text × Text)} {k : Text} {i : Instance} (path name : Text)
    → lookup path register ≡ none
    → Serves register k i
    → Serves (insert path name register) k i
Serves-insert path name absent s = record {
  controller_path = s.controller_path;
  action = s.action;
  shape = s.shape;
  spelled = s.spelled;
  bound = lookup-insert_absent path _ name _ _ absent s.bound;
}

started_routes-IsSound :
    (config : RouteConfig) (t : Routes) (pattern : Text) (c : Controller)
    → lookup (complete_url config pattern) t.route_map_register ≡ none
    → IsSound t
    → IsSound (started_routes config t pattern c)
started_routes-IsSound config t pattern c absent s = record {
  plain = λ k i h. Serves-insert _ c.name absent (s.plain k i h);
  plain_verb = s.plain_verb;
  verbs = λ k i h.
      let v = s.verbs k i h in
      record {
        path = v.path;
        serves = Serves-insert _ c.name absent v.serves;
        keyed = v.keyed;
        verb = v.verb;
      };
  default = s.default;
}

started_routes-Kept :
    (config : RouteConfig) (t : Routes) (pattern : Text) (c : Controller)
    → Kept (started_routes config t pattern c) (
        left (
          register_methods
            (complete_url config pattern)
            c
            c.methods
            (started_routes config t pattern c)))
started_routes-Kept config t pattern c =
    register_methods-Kept _ c c.methods _ (lookup-insert_self _ c.name t.route_map_register)

-- Registration keeps the tables sound, whether it succeeds or panics: every route stands under the
-- path of a registered controller of that name, at a spelling of its method's action, and under
-- the verb in the method's name if there is one; and there is a default as soon as there is a
-- route.
handler-IsSound :
    (config : RouteConfig) (t : Routes) (pattern : Text) (c : Controller)
    → IsSound t
    → IsSound (left (handler config t pattern c))
handler-IsSound config t pattern c s =
    elim (Option-cases (lookup (complete_url config pattern) t.route_map_register)) [
      | inl absent ↦ rw (handler_new config t pattern c absent) (
          (started_routes-Kept config t pattern c).sound
            (started_routes-IsSound config t pattern c absent s))
      | inr (name, found) ↦ elim (Bool-cases (text_eq name c.name)) [
        | inl e ↦ rw (handler_old config t pattern c name found, e) (initiated-IsSound s)
        | inr e ↦ rw (handler_old config t pattern c name found, e) (initiated-IsSound s)
      ]
    ]

-- Registration overwrites nothing, whether it succeeds or panics: each route and the default
-- instance of before are those of after.
handler-Extends :
    (config : RouteConfig) (t : Routes) (pattern : Text) (c : Controller)
    → Extends t (left (handler config t pattern c))
handler-Extends config t pattern c =
    elim (Option-cases (lookup (complete_url config pattern) t.route_map_register)) [
      | inl absent ↦ rw (handler_new config t pattern c absent) (
          let e = (started_routes-Kept config t pattern c).extends in
          record { keeps = e.keeps; keeps_verbs = e.keeps_verbs; keeps_default = e.keeps_default })
      | inr (name, found) ↦ elim (Bool-cases (text_eq name c.name)) [
        | inl e ↦ rw (handler_old config t pattern c name found, e) (initiated-Extends t)
        | inr e ↦ rw (handler_old config t pattern c name found, e) (initiated-Extends t)
      ]
    ]

-- Registration, whether it succeeds or panics, keeps the tables sound and overwrites nothing. Sound: every
-- route stands under the path of a registered controller of that name, at a spelling of its method's
-- action, and under the verb in the method's name if there is one; and there is a default as soon as
-- there is a route. The routes and the default instance of before are those of after.
pub handler-IsKept :
    (config : RouteConfig) (t : Routes) (pattern : Text) (c : Controller)
    → IsSound t
    → IsSound (left (handler config t pattern c)) × Extends t (left (handler config t pattern c))
handler-IsKept config t pattern c s =
    (handler-IsSound config t pattern c s, handler-Extends config t pattern c)

-- A first registration that does not panic leaves every spelling of every method of the controller,
-- but for the six reserved ones, in the table that its name calls for.
pub handler-IsServed :
    (config : RouteConfig) (t u : Routes) (pattern : Text) (c : Controller)
    → lookup (complete_url config pattern) t.route_map_register ≡ none
    → handler config t pattern c ≡ ok u
    → All (IsServed (complete_url config pattern) c u) c.methods
handler-IsServed config t u pattern c absent h =
    register_methods_ok _ c c.methods (started_routes config t pattern c) u
      (lookup-insert_self _ c.name t.route_map_register)
      (rw (handler_new config t pattern c absent) at h)

registered :
    (config : RouteConfig) (t u : Routes) (pattern : Text) (c : Controller)
    → handler config t pattern c ≡ ok u
    → lookup (complete_url config pattern) u.route_map_register ≡ some c.name
registered config t u pattern c h =
    elim (Option-cases (lookup (complete_url config pattern) t.route_map_register)) [
      | inl absent ↦
          let k = started_routes-Kept config t pattern c in
          let e : left (
                register_methods (complete_url config pattern) c c.methods
                  (started_routes config t pattern c))
              ≡ u =
            ap left (rw (handler_new config t pattern c absent) at h) in
          rw (← e, k.registers) (lookup-insert_self _ c.name t.route_map_register)
      | inr (name, found) ↦
          let h' = rw (handler_old config t pattern c name found) at h in
          ground (arith, text_eq_iff name c.name)
    ]

-- After a registration that does not panic, registering a controller of the same type name at the
-- same pattern changes no table, and one of another name panics and changes none either.
handler_again :
    (config : RouteConfig) (t u : Routes) (pattern : Text) (c d : Controller)
    → handler config t pattern c ≡ ok u
    → handler config u pattern d ≡ (
        if text_eq c.name d.name
        then ok (record u { is_init = true })
        else panicked (record u { is_init = true }))
handler_again config t u pattern c d h =
    handler_old config u pattern d c.name (registered config t u pattern c h)

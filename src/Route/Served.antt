-- ===== src/Route/Served.antt =====
-- The loops of Handler, and the actions of a method in the tables.
use hfw.Base.{Bool, true, false, List, [], ◌∷◌, Option, some, ◌≡◌, refl, subst, inl, inr, All}
use hfw.Base.Text.{Text}
use hfw.Base.Dict.{lookup, lookup-insert_self}
use hfw.Route.{
  Controller, Instance, Routes, is_one_of, get_actions_and_method, Registered, ok, panicked, ◌>>=◌,
  action_key, method_key, register_action, register_actions, reserved, register_method,
  register_methods,
}
use hfw.Route.Tables.{
  left, IsReady, add_verb, add_plain, register_action_verb, register_action_plain, Extends, Kept,
}
use hfw.Route.Register.{
  IsReady-Kept, register_action-Kept, register_actions-Kept, All-self, instance_of,
  register_method_step, register_method-Kept, register_methods-Kept, or_default-ne-none,
}

-- Where Handler looks for, and puts, an action of a controller.
abbrev pub entry : Routes → Bool → Text → Text → Text → Option Instance
entry t true path action verb = lookup (method_key (action_key path action) verb) t.route_map_method
entry t false path action verb = lookup (action_key path action) t.route_map

entry-Extends :
    (is_method : Bool) (path action verb : Text) (i : Instance) {t u : Routes}
    → Extends t u
    → entry t is_method path action verb ≡ some i
    → entry u is_method path action verb ≡ some i
entry-Extends true path action verb i e h = e.keeps_verbs _ i h
entry-Extends false path action verb i e h = e.keeps _ i h

>>=-eq-ok :
    (m : Registered) (f : Routes → Registered) {u : Routes}
    → (m >>= f) ≡ ok u
    → (v : Routes) × (m ≡ ok v) × (f v ≡ ok u)
>>=-eq-ok (ok v) f h = (v, refl, h)
>>=-eq-ok (panicked v) f h = absurd (cc h)

register_action_ok :
    (path : Text) (i : Instance) (method : Text) (is_method : Bool) (action : Text) (t u : Routes)
    → register_action path i method is_method action t ≡ ok u
    → entry u is_method path action method ≡ some i
register_action_ok path i method true action t u h =
    elim (register_action_verb path i method action t) [
      | inl e ↦ absurd (cc (e, h))
      | inr (absent, e) ↦
          let same : u ≡ add_verb (method_key (action_key path action) method) i t = cc (e, h) in
          rw same (lookup-insert_self _ i t.route_map_method)
    ]
register_action_ok path i method false action t u h =
    elim (register_action_plain path i method action t) [
      | inl e ↦ absurd (cc (e, h))
      | inr (absent, e) ↦
          let same : u ≡ add_plain (action_key path action) i t = cc (e, h) in
          rw same (lookup-insert_self _ i t.route_map)
    ]

register_actions_ok :
    (path : Text) (i : Instance) (method : Text) (is_method : Bool) (actions : List Text)
    (t u : Routes)
    → All (λ a. is_one_of a (get_actions_and_method i.method_name).0 ≡ true) actions
    → IsReady path i method is_method t
    → register_actions path i method is_method actions t ≡ ok u
    → All (λ a. entry u is_method path a method ≡ some i) actions
unfolding register_actions
register_actions_ok path i method is_method [] t u _ r h = tt
register_actions_ok path i method is_method (a ∷ actions) t u (s, ss) r h =
    let (v, first, rest) =
      >>=-eq-ok (register_action path i method is_method a t)
        (register_actions path i method is_method actions) h in
    let k : Kept t v =
      subst (λ x. Kept t (left x)) first (register_action-Kept path i method is_method a t s r) in
    let r' = IsReady-Kept path i method is_method k r in
    let k' : Kept v u =
      subst (λ x. Kept v (left x)) rest
        (register_actions-Kept path i method is_method actions v ss r') in
    (
      entry-Extends is_method path a method i k'.extends
          (register_action_ok path i method is_method a t v first),
      register_actions_ok path i method is_method actions v u ss r' rest,
    )

-- Every action of the method `m` of `c` is in the tables.
abbrev pub IsServed : Text → Controller → Routes → Text → Type 0
IsServed path c u m =
    is_one_of m reserved ≡ false
    → All
        (λ a.
          entry u (get_actions_and_method m).2 path a (get_actions_and_method m).1
          ≡ some (instance_of c m))
        (get_actions_and_method m).0

All-Extends :
    (is_method : Bool) (path verb : Text) (i : Instance) (actions : List Text) {t u : Routes}
    → Extends t u
    → All (λ a. entry t is_method path a verb ≡ some i) actions
    → All (λ a. entry u is_method path a verb ≡ some i) actions
All-Extends is_method path verb i [] e _ = tt
All-Extends is_method path verb i (a ∷ actions) e (h, hs) =
    (entry-Extends is_method path a verb i e h, All-Extends is_method path verb i actions e hs)

register_method_ok :
    (path : Text) (c : Controller) (m : Text) (t u : Routes)
    → lookup path t.route_map_register ≡ some c.name
    → register_method path c m t ≡ ok u
    → IsServed path c u m
register_method_ok path c m t u bound h free =
    register_actions_ok path (instance_of c m) _ _ _ _ u (All-self _)
      (record {
        bound = bound;
        verb = refl;
        kind = refl;
        set = or_default-ne-none t.default_instance (instance_of c m);
      })
      (rw (register_method_step path c m t, free) at h)

pub register_methods_ok :
    (path : Text) (c : Controller) (ms : List Text) (t u : Routes)
    → lookup path t.route_map_register ≡ some c.name
    → register_methods path c ms t ≡ ok u
    → All (IsServed path c u) ms
unfolding register_methods
register_methods_ok path c [] t u bound h = tt
register_methods_ok path c (m ∷ ms) t u bound h =
    let (v, first, rest) = >>=-eq-ok (register_method path c m t) (register_methods path c ms) h in
    let k : Kept t v = subst (λ x. Kept t (left x)) first (register_method-Kept path c m t bound) in
    let bound' : lookup path v.route_map_register ≡ some c.name = rw k.registers bound in
    let k' : Kept v u =
      subst (λ x. Kept v (left x)) rest (register_methods-Kept path c ms v bound') in
    (
      λ free.
          All-Extends _ path _ (instance_of c m) _ k'.extends
            (register_method_ok path c m t v bound first free),
      register_methods_ok path c ms v u bound' rest,
    )

-- ===== src/Route/Register.antt =====
-- Registration (Handler of router.go): what its loops do to the tables.
use hfw.Base.{
  Bool, true, false, List, [], ◌∷◌, Option, none, some, ◌≡◌, ◌≢◌, refl, arith, if◌then◌else◌, inl,
  inr, Bool-cases, Option-cases, All,
}
use hfw.Base.Text.{Text}
use hfw.Base.Text.Laws.{text_eq_refl}
use hfw.Base.Dict.{lookup, lookup-insert_absent}
use hfw.Route.{
  Controller, Instance, Routes, is_one_of, get_actions_and_method, Registered, ok, panicked, ◌>>=◌,
  register_action, register_actions, or_default, reserved, register_method, register_methods,
}
use hfw.Route.Tables.{
  left, IsReady, register_action_verb, register_action_plain, add_verb-IsSound, add_plain-IsSound,
  Kept, Kept-refl, Kept-trans,
}

pub IsReady-Kept :
    (path : Text) (i : Instance) (method : Text) (is_method : Bool) {t t' : Routes}
    → Kept t t'
    → IsReady path i method is_method t
    → IsReady path i method is_method t'
IsReady-Kept path i method is_method {t} {t'} k r = record {
  bound = rw k.registers r.bound;
  verb = r.verb;
  kind = r.kind;
  set = λ e. elim (Option-cases t.default_instance) [
    | inl e' ↦ r.set e'
    | inr (d, e') ↦ cc (k.extends.keeps_default d e')
  ];
}

pub register_action-Kept :
    (path : Text) (i : Instance) (method : Text) (is_method : Bool) (action : Text) (t : Routes)
    → is_one_of action (get_actions_and_method i.method_name).0 ≡ true
    → IsReady path i method is_method t
    → Kept t (left (register_action path i method is_method action t))
register_action-Kept path i method true action t spelled r =
    elim (register_action_verb path i method action t) [
      | inl e ↦ rw e (Kept-refl t)
      | inr (absent, e) ↦ rw e (record {
        extends = record {
          keeps = λ k j h. h;
          keeps_verbs = λ k j h. lookup-insert_absent _ k i j t.route_map_method absent h;
          keeps_default = λ j h. h;
        };
        sound = add_verb-IsSound path i method action t spelled r;
        registers = refl;
      })
    ]
register_action-Kept path i method false action t spelled r =
    elim (register_action_plain path i method action t) [
      | inl e ↦ rw e (Kept-refl t)
      | inr (absent, e) ↦ rw e (record {
        extends = record {
          keeps = λ k j h. lookup-insert_absent _ k i j t.route_map absent h;
          keeps_verbs = λ k j h. h;
          keeps_default = λ j h. h;
        };
        sound = add_plain-IsSound path i method action t spelled r;
        registers = refl;
      })
    ]

Kept-bind :
    (t : Routes) (m : Registered) (f : Routes → Registered)
    → Kept t (left m)
    → ((u : Routes) → m ≡ ok u → Kept t u → Kept u (left (f u)))
    → Kept t (left (m >>= f))
Kept-bind t (ok u) f k g = Kept-trans k (g u refl k)
Kept-bind t (panicked u) f k g = k

pub register_actions-Kept :
    (path : Text) (i : Instance) (method : Text) (is_method : Bool) (actions : List Text)
    (t : Routes)
    → All (λ a. is_one_of a (get_actions_and_method i.method_name).0 ≡ true) actions
    → IsReady path i method is_method t
    → Kept t (left (register_actions path i method is_method actions t))
unfolding register_actions
register_actions-Kept path i method is_method [] t _ r = Kept-refl t
register_actions-Kept path i method is_method (a ∷ actions) t (h, hs) r =
    Kept-bind t (register_action path i method is_method a t)
      (register_actions path i method is_method actions)
      (register_action-Kept path i method is_method a t h r)
      (λ u _ k.
        register_actions-Kept path i method is_method actions u hs
          (IsReady-Kept path i method is_method k r))

All-weaken :
    (a : Text) (all xs : List Text)
    → All (λ b. is_one_of b all ≡ true) xs
    → All (λ b. is_one_of b (a ∷ all) ≡ true) xs
All-weaken a all [] _ = tt
All-weaken a all (x ∷ xs) (h, hs) = (unfold is_one_of in ground arith, All-weaken a all xs hs)

pub All-self : (xs : List Text) → All (λ b. is_one_of b xs ≡ true) xs
All-self [] = tt
All-self (x ∷ xs) =
    (unfold is_one_of in ground (arith, text_eq_refl x), All-weaken x xs xs (All-self xs))

abbrev pub instance_of : Controller → Text → Instance
instance_of c m = record { reflect_val = c; controller_name = c.name; method_name = m }

abbrev pub with_default : Instance → Routes → Routes
with_default i t = record t { default_instance = or_default t.default_instance i }

pub or_default-ne-none : (o : Option Instance) (i : Instance) → or_default o i ≢ none
or_default-ne-none none i = cc
or_default-ne-none (some j) i = cc

pub with_default-Kept : (i : Instance) (t : Routes) → Kept t (with_default i t)
with_default-Kept i t = record {
  extends = record { keeps = λ k j h. h; keeps_verbs = λ k j h. h; keeps_default = λ j h. rw h };
  sound = λ s. record {
    plain = s.plain;
    plain_verb = s.plain_verb;
    verbs = s.verbs;
    default = λ e. absurd (or_default-ne-none t.default_instance i e);
  };
  registers = refl;
}

abbrev pub register_all : Text → Controller → Text → Routes → Registered
register_all path c m t =
    let g = get_actions_and_method m in
    register_actions path (instance_of c m) g.1 g.2 g.0 (with_default (instance_of c m) t)

pub register_method_step :
    (path : Text) (c : Controller) (m : Text) (t : Routes)
    → register_method path c m t ≡ (if is_one_of m reserved then ok t else register_all path c m t)
unfolding register_method
register_method_step path c m t = refl

register_all-Kept :
    (path : Text) (c : Controller) (m : Text) (t : Routes)
    → lookup path t.route_map_register ≡ some c.name
    → Kept t (left (register_all path c m t))
register_all-Kept path c m t bound = Kept-trans (with_default-Kept (instance_of c m) t) (
    register_actions-Kept path (instance_of c m) _ _ _ _ (All-self _) (record {
      bound = bound;
      verb = refl;
      kind = refl;
      set = or_default-ne-none t.default_instance (instance_of c m);
    }))

pub register_method-Kept :
    (path : Text) (c : Controller) (m : Text) (t : Routes)
    → lookup path t.route_map_register ≡ some c.name
    → Kept t (left (register_method path c m t))
register_method-Kept path c m t bound = elim (Bool-cases (is_one_of m reserved)) [
  | inl e ↦ rw (register_method_step path c m t, e) (Kept-refl t)
  | inr e ↦ rw (register_method_step path c m t, e) (register_all-Kept path c m t bound)
]

pub register_methods-Kept :
    (path : Text) (c : Controller) (ms : List Text) (t : Routes)
    → lookup path t.route_map_register ≡ some c.name
    → Kept t (left (register_methods path c ms t))
unfolding register_methods
register_methods-Kept path c [] t bound = Kept-refl t
register_methods-Kept path c (m ∷ ms) t bound =
    Kept-bind t (register_method path c m t) (register_methods path c ms)
      (register_method-Kept path c m t bound)
      (λ u _ k. register_methods-Kept path c ms u (rw k.registers bound))

-- ===== src/Route/Tables.antt =====
-- The tables of the router: what they hold, and the writes that Handler makes to them.
use hfw.Base.{
  Bool, true, false, List, [], none, some, ◌≡◌, ◌≢◌, refl, ◌∙◌, arith, subst, ◌⊎◌, inl, inr,
}
use hfw.Base.Text.{Text}
use hfw.Base.Dict.{lookup, insert, lookup-insert_cases}
use hfw.Route.{
  Instance, Routes, is_one_of, get_actions_and_method, Registered, ok, panicked, action_key,
  method_key, register_action,
}

-- The tables that a registration leaves, whether it ends or panics.
abbrev pub left : Registered → Routes
left (ok t) = t
left (panicked t) = t

-- An instance stands under a path of its controller, at one of the spellings of its action.
pub record Serves (register : List (Text × Text)) (path : Text) (i : Instance) : Type 0 where
  pub controller_path : Text
  pub action : Text
  pub shape : path ≡ action_key controller_path action
  pub spelled : is_one_of action (get_actions_and_method i.method_name).0 ≡ true
  pub bound : lookup controller_path register ≡ some i.controller_name

pub record ServesVerb (register : List (Text × Text)) (key : Text) (i : Instance) : Type 0 where
  pub path : Text
  pub serves : Serves register path i
  pub keyed : key ≡ method_key path (get_actions_and_method i.method_name).1
  pub verb : (get_actions_and_method i.method_name).2 ≡ true

-- The invariant of the tables.
pub record IsSound (t : Routes) : Type 0 where
  pub plain :
      (k : Text) (i : Instance) → lookup k t.route_map ≡ some i → Serves t.route_map_register k i
  pub plain_verb :
      (k : Text) (i : Instance)
      → lookup k t.route_map ≡ some i
      → (get_actions_and_method i.method_name).2 ≡ false
  pub verbs :
      (k : Text) (i : Instance)
      → lookup k t.route_map_method ≡ some i
      → ServesVerb t.route_map_register k i
  pub default : t.default_instance ≡ none → (t.route_map ≡ []) × (t.route_map_method ≡ [])

-- What Handler knows when it comes to the loop over the actions.
pub record IsReady (path : Text) (i : Instance) (method : Text) (is_method : Bool) (t : Routes)
    : Type 0 where
  pub bound : lookup path t.route_map_register ≡ some i.controller_name
  pub verb : (get_actions_and_method i.method_name).1 ≡ method
  pub kind : (get_actions_and_method i.method_name).2 ≡ is_method
  pub set : t.default_instance ≢ none

abbrev pub add_verb : Text → Instance → Routes → Routes
add_verb key i t = record t { route_map_method = insert key i t.route_map_method }

abbrev pub add_plain : Text → Instance → Routes → Routes
add_plain key i t = record t { route_map = insert key i t.route_map }

module _ (path : Text) (i : Instance) (method action : Text) (t : Routes) where
  abbrev pub verb_key : Text
  verb_key = method_key (action_key path action) method

  pub register_action_verb :
      (register_action path i method true action t ≡ panicked t)
      ⊎ ((lookup verb_key t.route_map_method ≡ none)
          × (register_action path i method true action t ≡ ok (add_verb verb_key i t)))
  unfolding register_action
  register_action_verb = ground arith

  pub register_action_plain :
      (register_action path i method false action t ≡ panicked t)
      ⊎ ((lookup (action_key path action) t.route_map ≡ none)
          × (register_action path i method false action t
              ≡ ok (add_plain (action_key path action) i t)))
  unfolding register_action
  register_action_plain = ground arith

  Serves-action_key :
      (is_method : Bool)
      → is_one_of action (get_actions_and_method i.method_name).0 ≡ true
      → IsReady path i method is_method t
      → Serves t.route_map_register (action_key path action) i
  Serves-action_key is_method spelled r = record {
    controller_path = path;
    action = action;
    shape = refl;
    spelled = spelled;
    bound = r.bound;
  }

  pub add_verb-IsSound :
      is_one_of action (get_actions_and_method i.method_name).0 ≡ true
      → IsReady path i method true t
      → IsSound t
      → IsSound (add_verb verb_key i t)
  add_verb-IsSound spelled r s = record {
    plain = s.plain;
    plain_verb = s.plain_verb;
    verbs = λ k j h. elim (lookup-insert_cases _ k i j t.route_map_method h) [
      | inr h' ↦ s.verbs k j h'
      | inl (same, e) ↦
          subst (λ x. ServesVerb t.route_map_register k x) e
            (record {
              path = action_key path action;
              serves = Serves-action_key true spelled r;
              keyed = rw (r.verb, same);
              verb = r.kind;
            })
    ];
    default = λ e. absurd (r.set e);
  }

  pub add_plain-IsSound :
      is_one_of action (get_actions_and_method i.method_name).0 ≡ true
      → IsReady path i method false t
      → IsSound t
      → IsSound (add_plain (action_key path action) i t)
  add_plain-IsSound spelled r s = record {
    plain = λ k j h. elim (lookup-insert_cases _ k i j t.route_map h) [
      | inr h' ↦ s.plain k j h'
      | inl (same, e) ↦
          subst (λ x. Serves t.route_map_register k x) e
            (subst (λ x. Serves t.route_map_register x i) same (Serves-action_key false spelled r))
    ];
    plain_verb = λ k j h. elim (lookup-insert_cases _ k i j t.route_map h) [
      | inr h' ↦ s.plain_verb k j h'
      | inl (same, e) ↦ rw (← e) r.kind
    ];
    verbs = s.verbs;
    default = λ e. absurd (r.set e);
  }

-- What a registration keeps of the tables it started from.
pub record Extends (t t' : Routes) : Type 0 where
  pub keeps :
      (k : Text) (i : Instance) → lookup k t.route_map ≡ some i → lookup k t'.route_map ≡ some i
  pub keeps_verbs :
      (k : Text) (i : Instance)
      → lookup k t.route_map_method ≡ some i
      → lookup k t'.route_map_method ≡ some i
  pub keeps_default : (i : Instance) → t.default_instance ≡ some i → t'.default_instance ≡ some i

pub Extends-refl : (t : Routes) → Extends t t
Extends-refl t = record { keeps = λ k i h. h; keeps_verbs = λ k i h. h; keeps_default = λ i h. h }

pub Extends-trans : {t u v : Routes} → Extends t u → Extends u v → Extends t v
Extends-trans e f = record {
  keeps = λ k i h. f.keeps k i (e.keeps k i h);
  keeps_verbs = λ k i h. f.keeps_verbs k i (e.keeps_verbs k i h);
  keeps_default = λ i h. f.keeps_default i (e.keeps_default i h);
}

-- One round of the loop: sound tables stay sound, nothing is lost, the controllers stay.
pub record Kept (t t' : Routes) : Type 0 where
  pub extends : Extends t t'
  pub sound : IsSound t → IsSound t'
  pub registers : t'.route_map_register ≡ t.route_map_register

pub Kept-refl : (t : Routes) → Kept t t
Kept-refl t = record { extends = Extends-refl t; sound = λ s. s; registers = refl }

pub Kept-trans : {t u v : Routes} → Kept t u → Kept u v → Kept t v
Kept-trans e f = record {
  extends = Extends-trans e.extends f.extends;
  sound = λ s. f.sound (e.sound s);
  registers = f.registers ∙ e.registers;
}

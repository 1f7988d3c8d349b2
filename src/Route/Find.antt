-- ===== src/Route/Find.antt =====
-- findInstanceByPath of router_map.go: its three ways out.
use hfw.Base.{Option, none, some, ◌≡◌, arith, if◌then◌else◌}
use hfw.Base.Text.{Text, is_nil, split}
use hfw.Base.Text.Parts.{rejoin}
use hfw.Route.{
  Instance, RouteConfig, Routes, Target, complete_url, action_key, find_at, find_instance, result,
  not_found_name,
}

-- The controller path that a request's path is read as, and the two paths looked up for it.
abbrev pub asked : RouteConfig → Text → Target → Text
asked config url_path target =
    complete_url config (if is_nil target.path then url_path else target.path)

abbrev pub whole_path : RouteConfig → Text → Text
whole_path config path = action_key path config.default_action

abbrev pub last_path : Text → Text
last_path path = rejoin b'/' (split path b'/')

pub find_instance_first :
    (config : RouteConfig) (t : Routes) (url method : Text) (target : Target) (i : Instance)
    → find_at t (whole_path config (asked config url target)) method ≡ some i
    → find_instance config t url method target
      ≡ result (whole_path config (asked config url target)) i.method_name i
unfolding find_instance
find_instance_first config t url method target i e = rw (e, find_instance)

pub find_instance_second :
    (config : RouteConfig) (t : Routes) (url method : Text) (target : Target) (i : Instance)
    → find_at t (whole_path config (asked config url target)) method ≡ none
    → find_at t (last_path (asked config url target)) method ≡ some i
    → find_instance config t url method target
      ≡ result (last_path (asked config url target)) i.method_name i
unfolding find_instance
find_instance_second config t url method target i e f =
    rw (e, find_instance) (rw (f, find_instance))

-- What is returned when neither path is registered.
abbrev pub fallback : Text → Option Instance → Option (Instance × Text × Target)
fallback path none = none
fallback path (some i) = result path not_found_name i

pub find_instance_third :
    (config : RouteConfig) (t : Routes) (url method : Text) (target : Target)
    → find_at t (whole_path config (asked config url target)) method ≡ none
    → find_at t (last_path (asked config url target)) method ≡ none
    → find_instance config t url method target
      ≡ fallback (last_path (asked config url target)) t.default_instance
unfolding find_instance
find_instance_third config t url method target e f =
    rw (e, find_instance) (rw (f, find_instance) (ground arith))

-- ===== src/Config.antt =====
-- The defaults of the configuration: initDefaultConfig of configs/util.go. The paths of the file system
-- are parameters.
pub mod Rounds
pub mod Complete
pub mod Again
mod Tests
use hfw.Base.{
  ℕ, ◌^◌, Bool, true, false, not, ◌&&◌, List, [], ◌∷◌, ◌++◌, Option, none, some, if◌then◌else◌,
}
use hfw.Base.Text.{Text, codes, is_nil, to_lower}
use hfw.Base.Int.{ℤ, pos, negsuc, ltb_ℤ}
use hfw.Context.Errors.{eq_ℤ}
use hfw.Session.{Err}
use hfw.Route.{RouteConfig, is_one_of}

pub record TemplateConfig : Type 0 where
  pub html_path : Text
  pub widgets_path : Text

pub record ServerConfig : Type 0 where
  pub cert_file : Text
  pub key_file : Text
  pub tags : List Text

pub record SessionNames : Type 0 where
  pub cookie_name : Text
  pub cache_type : Text

pub record RedisServers : Type 0 where
  pub server : Text
  pub addresses : List Text

pub record PrometheusConfig : Type 0 where
  pub is_enable : Bool
  pub route_path : Text
  pub requests_total : Text
  pub requests_costtime : Text
  pub tags : List Text

-- What initDefaultConfig reads and writes of `AllConfig`.
pub record AllConfig : Type 0 where
  pub enable_session : Bool
  pub error_base : ℤ
  pub route : RouteConfig
  pub template : TemplateConfig
  pub server : ServerConfig
  pub session : SessionNames
  pub redis : RedisServers
  pub prometheus : PrometheusConfig

pub record Paths : Type 0 where
  -- `filepath.IsAbs`, and `filepath.Join` with the path of the program.
  pub is_abs : Text → Bool
  pub join_app : Text → Text
  -- What `filepath.Glob` finds.
  pub glob : Text → List Text × Err

-- `int64(math.Pow10(n))`, for n below 10.
abbrev pub pow10 : ℤ → ℤ
pow10 (pos n) = pos (10 ^ n)
pow10 (negsuc n) = pos 0

abbrev pub powered : ℤ → ℤ
powered b = if ltb_ℤ b (pos 10) then pow10 b else b

unfoldable pub base_of : ℤ → ℤ
base_of b = powered (if eq_ℤ b (pos 0) then pos 6 else b)

abbrev pub or_text : Text → Text → Text
or_text t [] = t
or_text t (c ∷ s) = c ∷ s

abbrev pub or_index : Text → Text
or_index [] = codes "index"
or_index (c ∷ s) = to_lower (c ∷ s)

unfoldable pub route_of : RouteConfig → RouteConfig
unfolding to_lower
route_of r = record {
  default_controller = or_index r.default_controller;
  default_action = or_index r.default_action;
}

abbrev pub names_of : Bool → SessionNames → SessionNames
names_of false s = s
names_of true s = record {
  cookie_name = or_text (codes "sessionid") s.cookie_name;
  cache_type = or_text (codes "redis") s.cache_type;
}

abbrev pub one_server : Text → List Text → List Text
one_server [] [] = []
one_server (c ∷ s) [] = (c ∷ s) ∷ []
one_server server (a ∷ more) = a ∷ more

abbrev pub servers_of : RedisServers → RedisServers
servers_of r = record r { addresses = one_server r.server r.addresses }

abbrev pub tags_or : List Text → List Text
tags_or [] = codes "prometheus" ∷ []
tags_or (t ∷ ts) = t ∷ ts

-- The loop over the tags, which those of the server do not hold yet.
unfoldable pub add_tags : List Text → List Text → List Text
add_tags [] have = have
add_tags (t ∷ ts) have = add_tags ts (if is_one_of t have then have else have ++ (t ∷ []))

abbrev pub metrics_of : Bool → PrometheusConfig → PrometheusConfig
metrics_of false p = p
metrics_of true p = record {
  is_enable = p.is_enable;
  route_path = or_text (codes "/metrics") p.route_path;
  requests_total = or_text (codes "requests_total") p.requests_total;
  requests_costtime = or_text (codes "requests_costtime") p.requests_costtime;
  tags = tags_or p.tags;
}

abbrev pub with_tags : Bool → List Text → ServerConfig → ServerConfig
with_tags false ts s = s
with_tags true ts s = record s { tags = add_tags ts s.tags }

module _ (paths : Paths) where
  abbrev pub absolute : Text → Text
  absolute path = if paths.is_abs path then path else paths.join_app path

  abbrev pub absolute_if : Text → Text
  absolute_if [] = []
  absolute_if (c ∷ path) = absolute (c ∷ path)

  unfoldable pub template_of : TemplateConfig → TemplateConfig
  template_of t = record {
    html_path = absolute t.html_path;
    widgets_path = absolute_if t.widgets_path;
  }

  abbrev pub found_files : List Text × Err → Bool
  found_files ([], e) = false
  found_files (f ∷ fs, none) = true
  found_files (f ∷ fs, some e) = false

  -- Whether the templates of the widgets are there, if there are to be any.
  unfoldable pub has_widgets : TemplateConfig → Bool
  has_widgets t = if is_nil t.widgets_path then true else found_files (paths.glob t.widgets_path)

  unfoldable pub files_of : ServerConfig → ServerConfig
  files_of s =
      if not (is_nil s.cert_file) && not (is_nil s.key_file)
      then record s { cert_file = absolute s.cert_file; key_file = absolute s.key_file }
      else s

  abbrev pub before_widgets : AllConfig → AllConfig
  unfolding base_of route_of template_of
  before_widgets c = record c {
    error_base = base_of c.error_base;
    route = route_of c.route;
    template = template_of c.template;
  }

  abbrev pub after_widgets : AllConfig → AllConfig
  unfolding files_of add_tags
  after_widgets c = record c {
    server =
        with_tags c.prometheus.is_enable (metrics_of c.prometheus.is_enable c.prometheus).tags
          (files_of c.server);
    session = names_of c.enable_session c.session;
    redis = servers_of c.redis;
    prometheus = metrics_of c.prometheus.is_enable c.prometheus;
  }

  -- `initDefaultConfig`
  unfoldable pub init_default_config : AllConfig → Err × AllConfig
  unfolding before_widgets after_widgets has_widgets
  init_default_config c =
      let c' = before_widgets c in
      if has_widgets c'.template
      then (none, after_widgets c')
      else (some (codes "error WidgetsPath"), c')

-- ===== src/Config/Tests.antt =====
-- A configuration with metrics and two files.
use hfw.Base.{true, [], ◌∷◌, none, ◌≡◌, refl}
use hfw.Base.Text.{codes, to_lower, lower, text_eq}
use hfw.Base.Int.{pos}
use hfw.Route.{is_one_of}
use hfw.Config.{
  AllConfig, Paths, base_of, route_of, template_of, add_tags, files_of, has_widgets,
  init_default_config,
}
use hfw.Config.Again.{init_default_config_again}
use hfw.Config.Complete.{IsComplete, init_default_config-IsComplete}

abbrev paths : Paths
paths = record {
  is_abs = λ path. true;
  join_app = λ path. path;
  glob = λ path. (codes "/w/a.html" ∷ [], none);
}

abbrev given : AllConfig
given = record {
  enable_session = true;
  error_base = pos 4;
  route = record { default_controller = codes "Home"; default_action = [] };
  template = record { html_path = codes "/v"; widgets_path = codes "/w/*" };
  server = record { cert_file = codes "/c"; key_file = codes "/k"; tags = codes "web" ∷ [] };
  session = record { cookie_name = []; cache_type = [] };
  redis = record { server = codes "r:6379"; addresses = [] };
  prometheus = record {
    is_enable = true;
    route_path = [];
    requests_total = [];
    requests_costtime = [];
    tags = [];
  };
}

abbrev completed : AllConfig
completed = record given {
  error_base = pos 10000;
  route = record { default_controller = codes "home"; default_action = codes "index" };
  server = record {
    cert_file = codes "/c";
    key_file = codes "/k";
    tags = codes "web" ∷ codes "prometheus" ∷ [];
  };
  session = record { cookie_name = codes "sessionid"; cache_type = codes "redis" };
  redis = record { server = codes "r:6379"; addresses = codes "r:6379" ∷ [] };
  prometheus = record {
    is_enable = true;
    route_path = codes "/metrics";
    requests_total = codes "requests_total";
    requests_costtime = codes "requests_costtime";
    tags = codes "prometheus" ∷ [];
  };
}

defaults_set : init_default_config paths given ≡ (none, completed)
unfolding init_default_config has_widgets base_of route_of template_of files_of add_tags is_one_of
    to_lower lower text_eq
defaults_set = refl

init_default_config_again_example :
    init_default_config paths (init_default_config paths given).1
    ≡ (none, (init_default_config paths given).1)
unfolding init_default_config has_widgets template_of
init_default_config_again_example = init_default_config_again paths (λ path. refl) given 4 refl refl

init_default_config-IsComplete_example :
    IsComplete paths (codes "web" ∷ []) (init_default_config paths given).1
unfolding init_default_config has_widgets template_of
init_default_config-IsComplete_example =
    init_default_config-IsComplete paths (λ path. refl) given 4 refl refl

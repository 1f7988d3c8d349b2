-- ===== src/Config/Again.antt =====
-- The defaults of configs/util.go, set a second time.
use hfw.Base.{ℕ, Bool, true, false, none, some, ◌≡◌, refl, sym, ap, ◌∙◌, if◌then◌else◌}
use hfw.Base.Text.{Text, codes}
use hfw.Base.Int.{pos}
use hfw.Session.{Err}
use hfw.Route.{RouteConfig}
use hfw.Config.{
  ServerConfig, PrometheusConfig, AllConfig, Paths, base_of, route_of, names_of, servers_of,
  metrics_of, with_tags, has_widgets, files_of, before_widgets, after_widgets, init_default_config,
}
use hfw.Config.Rounds.{
  base_of_idem, or_index_idem, one_server_idem, names_of_idem, with_tags_idem, metrics_of_idem,
  template_of_idem, files_of-AreFixed, files_of_fixed, tagged-AreFixed, enabled_same,
}

module _ (paths : Paths) (law : (path : Text) → paths.is_abs (paths.join_app path) ≡ true) where
  -- `after_widgets`, whether the metrics are enabled.
  abbrev after_at : Bool → AllConfig → AllConfig
  after_at b c = record c {
    server = with_tags b (metrics_of b c.prometheus).tags (files_of paths c.server);
    session = names_of c.enable_session c.session;
    redis = servers_of c.redis;
    prometheus = metrics_of b c.prometheus;
  }

  server_again :
      (b : Bool) (p : PrometheusConfig) (s : ServerConfig)
      → with_tags b
          (metrics_of b (metrics_of b p)).tags
          (files_of paths (with_tags b (metrics_of b p).tags (files_of paths s)))
        ≡ with_tags b (metrics_of b p).tags (files_of paths s)
  server_again b p s =
      let ts = (metrics_of b p).tags in
      let s' = files_of paths s in
      ap (λ q. with_tags b q.tags (files_of paths (with_tags b ts s'))) (metrics_of_idem b p)
      ∙ ap (with_tags b ts) (
          files_of_fixed paths law (with_tags b ts s')
            (tagged-AreFixed paths law b ts s' (files_of-AreFixed paths law s)))
      ∙ with_tags_idem b ts s'

  after_at_idem : (b : Bool) (c : AllConfig) → after_at b (after_at b c) ≡ after_at b c
  after_at_idem b c = λ i. record c {
    server = server_again b c.prometheus c.server i;
    session = names_of_idem c.enable_session c.session i;
    redis = record (c.redis) { addresses = one_server_idem c.redis.server c.redis.addresses i };
    prometheus = metrics_of_idem b c.prometheus i;
  }

  after_widgets_idem :
      (c : AllConfig) → after_widgets paths (after_widgets paths c) ≡ after_widgets paths c
  unfolding files_of after_widgets
  after_widgets_idem c =
      let b = c.prometheus.is_enable in
      ap (λ b'. after_at b' (after_at b c)) (enabled_same paths law b c.prometheus)
      ∙ after_at_idem b c

  route_of_idem : (r : RouteConfig) → route_of (route_of r) ≡ route_of r
  unfolding route_of
  route_of_idem r = λ i. record {
    default_controller = or_index_idem r.default_controller i;
    default_action = or_index_idem r.default_action i;
  }

  before_after :
      (n : ℕ) (c : AllConfig)
      → c.error_base ≡ pos n
      → before_widgets paths (after_widgets paths (before_widgets paths c))
        ≡ after_widgets paths (before_widgets paths c)
  unfolding files_of before_widgets after_widgets
  before_after n c e =
      let c' = after_widgets paths (before_widgets paths c) in
      let base : base_of (base_of c.error_base) ≡ base_of c.error_base =
        ap (λ b. base_of (base_of b)) e ∙ base_of_idem n ∙ sym (ap base_of e) in
      λ i. record c' {
        error_base = base i;
        route = route_of_idem c.route i;
        template = template_of_idem paths law c.template i;
      }

  -- The rest of initDefaultConfig.
  abbrev rest_of : AllConfig → Err × AllConfig
  rest_of c =
      if has_widgets paths c.template
      then (none, after_widgets paths c)
      else (some (codes "error WidgetsPath"), c)

  rest_again :
      (b : Bool) (c : AllConfig)
      → b ≡ has_widgets paths c.template
      → (if◌then◌else◌ {A = Err × AllConfig} b
          (none, after_widgets paths c)
          (some (codes "error WidgetsPath"), c)).0
        ≡ none
      → (b ≡ true)
  rest_again true c e h = refl
  rest_again false c e h = absurd (cc h)

  rest_found :
      (c : AllConfig)
      → has_widgets paths c.template ≡ true
      → rest_of c ≡ (none, after_widgets paths c)
  rest_found c h =
      ap
        (λ b.
          if◌then◌else◌ {A = Err × AllConfig} b (none, after_widgets paths c)
            (some (codes "error WidgetsPath"), c))
        h

  -- With a base of the error numbers that is not negative, and where a path joined to that of the program
  -- is absolute: once initDefaultConfig has succeeded, it succeeds again and changes nothing, over the
  -- same files.
  pub init_default_config_again :
      (c : AllConfig) (n : ℕ)
      → c.error_base ≡ pos n
      → (init_default_config paths c).0 ≡ none
      → init_default_config paths (init_default_config paths c).1
        ≡ (none, (init_default_config paths c).1)
  unfolding init_default_config files_of
  init_default_config_again c n e h =
      let c' = before_widgets paths c in
      let x = after_widgets paths c' in
      let found = rest_again (has_widgets paths c'.template) c' refl h in
      ap (λ r. rest_of (before_widgets paths r.1)) (rest_found c' found)
      ∙ ap rest_of (before_after n c e)
      ∙ rest_found x found
      ∙ ap (λ y. (none, y)) (after_widgets_idem c' ∙ ap (λ r. r.1) (sym (rest_found c' found)))

-- ===== src/Config/Complete.antt =====
-- What the defaults of configs/util.go leave.
use hfw.Base.{
  ℕ, ◌≤◌, Bool, true, false, not, ◌&&◌, List, [], ◌∷◌, ◌++◌, none, some, ◌≡◌, ◌⊎◌, inl, inr, refl,
  sym, ap, ◌∙◌, if◌then◌else◌, Bool-cases, append-nil, append_assoc,
}
use hfw.Base.Text.{Text, codes, is_nil, to_lower, trim}
use hfw.Base.Text.Laws.{to_lower_idem}
use hfw.Base.Int.{pos}
use hfw.Session.{Err}
use hfw.Route.{RouteConfig, is_one_of, complete_url}
use hfw.Config.{
  ServerConfig, PrometheusConfig, AllConfig, Paths, base_of, or_index, route_of, tags_or, add_tags,
  metrics_of, with_tags, absolute, template_of, has_widgets, files_of, before_widgets,
  after_widgets, init_default_config,
}
use hfw.Config.Rounds.{base_of-pos, AreAmong, add_tags-AreAmong}

-- What a configuration has after initDefaultConfig; `tags` are those of the server before it.
pub record IsComplete (paths : Paths) (tags : List Text) (c : AllConfig) : Type 0 where
  -- The base of the error numbers has two digits.
  pub base : (m : ℕ) × (c.error_base ≡ pos m) × (10 ≤ m)
  -- Every path of a request names a controller.
  pub named : (url : Text) → is_nil (complete_url c.route url) ≡ false
  pub action : is_nil c.route.default_action ≡ false
  pub lower_controller : to_lower c.route.default_controller ≡ c.route.default_controller
  pub lower_action : to_lower c.route.default_action ≡ c.route.default_action
  pub html : paths.is_abs c.template.html_path ≡ true
  -- The tags of the metrics, one at least, are added to those of the server, which stay in front.
  pub tagged :
      ((more : List Text) × (c.server.tags ≡ tags ++ more))
      × ((c.prometheus.is_enable ≡ false) ⊎ AreAmong c.prometheus.tags c.server.tags)

or_index-is_nil : (s : Text) → is_nil (or_index s) ≡ false
unfolding to_lower
or_index-is_nil [] = refl
or_index-is_nil (c ∷ s) = refl

or_index-lower : (s : Text) → to_lower (or_index s) ≡ or_index s
unfolding to_lower
or_index-lower [] = refl
or_index-lower (c ∷ s) = to_lower_idem (c ∷ s)

or_default :
    (b : Bool) (d t : Text) → is_nil d ≡ false → is_nil t ≡ b → is_nil (if b then d else t) ≡ false
or_default true d t h e = h
or_default false d t h e = e

complete_url-is_nil :
    (r : RouteConfig) (url : Text)
    → is_nil r.default_controller ≡ false
    → is_nil (complete_url r url) ≡ false
unfolding complete_url
complete_url-is_nil r url h = or_default _ r.default_controller (trim b'/' (to_lower url)) h refl

-- Tags are added behind.
one_more :
    (b : Bool) (t : Text) (have : List Text)
    → (more : List Text) × ((if b then have else have ++ (t ∷ [])) ≡ have ++ more)
one_more true t have = ([], sym (append-nil have))
one_more false t have = (t ∷ [], refl)

add_tags-behind : (ts have : List Text) → (more : List Text) × (add_tags ts have ≡ have ++ more)
unfolding add_tags
add_tags-behind [] have = ([], sym (append-nil have))
add_tags-behind (t ∷ ts) have =
    let (first, e) = one_more (is_one_of t have) t have in
    let (more, h) = add_tags-behind ts (if is_one_of t have then have else have ++ (t ∷ [])) in
    (first ++ more, h ∙ ap (λ l. l ++ more) e ∙ append_assoc have first more)

tagged-with :
    (b : Bool) (p : PrometheusConfig) (s : ServerConfig)
    → ((more : List Text) × ((with_tags b (metrics_of b p).tags s).tags ≡ s.tags ++ more))
      × (((metrics_of b p).is_enable ≡ p.is_enable)
          × ((b ≡ false)
              ⊎ AreAmong (metrics_of b p).tags (with_tags b (metrics_of b p).tags s).tags))
tagged-with false p s = (([], sym (append-nil s.tags)), (refl, inl refl))
tagged-with true p s = (
  add_tags-behind (tags_or p.tags) s.tags,
  (refl, inr (add_tags-AreAmong (tags_or p.tags) s.tags)),
)

module _ (paths : Paths) (law : (path : Text) → paths.is_abs (paths.join_app path) ≡ true) where
  absolute-is_abs : (path : Text) → paths.is_abs (absolute paths path) ≡ true
  absolute-is_abs path = elim (Bool-cases (paths.is_abs path)) [
    | inl e ↦ rw e e
    | inr e ↦ rw e (law path)
  ]

  files_of-tags : (s : ServerConfig) → (files_of paths s).tags ≡ s.tags
  unfolding files_of
  files_of-tags s = by_case (not (is_nil s.cert_file) && not (is_nil s.key_file))
    where
      by_case :
          (b : Bool)
          → (if b
              then record s {
                cert_file = absolute paths s.cert_file;
                key_file = absolute paths s.key_file;
              }
              else s).tags
            ≡ s.tags
      by_case true = refl
      by_case false = refl

  complete-with :
      (b : Bool) (c : AllConfig)
      → b ≡ c.prometheus.is_enable
      → ((more : List Text) × ((with_tags b
              (metrics_of b c.prometheus).tags
              (files_of paths c.server)).tags
            ≡ c.server.tags ++ more))
        × (((metrics_of b c.prometheus).is_enable ≡ false)
            ⊎ AreAmong
                (metrics_of b c.prometheus).tags
                (with_tags b (metrics_of b c.prometheus).tags (files_of paths c.server)).tags)
  complete-with b c e =
      let ((more, h), (same, k)) = tagged-with b c.prometheus (files_of paths c.server) in
      (
        (more, h ∙ ap (λ l. l ++ more) (files_of-tags c.server)),
        elim k [ inl f ↦ inl (same ∙ sym e ∙ f) | inr a ↦ inr a ],
      )

  after_widgets-IsComplete :
      (c : AllConfig) (n : ℕ)
      → c.error_base ≡ pos n
      → IsComplete paths c.server.tags (after_widgets paths (before_widgets paths c))
  unfolding before_widgets after_widgets route_of template_of
  after_widgets-IsComplete c n e =
      let (m, h, k) = base_of-pos n in
      record {
        base = (m, ap base_of e ∙ h, k);
        named = λ url.
            complete_url-is_nil (route_of c.route) url (or_index-is_nil c.route.default_controller);
        action = or_index-is_nil c.route.default_action;
        lower_controller = or_index-lower c.route.default_controller;
        lower_action = or_index-lower c.route.default_action;
        html = absolute-is_abs c.template.html_path;
        tagged = complete-with c.prometheus.is_enable c refl;
      }

  succeeded :
      (b : Bool) (c : AllConfig) (tags : List Text)
      → IsComplete paths tags (after_widgets paths c)
      → (if◌then◌else◌ {A = Err × AllConfig} b
          (none, after_widgets paths c)
          (some (codes "error WidgetsPath"), c)).0
        ≡ none
      → IsComplete paths tags
          (if◌then◌else◌ {A = Err × AllConfig} b
            (none, after_widgets paths c)
            (some (codes "error WidgetsPath"), c)).1
  succeeded true c tags h e = h
  succeeded false c tags h e = absurd (cc e)

  -- With a base of the error numbers that is not negative, and where a path joined to that of the program
  -- is absolute, initDefaultConfig that succeeds leaves: a base of two digits at least, a default
  -- controller and a default action in lower case, so that every path of a request names a controller, an
  -- absolute path of the templates, and a server that has its tags, in front, and those of the metrics if
  -- these are enabled.
  pub init_default_config-IsComplete :
      (c : AllConfig) (n : ℕ)
      → c.error_base ≡ pos n
      → (init_default_config paths c).0 ≡ none
      → IsComplete paths c.server.tags (init_default_config paths c).1
  unfolding init_default_config
  init_default_config-IsComplete c n e h =
      succeeded (has_widgets paths (before_widgets paths c).template) (before_widgets paths c)
        c.server.tags (after_widgets-IsComplete c n e) h

-- ===== src/Route/Dispatch.antt =====
-- DispatchRoute of router_map.go: the path that it writes, and the lookup of it.
use hfw.Base.{
  ℕ, false, [], ◌∷◌, ◌++◌, none, some, ◌≡◌, ◌≢◌, refl, arith, inl, inr, ◌==◌, Bool-cases,
  Option-cases,
}
use hfw.Base.Text.{Text, codes, has_prefix, to_lower, trim, trim_left}
use hfw.Base.Text.Parts.{has_byte, rejoin-split, rejoin-split_single}
use hfw.Base.Dict.{lookup}
use mathlib.Core.List.{reverse, reverse-append}
use hfw.Route.{
  RouteConfig, Routes, Target, complete_url, action_key, find_at, dispatch_target, dispatch_route,
}
use hfw.Route.Key.{NoLower}
use hfw.Route.Tables.{IsSound}
use hfw.Route.Find.{asked, last_path, fallback, find_instance_third}
use hfw.Route.Resolve.{find_at-Matches}

-- Trimming stops at a byte that is not cut: what stands behind it is kept.
trim_left_stop :
    (cut y : ℕ) (xs ys : Text)
    → (y == cut) ≡ false
    → (zs : Text) × (trim_left cut (xs ++ (y ∷ ys)) ≡ zs ++ (y ∷ ys))
unfolding trim_left
trim_left_stop cut y [] ys h = ([], rw h)
trim_left_stop cut y (x ∷ xs) ys h = elim (Bool-cases (x == cut)) [
  | inl e ↦ let (zs, f) = trim_left_stop cut y xs ys h in (zs, rw e f)
  | inr e ↦ (x ∷ xs, rw e)
]

trim_two :
    (cut x y : ℕ) (s : Text)
    → (x == cut) ≡ false
    → (y == cut) ≡ false
    → (zs : Text) × (trim cut (x ∷ y ∷ s) ≡ x ∷ y ∷ zs)
unfolding trim
trim_two cut x y s h k =
    let (zs, e) = trim_left_stop cut y (reverse s) (x ∷ []) k in
    (reverse zs, rw (h, reverse-append (x ∷ y ∷ []) s, e, reverse-append zs (y ∷ x ∷ [])))

-- The path that a dispatch looks for begins with "c:".
dispatch-asked :
    (config : RouteConfig) (url : Text) (target : Target)
    → (rest : Text) × (asked config url (dispatch_target target) ≡ b'c' ∷ b':' ∷ rest)
unfolding dispatch_target complete_url
dispatch-asked config url target =
    let s = to_lower (target.controller ++ (codes " M:" ++ target.action)) in
    let (rest, e) = trim_two b'/' b'c' b':' s refl refl in (rest, unfold to_lower in rw e)

-- A registered path is not empty, and begins neither with a slash nor with "c:".
abbrev pub IsOrdinary : Text → Type 0
IsOrdinary [] = ⊥
IsOrdinary (x ∷ path) = (x ≢ b'/') × (has_prefix (x ∷ path) (codes "c:") ≡ false)

not-IsOrdinary :
    (s path action : Text) → b'c' ∷ b':' ∷ s ≡ action_key path action → ¬ IsOrdinary path
unfolding has_prefix
not-IsOrdinary s [] action e h = h
not-IsOrdinary s (x ∷ []) action e h = ground arith
not-IsOrdinary s (x ∷ y ∷ path) action e h = ground arith

not-IsOrdinary_slash :
    (s path action : Text) → b'/' ∷ s ≡ action_key path action → ¬ IsOrdinary path
not-IsOrdinary_slash s [] action e h = h
not-IsOrdinary_slash s (x ∷ path) action e h = ground arith

module _ (t : Routes) (method : Text) (sound : IsSound t) (capital : NoLower method)
    (ordinary : (path name : Text)
      → lookup path t.route_map_register ≡ some name
      → IsOrdinary path) where
  missed :
      (path : Text)
      → ((cp action : Text) → path ≡ action_key cp action → ¬ IsOrdinary cp)
      → find_at t path method ≡ none
  missed path h = elim (Option-cases (find_at t path method)) [
    | inl e ↦ e
    | inr (i, e) ↦
        let m = (find_at-Matches t path method i sound capital e).serves in
        absurd (h m.controller_path m.action m.shape (ordinary m.controller_path _ m.bound))
  ]

  missed_last : (rest : Text) → find_at t (last_path (b'c' ∷ b':' ∷ rest)) method ≡ none
  missed_last rest = elim (Bool-cases (has_byte b'/' rest)) [
    | inl e ↦ rw (rejoin-split (b'c' ∷ b':' ∷ rest) b'/' e) (missed _ (not-IsOrdinary rest))
    | inr e ↦
        rw (rejoin-split_single (b'c' ∷ b':' ∷ rest) b'/' e)
          (missed _ (not-IsOrdinary_slash (b'c' ∷ b':' ∷ rest)))
  ]

  -- DispatchRoute calls no action of any registered controller, whatever names the context holds:
  -- it calls NotFound of the default instance (or panics where there is none). The tables are sound,
  -- no registered path is empty or begins with a slash or with "c:", and the request's verb has no
  -- lower-case letter.
  dispatch_route_lost :
      (config : RouteConfig) (url : Text) (target : Target)
      → (path : Text) × (dispatch_route config t url method target
          ≡ fallback path t.default_instance)
  unfolding dispatch_route
  dispatch_route_lost config url target =
      let (rest, e) = dispatch-asked config url target in
      (
        last_path (asked config url (dispatch_target target)),
        find_instance_third config t url method (dispatch_target target)
            (rw e (missed _ (not-IsOrdinary (rest ++ (b'/' ∷ config.default_action)))))
            (rw e (missed_last rest)),
      )

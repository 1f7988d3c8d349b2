-- ===== src/Config/Rounds.antt =====
-- Each default of configs/util.go, set a second time.
use native.Mathlib.Numerals.{unary_clauses}
use hfw.Base.{
  ℕ, ◌==◌, zero, suc, ◌^◌, ◌≤◌, Bool, true, false, not, ◌&&◌, ◌||◌, List, [], ◌∷◌, ◌++◌, ◌≡◌, ◌⊎◌,
  inl, inr, refl, sym, ap, ◌∙◌, arith, if◌then◌else◌, Bool-cases,
}
use hfw.Base.Text.{Text, codes, is_nil, to_lower}
use hfw.Base.Text.Laws.{to_lower_idem, text_eq_refl}
use hfw.Base.Int.{pos, ltb_ℤ}
use hfw.Route.{is_one_of}
use hfw.Config.{
  TemplateConfig, ServerConfig, SessionNames, PrometheusConfig, Paths, base_of, or_text, or_index,
  names_of, one_server, tags_or, add_tags, metrics_of, with_tags, absolute, absolute_if,
  template_of, files_of,
}

ten_le : (n : ℕ) → 10 ≤ 10 ^ suc n
ten_le zero = omega arith
ten_le (suc n) = simp unary_clauses (omega (arith, ten_le n))

powered_pos :
    (n : ℕ) (b : Bool)
    → b ≡ ltb_ℤ (pos (suc n)) (pos 10)
    → (m : ℕ) × ((if b then pos (10 ^ suc n) else pos (suc n)) ≡ pos m) × (10 ≤ m)
powered_pos n true e = (10 ^ suc n, refl, ten_le n)
powered_pos n false e = (suc n, refl, ground arith)

pub base_of-pos : (n : ℕ) → (m : ℕ) × (base_of (pos n) ≡ pos m) × (10 ≤ m)
unfolding base_of
base_of-pos zero = (10 ^ 6, refl, omega arith)
base_of-pos (suc n) =
    let (m, e, h) = powered_pos n (ltb_ℤ (pos (suc n)) (pos 10)) refl in
    let nonzero : (suc n == 0) ≡ false = ground arith in (m, rw nonzero e, h)

base_of_large : (m : ℕ) → 10 ≤ m → base_of (pos m) ≡ pos m
unfolding base_of
base_of_large m h =
    let nonzero : (m == 0) ≡ false = ground arith in
    let large : ltb_ℤ (pos m) (pos 10) ≡ false = ground arith in rw nonzero (rw large refl)

-- A base that is no negative number is completed once.
pub base_of_idem : (n : ℕ) → base_of (base_of (pos n)) ≡ base_of (pos n)
base_of_idem n = let (m, e, h) = base_of-pos n in ap base_of e ∙ base_of_large m h ∙ sym e

pub or_index_idem : (s : Text) → or_index (or_index s) ≡ or_index s
unfolding to_lower
or_index_idem [] = refl
or_index_idem (c ∷ s) = to_lower_idem (c ∷ s)

or_text_idem : (c : ℕ) (t s : Text) → or_text (c ∷ t) (or_text (c ∷ t) s) ≡ or_text (c ∷ t) s
or_text_idem c t [] = refl
or_text_idem c t (d ∷ s) = refl

pub one_server_idem : (s : Text) (l : List Text) → one_server s (one_server s l) ≡ one_server s l
one_server_idem [] [] = refl
one_server_idem (c ∷ s) [] = refl
one_server_idem [] (a ∷ l) = refl
one_server_idem (c ∷ s) (a ∷ l) = refl

pub names_of_idem : (b : Bool) (s : SessionNames) → names_of b (names_of b s) ≡ names_of b s
names_of_idem false s = refl
names_of_idem true s = λ i. record {
  cookie_name = or_text_idem b's' (codes "essionid") s.cookie_name i;
  cache_type = or_text_idem b'r' (codes "edis") s.cache_type i;
}

tags_or_idem : (l : List Text) → tags_or (tags_or l) ≡ tags_or l
tags_or_idem [] = refl
tags_or_idem (t ∷ l) = refl

-- The tags that are all there.
abbrev pub AreAmong : List Text → List Text → Type 0
AreAmong [] have = Unit
AreAmong (t ∷ ts) have = (is_one_of t have ≡ true) × AreAmong ts have

is_one_of-append :
    (t : Text) (a b : List Text) → is_one_of t (a ++ b) ≡ (is_one_of t a || is_one_of t b)
unfolding is_one_of
is_one_of-append t [] b = refl
is_one_of-append t (s ∷ a) b = ground (arith, is_one_of-append t a b)

pub add_tags-keeps :
    (t : Text) (ts have : List Text)
    → is_one_of t have ≡ true
    → is_one_of t (add_tags ts have) ≡ true
unfolding add_tags
add_tags-keeps t [] have h = h
add_tags-keeps t (s ∷ ts) have h =
    add_tags-keeps t ts (if is_one_of s have then have else have ++ (s ∷ []))
      (kept (is_one_of s have))
  where
    kept : (b : Bool) → is_one_of t (if b then have else have ++ (s ∷ [])) ≡ true
    kept true = h
    kept false = is_one_of-append t have (s ∷ []) ∙ ap (λ b. b || is_one_of t (s ∷ [])) h

added :
    (t : Text) (b : Bool) (have : List Text)
    → is_one_of t have ≡ b
    → is_one_of t (if b then have else have ++ (t ∷ [])) ≡ true
unfolding is_one_of
added t true have h = h
added t false have h = is_one_of-append t have (t ∷ []) ∙ ground (arith, text_eq_refl t)

pub add_tags-AreAmong : (ts have : List Text) → AreAmong ts (add_tags ts have)
unfolding add_tags
add_tags-AreAmong [] have = tt
add_tags-AreAmong (t ∷ ts) have =
    let have' = if is_one_of t have then have else have ++ (t ∷ []) in
    (add_tags-keeps t ts have' (added t (is_one_of t have) have refl), add_tags-AreAmong ts have')

add_tags-among : (ts have : List Text) → AreAmong ts have → add_tags ts have ≡ have
unfolding add_tags
add_tags-among [] have h = refl
add_tags-among (t ∷ ts) have (h, k) =
    ap (λ b. add_tags ts (if b then have else have ++ (t ∷ []))) h ∙ add_tags-among ts have k

pub with_tags_idem :
    (b : Bool) (ts : List Text) (s : ServerConfig)
    → with_tags b ts (with_tags b ts s) ≡ with_tags b ts s
with_tags_idem false ts s = refl
with_tags_idem true ts s =
    λ i. record s { tags = add_tags-among ts (add_tags ts s.tags) (add_tags-AreAmong ts s.tags) i }

pub metrics_of_idem :
    (b : Bool) (p : PrometheusConfig) → metrics_of b (metrics_of b p) ≡ metrics_of b p
metrics_of_idem false p = refl
metrics_of_idem true p = λ i. record {
  is_enable = p.is_enable;
  route_path = or_text_idem b'/' (codes "metrics") p.route_path i;
  requests_total = or_text_idem b'r' (codes "equests_total") p.requests_total i;
  requests_costtime = or_text_idem b'r' (codes "equests_costtime") p.requests_costtime i;
  tags = tags_or_idem p.tags i;
}

module _ (paths : Paths) (law : (path : Text) → paths.is_abs (paths.join_app path) ≡ true) where
  pub absolute_idem : (path : Text) → absolute paths (absolute paths path) ≡ absolute paths path
  absolute_idem path = elim (Bool-cases (paths.is_abs path)) [
    | inl e ↦ rw e (rw e refl)
    | inr e ↦ rw e (rw (law path) refl)
  ]

  absolute_if_fixed : (path : Text) → absolute paths path ≡ path → absolute_if paths path ≡ path
  absolute_if_fixed [] h = refl
  absolute_if_fixed (c ∷ path) h = h

  absolute_if_idem :
      (path : Text) → absolute_if paths (absolute_if paths path) ≡ absolute_if paths path
  absolute_if_idem [] = refl
  absolute_if_idem (c ∷ path) =
      absolute_if_fixed (absolute paths (c ∷ path)) (absolute_idem (c ∷ path))

  pub template_of_idem :
      (t : TemplateConfig) → template_of paths (template_of paths t) ≡ template_of paths t
  unfolding template_of
  template_of_idem t = λ i. record {
    html_path = absolute_idem t.html_path i;
    widgets_path = absolute_if_idem t.widgets_path i;
  }

  -- Files that another round leaves.
  abbrev pub AreFixed : ServerConfig → Type 0
  AreFixed s =
      ((not (is_nil s.cert_file) && not (is_nil s.key_file)) ≡ false)
      ⊎ ((absolute paths s.cert_file ≡ s.cert_file) × (absolute paths s.key_file ≡ s.key_file))

  files_fixed :
      (b : Bool) (s : ServerConfig)
      → (b ≡ false)
        ⊎ ((absolute paths s.cert_file ≡ s.cert_file) × (absolute paths s.key_file ≡ s.key_file))
      → (if b
          then record s {
            cert_file = absolute paths s.cert_file;
            key_file = absolute paths s.key_file;
          }
          else s)
        ≡ s
  files_fixed false s h = refl
  files_fixed true s (inl h) = absurd (cc h)
  files_fixed true s (inr (h, k)) = λ i. record s { cert_file = h i; key_file = k i }

  files_done :
      (b : Bool) (s : ServerConfig)
      → b ≡ (not (is_nil s.cert_file) && not (is_nil s.key_file))
      → AreFixed (
          if b
          then record s {
            cert_file = absolute paths s.cert_file;
            key_file = absolute paths s.key_file;
          }
          else s)
  files_done false s e = inl (sym e)
  files_done true s e = inr (absolute_idem s.cert_file, absolute_idem s.key_file)

  pub files_of-AreFixed : (s : ServerConfig) → AreFixed (files_of paths s)
  unfolding files_of
  files_of-AreFixed s = files_done (not (is_nil s.cert_file) && not (is_nil s.key_file)) s refl

  pub files_of_fixed : (s : ServerConfig) → AreFixed s → files_of paths s ≡ s
  unfolding files_of
  files_of_fixed s h = files_fixed (not (is_nil s.cert_file) && not (is_nil s.key_file)) s h

  pub tagged-AreFixed :
      (b : Bool) (ts : List Text) (s : ServerConfig) → AreFixed s → AreFixed (with_tags b ts s)
  tagged-AreFixed false ts s h = h
  tagged-AreFixed true ts s h = h

  pub enabled_same : (b : Bool) (p : PrometheusConfig) → (metrics_of b p).is_enable ≡ p.is_enable
  enabled_same false p = refl
  enabled_same true p = refl

-- ===== src/Curl/Kept.antt =====
-- The clients that curl/curl.go keeps are as the curls that get them are set to.
use hfw.Base.{
  ℕ, Bool, true, false, not, ◌==◌, Option, none, some, ◌≡◌, ◌⊎◌, inl, inr, refl, sym, ap, ◌∙◌,
  subst, arith, if◌then◌else◌, length,
}
use hfw.Base.Text.{Text, codes, is_nil, has_prefix}
use hfw.Base.Dict.{lookup, lookup-insert_cases}
use hfw.Curl.Clients.{
  Settings, HttpClient, Curls, key_of, Fits, new_client, asks, with_found, with_proxy,
  get_http_client, set_settings, CurlStep, CurlReach, may_redirect, AllFit,
}

-- The settings that a key was made of.
abbrev read_key : Text → Bool × Bool
read_key t =
    let keep_alive = has_prefix t (codes "t") in
    (keep_alive, if length t == 10 then true else if length t == 12 then false else not keep_alive)

read_key-key_of : (k a : Bool) → read_key (key_of k a) ≡ (k, a)
unfolding key_of has_prefix
read_key-key_of true true = refl
read_key-key_of true false = refl
read_key-key_of false true = refl
read_key-key_of false false = refl

key_of-inj : (a b c d : Bool) → key_of a b ≡ key_of c d → ◌≡◌ {A = Bool × Bool} (a, b) (c, d)
key_of-inj a b c d e = sym (read_key-key_of a b) ∙ ap read_key e ∙ read_key-key_of c d

module _ (parse_url : Text → Text ⊎ Text) where
  other_settings :
      (b : Bool) (s t : Settings) (a : Bool)
      → (b ≡ true → ⊥)
      → t.auto_redirect ≡ a
      → (if b then s else t).auto_redirect ≡ a
  other_settings true s t a h e = absurd (h refl)
  other_settings false s t a h e = e

  apart : (i j : ℕ) (c : Curls) → (i == j) ≡ true → c.has_asked i ≡ false → c.has_asked j ≡ true → ⊥
  apart i j c q new asked =
      let same : i ≡ j = ground arith in
      let now : c.has_asked i ≡ true = subst (λ k. c.has_asked k ≡ true) (sym same) asked in
      cc (new, now)

  set-AllFit :
      (i : ℕ) (s : Settings) (c : Curls)
      → c.has_asked i ≡ false
      → AllFit parse_url c
      → AllFit parse_url (set_settings parse_url i s c)
  set-AllFit i s c new h k a hc e =
      let f = h k a hc e in
      record {
        keeps = f.keeps;
        redirects =
            other_settings (i == hc.check_redirect) s (c.settings hc.check_redirect) a
              (λ q. apart i hc.check_redirect c q new f.asked) f.redirects;
        asked = f.asked;
        is_direct = f.is_direct;
      }

  true_or : (b c : Bool) → c ≡ true → (if b then true else c) ≡ true
  true_or true c h = refl
  true_or false c h = h

  asks-AllFit : (i : ℕ) (c : Curls) → AllFit parse_url c → AllFit parse_url (asks i c)
  asks-AllFit i c h k a hc e =
      let f = h k a hc e in
      record {
        keeps = f.keeps;
        redirects = f.redirects;
        asked = true_or (i == hc.check_redirect) (c.has_asked hc.check_redirect) f.asked;
        is_direct = f.is_direct;
      }

  -- The client that a curl gets keeps connections alive and follows redirects as the curl is set to.
  abbrev pub IsFor : Settings → (HttpClient ⊎ Text) × Curls → Type 0
  IsFor s (inl hc, c) =
      (hc.disable_keep_alives ≡ not s.keep_alive) × (may_redirect parse_url hc c ≡ s.auto_redirect)
  IsFor s (inr e, c) = Unit

  found-IsFor :
      (i : ℕ) (o : Option HttpClient) (c : Curls)
      → c.has_asked i ≡ true
      → AllFit parse_url c
      → lookup (key_of (c.settings i).keep_alive (c.settings i).auto_redirect) c.client_map ≡ o
      → IsFor (c.settings i) (with_found i (c.settings i) o c)
        × AllFit parse_url (with_found i (c.settings i) o c).1
  found-IsFor i (some hc) c asked h e =
      let f = h (c.settings i).keep_alive (c.settings i).auto_redirect hc e in
      ((f.keeps, f.redirects), h)
  found-IsFor i none c asked h e =
      let s = c.settings i in
      let key = key_of s.keep_alive s.auto_redirect in
      (
        (refl, refl),
        λ k a hc e.
            elim (lookup-insert_cases key (key_of k a) (new_client i s none) hc c.client_map e) [
              | inl (same, new) ↦
                  let both = key_of-inj s.keep_alive s.auto_redirect k a same in
                  subst (λ x. Fits parse_url k a (with_found i s none c).1 x) new
                    (record {
                      keeps = ap (λ p. not p.0) both;
                      redirects = ap (λ p. p.1) both;
                      asked = asked;
                      is_direct = refl;
                    })
              | inr before ↦
                  let f = h k a hc before in
                  record {
                    keeps = f.keeps;
                    redirects = f.redirects;
                    asked = f.asked;
                    is_direct = f.is_direct;
                  }
            ],
      )

  proxied-IsFor :
      (i : ℕ) (r : Text ⊎ Text) (c : Curls)
      → AllFit parse_url c
      → IsFor (c.settings i) (with_proxy i (c.settings i) r c)
        × AllFit parse_url (with_proxy i (c.settings i) r c).1
  proxied-IsFor i (inl host) c h = ((refl, refl), h)
  proxied-IsFor i (inr e) c h = (tt, h)

  either-IsFor :
      (s : Settings) (b : Bool) (x y : (HttpClient ⊎ Text) × Curls)
      → IsFor s x × AllFit parse_url x.1
      → IsFor s y × AllFit parse_url y.1
      → IsFor s (if b then x else y) × AllFit parse_url (if b then x else y).1
  either-IsFor s true x y h k = h
  either-IsFor s false x y h k = k

  self_asked : (i : ℕ) (c : Curls) → (asks i c).has_asked i ≡ true
  self_asked i c = ground arith

  get-IsFor :
      (i : ℕ) (c : Curls)
      → AllFit parse_url c
      → IsFor (c.settings i) (get_http_client parse_url i c)
        × AllFit parse_url (get_http_client parse_url i c).1
  unfolding get_http_client
  get-IsFor i c h =
      let c' = asks i c in
      let s = c.settings i in
      either-IsFor s (is_nil s.proxy_url) _ _
        (found-IsFor i (lookup (key_of s.keep_alive s.auto_redirect) c'.client_map) c'
          (self_asked i c) (asks-AllFit i c h) refl)
        (proxied-IsFor i (parse_url s.proxy_url) c' (asks-AllFit i c h))

  CurlReach-AllFit : {c : Curls} → CurlReach parse_url c → AllFit parse_url c
  unfolding lookup
  CurlReach-AllFit (CurlReach.begins settings) k a hc e = absurd (cc e)
  CurlReach-AllFit (CurlReach.goes_on r (CurlStep.sets {c} i s new)) k a hc e =
      set-AllFit i s c new (λ k a hc e. CurlReach-AllFit r k a hc e) k a hc e
  CurlReach-AllFit (CurlReach.goes_on r (CurlStep.gets {c} i)) k a hc e =
      (get-IsFor i c (λ k a hc e. CurlReach-AllFit r k a hc e)).1 k a hc e

  -- Whatever curls have asked for clients before, and where no curl is set otherwise once it has asked: the
  -- client that a curl gets, kept from another curl or not, keeps connections alive and follows redirects
  -- as this curl is set to.
  pub get_http_client-IsFor :
      {c : Curls}
      → CurlReach parse_url c
      → (i : ℕ) → IsFor (c.settings i) (get_http_client parse_url i c)
  get_http_client-IsFor {c} r i = (get-IsFor i c (λ k a hc e. CurlReach-AllFit r k a hc e)).0

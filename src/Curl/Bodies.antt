-- ===== src/Curl/Bodies.antt =====
-- The bodies of the requests that one curl of curl/curl.go makes, one after the other.
use hfw.Base.{
  ℕ, Bool, true, false, not, ◌||◌, List, [], ◌∷◌, Option, none, some, ◌≡◌, refl, ap, ◌∙◌, arith,
  if◌then◌else◌, drop, Bool-cases, inl, inr,
}
use hfw.Base.Text.{Text, is_nil}
use hfw.Session.{Err}
use hfw.Curl.{
  Posting, Part, HttpRequest, Lib, is_some, has_form, form_of, with_form, reader_or, is_post,
  requested, post_requested, create_request, read_some, transported,
}

module _ (lib : Lib) where
  abbrev pub or_else : Option Text → Option Text → Option Text
  or_else (some t) o = some t
  or_else none o = o

  abbrev pub non_empty : Text → Option Text
  non_empty [] = none
  non_empty (c ∷ t) = some (c ∷ t)

  abbrev pub encoded : Bool → List Part × Err → Option Text
  encoded true (ps, none) = some (lib.encode ps)
  encoded _ _ = none

  -- What there is to send: the reader, the bytes, the string or the form, the first that is set.
  abbrev pub content_of : Posting → Option Text
  unfolding form_of
  content_of c = or_else c.post_reader (
      or_else (non_empty c.post_bytes)
        (or_else (non_empty c.post_string) (encoded (has_form c) (form_of lib c))))

  abbrev pub body_of : Option HttpRequest → Option Text
  body_of none = none
  body_of (some r) = r.body

  -- The bodies of requests, of which the transport reads `ns` bytes.
  abbrev pub bodies : List ℕ → Posting → List (Option Text)
  unfolding create_request
  bodies [] c = []
  bodies (n ∷ ns) c =
      body_of (create_request lib c).0.0 ∷ bodies ns (transported lib n (create_request lib c).1)

  -- A text that is read on.
  abbrev pub rests : List ℕ → Text → List (Option Text)
  rests [] t = []
  rests (n ∷ ns) t = some t ∷ rests ns (drop n t)

  -- The request can be made of `t`.
  abbrev IsReady : Text → Posting × Err → Type 0
  IsReady t r = (r.1 ≡ none) × (r.0.post_reader ≡ some t)

  form-IsReady :
      (b : Bool) (r : List Part × Err) (c : Posting) (t : Text)
      → encoded b r ≡ some t
      → IsReady t (if◌then◌else◌ {A = Posting × Err} b (with_form lib r c) (c, none))
  form-IsReady true (ps, none) c t e = (refl, e)
  form-IsReady true (ps, some err) c t e = absurd (cc e)
  form-IsReady false (ps, none) c t e = absurd (cc e)
  form-IsReady false (ps, some err) c t e = absurd (cc e)

  string-IsReady :
      (s : Text) (c : Posting) (t : Text)
      → or_else (non_empty s) (encoded (has_form c) (form_of lib c)) ≡ some t
      → IsReady t (
          if◌then◌else◌ {A = Posting × Err}
            (not (is_nil s))
            (record c { post_reader = some s }, none)
            (if has_form c then with_form lib (form_of lib c) c else (c, none)))
  string-IsReady [] c t e = form-IsReady (has_form c) (form_of lib c) c t e
  string-IsReady (d ∷ s) c t e = (refl, e)

  bytes-IsReady :
      (s : Text) (c : Posting) (t : Text)
      → or_else
          (non_empty s)
          (or_else (non_empty c.post_string) (encoded (has_form c) (form_of lib c)))
        ≡ some t
      → IsReady t (
          if◌then◌else◌ {A = Posting × Err}
            (not (is_nil s))
            (record c { post_reader = some s }, none)
            (if not (is_nil c.post_string)
              then (record c { post_reader = some c.post_string }, none)
              else if has_form c
              then with_form lib (form_of lib c) c
              else (c, none)))
  bytes-IsReady [] c t e = string-IsReady c.post_string c t e
  bytes-IsReady (d ∷ s) c t e = (refl, e)

  reader_at-IsReady :
      (o : Option Text) (c : Posting) (t : Text)
      → c.post_reader ≡ o
      → or_else o (
          or_else
            (non_empty c.post_bytes)
            (or_else (non_empty c.post_string) (encoded (has_form c) (form_of lib c))))
        ≡ some t
      → IsReady t (reader_or lib o c)
  unfolding reader_or
  reader_at-IsReady (some s) c t h e = (refl, h ∙ e)
  reader_at-IsReady none c t h e = bytes-IsReady c.post_bytes c t e

  -- Where there is something to send, it is posted.
  has_content :
      (o : Option Text) (s u : Text) (f : Bool) (r : List Part × Err) (t : Text)
      → or_else o (or_else (non_empty s) (or_else (non_empty u) (encoded f r))) ≡ some t
      → (is_some o || not (is_nil s) || not (is_nil u) || f) ≡ true
  has_content (some o) s u f r t e = ground arith
  has_content none (c ∷ s) u f r t e = ground arith
  has_content none [] (c ∷ u) f r t e = ground arith
  has_content none [] [] true r t e = refl
  has_content none [] [] false (ps, none) t e = absurd (cc e)
  has_content none [] [] false (ps, some err) t e = absurd (cc e)

  -- The method and the URL are kept by what is made of the body.
  abbrev IsSame : Posting → Posting → Type 0
  IsSame c c' = (c'.method ≡ c.method) × (c'.url ≡ c.url)

  taken_same :
      (c c' : Posting)
      → IsSame c c'
      → lib.new_request c.method c.url ≡ none
      → lib.new_request c'.method c'.url ≡ none
  taken_same c c' (h, k) law =
      ap (λ m. lib.new_request m c'.url) h ∙ ap (lib.new_request c.method) k ∙ law

  either-IsSame :
      (b : Bool) (c : Posting) (x y : Posting × Err)
      → IsSame c x.0
      → IsSame c y.0
      → IsSame c (if b then x else y).0
  either-IsSame true c x y h k = h
  either-IsSame false c x y h k = k

  with_form-IsSame : (r : List Part × Err) (c : Posting) → IsSame c (with_form lib r c).0
  with_form-IsSame (ps, none) c = (refl, refl)
  with_form-IsSame (ps, some e) c = (refl, refl)

  reader_or-IsSame : (o : Option Text) (c : Posting) → IsSame c (reader_or lib o c).0
  unfolding reader_or
  reader_or-IsSame (some t) c = (refl, refl)
  reader_or-IsSame none c =
      either-IsSame (not (is_nil c.post_bytes)) c _ _ (refl, refl)
        (either-IsSame (not (is_nil c.post_string)) c _ _ (refl, refl)
          (either-IsSame (has_form c) c _ _ (with_form-IsSame (form_of lib c) c) (refl, refl)))

  requested-IsSame : (e : Err) (c : Posting) → IsSame c (requested lib e c).1
  requested-IsSame none c = (refl, refl)
  requested-IsSame (some e) c = (refl, refl)

  IsSame-trans : (a b c : Posting) → IsSame a b → IsSame b c → IsSame a c
  IsSame-trans a b c (h, k) (h', k') = (h' ∙ h, k' ∙ k)

  post_requested-IsSame :
      (r : Posting × Err) (c : Posting) → IsSame c r.0 → IsSame c (post_requested lib r).1
  post_requested-IsSame (c', some e) c h = h
  post_requested-IsSame (c', none) c h =
      IsSame-trans c c' (requested lib (lib.new_request c'.method c'.url) c').1 h
        (requested-IsSame (lib.new_request c'.method c'.url) c')

  create_request-IsSame : (c : Posting) → IsSame c (create_request lib c).1
  unfolding create_request
  create_request-IsSame c = elim (Bool-cases (is_post lib c)) [
    | inl e ↦
        rw e (
          post_requested-IsSame (reader_or lib c.post_reader c) c
            (reader_or-IsSame c.post_reader c))
    | inr e ↦ rw e (requested-IsSame (lib.new_request c.method c.url) c)
  ]

  made_ready :
      (r : Posting × Err) (t : Text)
      → lib.new_request r.0.method r.0.url ≡ none
      → IsReady t r
      → (body_of (post_requested lib r).0.0 ≡ some t)
        × ((post_requested lib r).1.post_reader ≡ some t)
  made_ready (c, some e) t law (h, k) = absurd (cc h)
  made_ready (c, none) t law (h, k) = (
    ap (λ o. body_of (requested lib o c).0.0) law ∙ k,
    ap (λ o. (requested lib o c).1.post_reader) law ∙ k,
  )

  create_request-body :
      (c : Posting) (t : Text)
      → lib.new_request c.method c.url ≡ none
      → content_of c ≡ some t
      → (body_of (create_request lib c).0.0 ≡ some t)
        × ((create_request lib c).1.post_reader ≡ some t)
  unfolding create_request
  create_request-body c t law e =
      rw (has_content c.post_reader c.post_bytes c.post_string (has_form c) (form_of lib c) t e) (
        made_ready (reader_or lib c.post_reader c) t
          (taken_same c (reader_or lib c.post_reader c).0 (reader_or-IsSame c.post_reader c) law)
          (reader_at-IsReady c.post_reader c t refl e))

  left_over :
      (o : Option Text) (n : ℕ) (t : Text) (rest : Option Text)
      → o ≡ some t
      → or_else (read_some lib n o) rest ≡ some (drop n t)
  left_over (some s) n t rest e = ap (λ o. or_else (read_some lib n o) rest) e
  left_over none n t rest e = absurd (cc e)

  -- Where http.NewRequest takes the method and the URL of the curl, and there is something to send: the first request of a curl has it
  -- as its body, the reader, the bytes, the string or the form, the first that is set; and each later
  -- request of the curl has what the transport has left of the body before, also where the bytes or the
  -- string are still there.
  pub bodies-rests :
      (ns : List ℕ) (c : Posting) (t : Text)
      → lib.new_request c.method c.url ≡ none
      → content_of c ≡ some t
      → bodies ns c ≡ rests ns t
  unfolding create_request
  bodies-rests [] c t law e = refl
  bodies-rests (n ∷ ns) c t law e =
      let (body, left) = create_request-body c t law e in
      let c' = transported lib n (create_request lib c).1 in
      let law' : lib.new_request c'.method c'.url ≡ none =
        taken_same c (create_request lib c).1 (create_request-IsSame c) law in
      let content : content_of c' ≡ some (drop n t) =
        left_over (create_request lib c).1.post_reader n t _ left in
      ap (λ b. b ∷ bodies ns c') body
      ∙ ap (λ l. some t ∷ l) (bodies-rests ns c' (drop n t) law' content)

-- ===== src/Api/Tries.antt =====
-- How often api/api.go tries, and when a call has succeeded.
use hfw.Base.{
  Bool, false, if◌then◌else◌, ℕ, zero, suc, ◌+◌, ◌<◌, true, List, [], ◌∷◌, Option, none, some, ◌≡◌,
  refl, sym, ap, subst, arith, Bool-cases, inl, inr,
}
use hfw.Base.Text.{Text}
use hfw.Base.Int.{pos}
use hfw.Context.Errors.{eq_ℤ}
use hfw.Session.{Err}
use hfw.Discovery.{ConsulResolver, Got, got, no_address, out_of_range, get_address_of}
use hfw.Api.{
  CallErr, AddressParams, of_resolver, of_addresses, of_other, answered, gave_up, no_try, stopped,
  Tried, addressed, choose_address, sent_at, after_request, at_url, at_address, at_start, tries,
  Outcome, decoded, after_read, read_body, concluded, posted, started_with, call_with, call,
  answer_of,
}
use hfw.Api.Urls.{Curl, Response, Net, CallOption, get_api_url}

module _ {H U S : Type 0} (net : Net H U S) where
  -- The first `i` requests failed; the last one stands first.
  abbrev pub FailedAll : ℕ → List (Curl H) → Type 0
  FailedAll zero [] = Unit
  FailedAll zero (c ∷ cs) = ⊥
  FailedAll (suc i) [] = ⊥
  FailedAll (suc i) (c ∷ cs) = ((e : Text) × ((net.request i c).1 ≡ some e)) × FailedAll i cs

  abbrev LastErr : ℕ → Err → List (Curl H) → Type 0
  LastErr zero none sent = Unit
  LastErr (suc i) (some e) (c ∷ cs) = (net.request i c).1 ≡ some e
  LastErr _ _ _ = ⊥

  -- What the loop has done when it ends: one of at most three requests was answered, and those before it
  -- failed; or all three failed, the last one with the error that is kept; or it stopped before a request.
  abbrev pub IsOutcome : Outcome net → Type 0
  IsOutcome (answered s, t) =
      (i : ℕ) × (i < 3)
      × (c : Curl H) × (cs : List (Curl H)) × (t.sent ≡ c ∷ cs)
      × (net.request i c ≡ (s, none))
      × FailedAll i cs
  IsOutcome (gave_up e, t) =
      (c : Curl H) × (cs : List (Curl H)) × (t.sent ≡ c ∷ cs)
      × ((net.request 2 c).1 ≡ some e)
      × FailedAll 2 cs
  IsOutcome (no_try, t) = ⊥
  IsOutcome (stopped e, t) = (i : ℕ) × (i < 3) × FailedAll i t.sent

  -- What the rest of the loop does after `i` tries.
  abbrev Continues : ℕ → (Err → Tried net → Outcome net) → Type 0
  Continues i again =
      (err : Err) (t : Tried net)
      → FailedAll i t.sent
      → LastErr i err t.sent
      → IsOutcome (again err t)

  after_request-IsOutcome :
      (again : Err → Tried net → Outcome net) (i : ℕ) (answer : S × Err) (c : Curl H)
      (cs : List (Curl H)) (t : Tried net)
      → Continues (suc i) again
      → i < 3
      → t.sent ≡ c ∷ cs
      → net.request i c ≡ answer
      → FailedAll i cs
      → IsOutcome (after_request net again answer t)
  after_request-IsOutcome again i (s, none) c cs t k h e r f = (i, h, c, cs, e, r, f)
  after_request-IsOutcome again i (s, some err) c cs t k h e r f =
      k (some err) t (rw e ((err, ap (λ a. a.1) r), f)) (rw e (ap (λ a. a.1) r))

  at_url-IsOutcome :
      (again : Err → Tried net → Outcome net) (i : ℕ) (url : Option (Text × Err)) (t : Tried net)
      → Continues (suc i) again
      → i < 3
      → FailedAll i t.sent
      → IsOutcome (at_url net again i url t)
  at_url-IsOutcome again i none t k h f = (i, h, f)
  at_url-IsOutcome again i (some (url, some err)) t k h f = (i, h, f)
  at_url-IsOutcome again i (some (url, none)) t k h f =
      after_request-IsOutcome again i (net.request i (sent_at net i url t).curl)
        (sent_at net i url t).curl t.sent (sent_at net i url t) k h refl refl f

  at_address-IsOutcome :
      (again : Err → Tried net → Outcome net) (i : ℕ) (uri : Text) (p : Tried net × Option CallErr)
      → Continues (suc i) again
      → i < 3
      → FailedAll i p.0.sent
      → IsOutcome (at_address net again i uri p)
  unfolding at_address
  at_address-IsOutcome again i uri (t, some e) k h f = (i, h, f)
  at_address-IsOutcome again i uri (t, none) k h f =
      at_url-IsOutcome again i (get_api_url net t.addresses uri) t k h f

  addressed-sent :
      (g : Got) (cr : Option ConsulResolver) (t : Tried net)
      → (addressed net (g, cr) t).0.sent ≡ t.sent
  addressed-sent (got a) cr t = refl
  addressed-sent (no_address m) cr t = refl
  addressed-sent out_of_range cr t = refl

  choose_address-sent :
      (cr : Option ConsulResolver) (t : Tried net) → (choose_address net cr t).0.sent ≡ t.sent
  choose_address-sent none t = refl
  choose_address-sent (some cr) t =
      addressed-sent (get_address_of net.int63n (some cr)).0 (get_address_of net.int63n (some cr)).1
        t

  at_start-IsOutcome :
      (again : Err → Tried net → Outcome net) (i : ℕ) (uri : Text) (done : Err) (t : Tried net)
      → Continues (suc i) again
      → i < 3
      → FailedAll i t.sent
      → IsOutcome (at_start net again i uri done t)
  unfolding at_start
  at_start-IsOutcome again i uri (some e) t k h f = (i, h, f)
  at_start-IsOutcome again i uri none t k h f =
      at_address-IsOutcome again i uri (choose_address net t.cr t) k h
        (subst (λ l. FailedAll i l) (sym (choose_address-sent t.cr t)) f)

  last_failed :
      (e : Text) (sent : List (Curl H))
      → FailedAll 3 sent
      → LastErr 3 (some e) sent
      → (c : Curl H) × (cs : List (Curl H)) × (sent ≡ c ∷ cs)
        × ((net.request 2 c).1 ≡ some e)
        × FailedAll 2 cs
  last_failed e [] f l = absurd f
  last_failed e (c ∷ cs) f l = (c, cs, refl, l, f.1)

  gave_up-IsOutcome :
      (uri : Text) (err : Err) (t : Tried net)
      → FailedAll 3 t.sent
      → LastErr 3 err t.sent
      → IsOutcome (tries net 0 3 uri err t)
  unfolding tries
  gave_up-IsOutcome uri none t f l = absurd l
  gave_up-IsOutcome uri (some e) t f l = last_failed e t.sent f l

  tries-IsOutcome : (left i : ℕ) (uri : Text) → i + left ≡ 3 → Continues i (tries net left i uri)
  unfolding tries
  tries-IsOutcome zero i uri h err t f l =
      let three : 3 ≡ i = omega arith in
      subst (λ j. Continues j (tries net 0 j uri)) three (gave_up-IsOutcome uri) err t f l
  tries-IsOutcome (suc left) i uri h err t f l =
      let more : i + 1 ≡ suc i = omega arith in
      at_start-IsOutcome (tries net left (i + 1) uri) i uri (net.done i) t
        (subst (λ j. Continues j (tries net left (i + 1) uri)) more
          (tries-IsOutcome left (i + 1) uri (omega arith)))
        (omega arith) f

  -- What the body of an answer was read as; under DEBUG, unmarshalling it may have failed.
  abbrev pub IsDecoded : Bool → S → Response → Type 0
  IsDecoded true s r =
      (body : Text) × (net.read_all s ≡ (body, none)) × ((net.unmarshal body).0 ≡ r)
  IsDecoded false s r = net.unmarshal_io s ≡ (r, none)

  -- What a call that returns no error has done.
  abbrev pub IsAnswered : (Response × Option CallErr) × Tried net → Type 0
  IsAnswered ((r, err), t) =
      (i : ℕ) × (i < 3)
      × (c : Curl H) × (cs : List (Curl H)) × (t.sent ≡ c ∷ cs)
      × (s : S) × (net.request i c ≡ (s, none))
      × (eq_ℤ (net.status_code s) (pos 200) ≡ true)
      × IsDecoded net.is_debug s r
      × FailedAll i cs

  decoded-none : (d : Response × Err) → (decoded net d).1 ≡ none → d ≡ ((decoded net d).0, none)
  decoded-none (r, none) h = refl
  decoded-none (r, some e) h = absurd (cc h)

  after_read-none :
      (s : S) (x : Text × Err)
      → net.read_all s ≡ x
      → (after_read net x).1 ≡ none
      → IsDecoded true s (after_read net x).0
  after_read-none s (body, none) e h = (body, e, refl)
  after_read-none s (body, some err) e h = absurd (cc h)

  read-IsDecoded :
      (debug : Bool) (s : S)
      → (if◌then◌else◌ {A = Response × Option CallErr} debug
          (after_read net (net.read_all s))
          (decoded net (net.unmarshal_io s))).1
        ≡ none
      → IsDecoded debug s
          (if◌then◌else◌ {A = Response × Option CallErr} debug
            (after_read net (net.read_all s))
            (decoded net (net.unmarshal_io s))).0
  read-IsDecoded true s h = after_read-none s (net.read_all s) refl h
  read-IsDecoded false s h = decoded-none (net.unmarshal_io s) h

  concluded-none :
      (url : Text) (s : S)
      → (concluded net url (answered s)).1 ≡ none
      → (eq_ℤ (net.status_code s) (pos 200) ≡ true)
        × IsDecoded net.is_debug s (concluded net url (answered s)).0
  unfolding concluded read_body
  concluded-none url s h = elim (Bool-cases (eq_ℤ (net.status_code s) (pos 200))) [
    | inl e ↦ (e, rw e (read-IsDecoded net.is_debug s (rw e at h)))
    | inr e ↦ absurd (cc (rw e at h))
  ]

  answer_of-IsAnswered :
      (o : Outcome net) → IsOutcome o → (answer_of net o).0.1 ≡ none → IsAnswered (answer_of net o)
  unfolding concluded
  answer_of-IsAnswered (answered s, t) (i, h, c, cs, e, r, f) k =
      let (ok, d) = concluded-none t.curl.url s k in (i, h, c, cs, e, s, r, ok, d, f)
  answer_of-IsAnswered (gave_up e, t) o k = absurd (cc k)
  answer_of-IsAnswered (no_try, t) o k = absurd o
  answer_of-IsAnswered (stopped e, t) o k = absurd (cc k)

  call_with-IsAnswered :
      (uri : Text) (c : Curl H) (cr : Option ConsulResolver) (addresses : List Text)
      → (call_with net uri c cr addresses).0.1 ≡ none
      → IsAnswered (call_with net uri c cr addresses)
  unfolding tries concluded
  call_with-IsAnswered uri c cr addresses h =
      answer_of-IsAnswered (tries net 3 0 uri none (started_with net c cr addresses))
        (tries-IsOutcome 3 0 uri refl none (started_with net c cr addresses) tt tt) h

  -- A call returns no error only if one of its at most three requests was answered, with status 200 and a
  -- body that is decoded to what it returns, without an error unless the log level is DEBUG; the requests
  -- before that one failed, and none follows it.
  pub call-IsAnswered :
      (app_id : Option Text) (header : List (Text × Text)) (params : AddressParams) (uri : Text)
      (bytes : Text × Err) (opts : List CallOption)
      → (call net app_id header params uri bytes opts).0.1 ≡ none
      → IsAnswered (call net app_id header params uri bytes opts)
  unfolding call
  call-IsAnswered app_id header of_other uri bytes opts h = absurd (cc h)
  call-IsAnswered app_id header (of_resolver cr) uri (bytes, some err) opts h = absurd (cc h)
  call-IsAnswered app_id header (of_addresses addresses) uri (bytes, some err) opts h =
      absurd (cc h)
  call-IsAnswered app_id header (of_resolver cr) uri (bytes, none) opts h =
      call_with-IsAnswered uri (posted net app_id header opts bytes) cr [] h
  call-IsAnswered app_id header (of_addresses addresses) uri (bytes, none) opts h =
      call_with-IsAnswered uri (posted net app_id header opts bytes) none addresses h

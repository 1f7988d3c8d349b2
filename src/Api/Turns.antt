-- ===== src/Api/Turns.antt =====
-- Where the tries of api/api.go go with a resolver that takes its addresses in turn.
use native.Mathlib.Nat.{mod-eq_of_lt}
use hfw.Base.{
  ℕ, zero, suc, ◌+◌, ◌%◌, ◌<◌, List, [], ◌∷◌, Option, none, some, ◌≡◌, ◌≢◌, refl, sym, ap, ◌∙◌,
  subst, arith, length, get_or,
}
use hfw.Base.Text.{Text}
use hfw.Session.{Err}
use hfw.Discovery.{ConsulResolver, rand_policy, get_address, u64}
use hfw.Discovery.Robin.{AreSeveral, in_turn}
use hfw.Api.{
  of_resolver, Tried, addressed, choose_address, sent_at, after_request, at_url, at_address,
  at_start, tries, Outcome, concluded, posted, started_with, call,
}
use hfw.Api.Urls.{Curl, Net, CallOption, get_api_url, url_of}

-- The address whose turn it is at the try `i`, from 0 on.
abbrev pub address_at : ConsulResolver → ℕ → Text
address_at cr i = get_or cr.addresses ((cr.lb_index + i) % length cr.addresses) []

module _ {H U S : Type 0} (net : Net H U S) (cr : ConsulResolver) (uri : Text) where
  -- The request of each try went to the address whose turn it was; the last one stands first.
  abbrev pub InTurn : List (Curl H) → Type 0
  InTurn [] = Unit
  InTurn (c ∷ cs) = (c.url ≡ (url_of net (address_at cr (length cs)) uri).0) × InTurn cs

module _ {H U S : Type 0} (net : Net H U S) (cr : ConsulResolver) (uri : Text)
    (several : AreSeveral cr.addresses) (not_random : cr.policy ≢ rand_policy)
    (fits : cr.lb_index + 3 < u64) where
  abbrev IsTurn : ℕ → Tried net → Type 0
  IsTurn i t =
      (t.cr ≡ some (record cr { lb_index = cr.lb_index + i }))
      × (length t.sent ≡ i)
      × InTurn net cr uri t.sent

  abbrev Continues : ℕ → (Err → Tried net → Outcome net) → Type 0
  Continues i again =
      (err : Err) (t : Tried net) → IsTurn i t → InTurn net cr uri (again err t).1.sent

  after_request-InTurn :
      (again : Err → Tried net → Outcome net) (i : ℕ) (answer : S × Err) (t : Tried net)
      → Continues i again
      → IsTurn i t
      → InTurn net cr uri (after_request net again answer t).1.sent
  after_request-InTurn again i (s, none) t k (e, l, f) = f
  after_request-InTurn again i (s, some err) t k f = k (some err) t f

  at_url-InTurn :
      (again : Err → Tried net → Outcome net) (i : ℕ) (url : Text × Err) (t : Tried net)
      → Continues (suc i) again
      → t.cr ≡ some (record cr { lb_index = cr.lb_index + suc i })
      → length t.sent ≡ i
      → InTurn net cr uri t.sent
      → url.0 ≡ (url_of net (address_at cr i) uri).0
      → InTurn net cr uri (at_url net again i (some url) t).1.sent
  at_url-InTurn again i (url, some err) t k e l f u = f
  at_url-InTurn again i (url, none) t k e l f u =
      after_request-InTurn again (suc i) (net.request i (sent_at net i url t).curl)
        (sent_at net i url t) k
        (e, ap suc l, (u ∙ ap (λ j. (url_of net (address_at cr j) uri).0) (sym l), f))

  chosen :
      (i : ℕ) (t : Tried net)
      → i < 3
      → t.cr ≡ some (record cr { lb_index = cr.lb_index + i })
      → choose_address net t.cr t ≡ (
        record t {
          cr = some (record cr { lb_index = cr.lb_index + suc i });
          addresses = address_at cr i ∷ [];
        },
        none,
      )
  unfolding get_address
  chosen i t h e =
      let next : (cr.lb_index + i + 1) % u64 ≡ cr.lb_index + suc i =
        mod-eq_of_lt (omega arith) ∙ omega arith in
      ap (λ o. choose_address net o t) e
      ∙ ap (λ g. addressed net (g.0, some g.1) t)
          (in_turn net.int63n cr.addresses (record cr { lb_index = cr.lb_index + i }) several
            not_random)
      ∙ ap
          (λ n. (
            record t { cr = some (record cr { lb_index = n }); addresses = address_at cr i ∷ [] },
            none,
          ))
          next

  abbrev taken : ℕ → Tried net → Tried net
  taken i t = record t {
    cr = some (record cr { lb_index = cr.lb_index + suc i });
    addresses = address_at cr i ∷ [];
  }

  at_start-InTurn :
      (again : Err → Tried net → Outcome net) (i : ℕ) (done : Err) (t : Tried net)
      → Continues (suc i) again
      → i < 3
      → IsTurn i t
      → InTurn net cr uri (at_start net again i uri done t).1.sent
  unfolding at_start at_address get_api_url
  at_start-InTurn again i (some e) t k h (c, l, f) = f
  at_start-InTurn again i none t k h (c, l, f) =
      subst (λ p. InTurn net cr uri (at_address net again i uri p).1.sent) (sym (chosen i t h c))
        (at_url-InTurn again i (url_of net (address_at cr i) uri) (taken i t) k refl l f refl)

  tries-InTurn : (left i : ℕ) → i + left ≡ 3 → Continues i (tries net left i uri)
  unfolding tries
  tries-InTurn zero i h none t (c, l, f) = f
  tries-InTurn zero i h (some e) t (c, l, f) = f
  tries-InTurn (suc left) i h err t f =
      let more : i + 1 ≡ suc i = omega arith in
      at_start-InTurn (tries net left (i + 1) uri) i (net.done i) t
        (subst (λ j. Continues j (tries net left (i + 1) uri)) more
          (tries-InTurn left (i + 1) (omega arith)))
        (omega arith) f

  -- With a resolver of two addresses or more, under a policy that is not the random one, and whose counter
  -- does not wrap in the next three calls, each try of a call goes to the address whose turn it is: the
  -- first one to that of the counter, and each later one to the next.
  pub call-InTurn :
      (app_id : Option Text) (header : List (Text × Text)) (bytes : Text × Err)
      (opts : List CallOption)
      → InTurn net cr uri (call net app_id header (of_resolver (some cr)) uri bytes opts).1.sent
  unfolding call concluded
  call-InTurn app_id header (bytes, some err) opts = tt
  call-InTurn app_id header (bytes, none) opts =
      let start : cr.lb_index ≡ cr.lb_index + 0 = omega arith in
      tries-InTurn 3 0 refl none
        (started_with net (posted net app_id header opts bytes) (some cr) [])
        (ap (λ n. some (record cr { lb_index = n })) start, refl, tt)

-- ===== src/Balancer/Inflight.antt =====
-- The counters of the calls in flight in grpc/balancer/p2c/p2c.go.
use hfw.Base.{
  ℕ, zero, suc, ◌+◌, ◌%◌, ◌<◌, Bool, true, false, List, [], ◌∷◌, ◌++◌, map, Option, none, some, ◌≡◌,
  refl, sym, ap, ◌∙◌, subst, arith, length, ◌==◌, if◌then◌else◌,
}
use hfw.Base.Text.{Text}
use hfw.Base.Int.{ℤ, ltb_ℤ, ◌-ℤ◌, wrap64}
use hfw.Balancer.Chosen.{chosen-IsPicked, IsPicked}
use hfw.Balancer.{
  SubConn, Picker, u64, add_one, sub_one, log_interval, new_conn, build, update_at, at_or, Floats,
  Draws, chosen, counted, pick_conn, done_conn, reset_requests, log_stats, done,
}

-- How often an index is listed.
abbrev pub times : ℕ → List ℕ → ℕ
times i [] = 0
times i (j ∷ js) = let rest = times i js in if i == j then suc rest else rest

module _ (floats : Floats) where
  -- A step of the picker, with the indices of the calls that were picked and are not done.
  pub data CallStep : Picker → List ℕ → Picker → List ℕ → Type 0 where
    picks :
        {p p' : Picker} {calls : List ℕ} {i : ℕ}
        → (intn : Draws) (start : ℤ) → pick_conn floats intn start p ≡ some (i, p')
        → CallStep p calls p' (i ∷ calls)
    finishes :
        {p : Picker}
        → (i : ℕ) (before later : List ℕ) (start now : ℤ) (failure : Option ℕ)
        → CallStep p (before ++ (i ∷ later)) (done floats i start now failure p) (before ++ later)

  pub data Reach : Picker → List ℕ → Type 0 where
    begins : (ready : List Text) → Reach (build ready) []
    goes_on :
        {p p' : Picker} {calls calls' : List ℕ}
        → Reach p calls
        → CallStep p calls p' calls'
        → Reach p' calls'

abbrev inflight_at : List SubConn → ℕ → ℕ
inflight_at conns i = (at_or conns i (new_conn [])).inflight

-- The counter of a connection is the number of its calls in flight, as far as 64 bits tell.
abbrev pub IsCounted : Picker → List ℕ → ℕ → Type 0
IsCounted p calls i = inflight_at p.conns i ≡ times i calls % u64

length-update_at :
    {A : Type 0} (i : ℕ) (f : A → A) (l : List A) → length (update_at i f l) ≡ length l
length-update_at i f [] = refl
length-update_at zero f (x ∷ l) = refl
length-update_at (suc i) f (x ∷ l) = ap suc (length-update_at i f l)

length-map : {A B : Type 0} (f : A → B) (l : List A) → length (map f l) ≡ length l
length-map f [] = refl
length-map f (x ∷ l) = ap suc (length-map f l)

-- A write that leaves the counter leaves it at every index.
update_at-inflight_same :
    (i j : ℕ) (f : SubConn → SubConn) (l : List SubConn)
    → ((c : SubConn) → (f c).inflight ≡ c.inflight)
    → inflight_at (update_at i f l) j ≡ inflight_at l j
update_at-inflight_same i j f [] h = refl
update_at-inflight_same zero zero f (x ∷ l) h = h x
update_at-inflight_same zero (suc j) f (x ∷ l) h = refl
update_at-inflight_same (suc i) zero f (x ∷ l) h = refl
update_at-inflight_same (suc i) (suc j) f (x ∷ l) h = update_at-inflight_same i j f l h

map-inflight_same :
    (j : ℕ) (l : List SubConn) → inflight_at (map reset_requests l) j ≡ inflight_at l j
map-inflight_same j [] = refl
map-inflight_same zero (x ∷ l) = refl
map-inflight_same (suc j) (x ∷ l) = map-inflight_same j l

-- A write that changes the counter by `g`, at one index.
update_at-inflight :
    (i j : ℕ) (f : SubConn → SubConn) (g : ℕ → ℕ) (l : List SubConn)
    → ((c : SubConn) → (f c).inflight ≡ g c.inflight)
    → j < length l
    → inflight_at (update_at i f l) j ≡ (if j == i then g (inflight_at l j) else inflight_at l j)
update_at-inflight i j f g [] h k = absurd (omega arith)
update_at-inflight zero zero f g (x ∷ l) h k = h x
update_at-inflight zero (suc j) f g (x ∷ l) h k = ground arith
update_at-inflight (suc i) zero f g (x ∷ l) h k = ground arith
update_at-inflight (suc i) (suc j) f g (x ∷ l) h k =
    ground (arith, update_at-inflight i j f g l h (omega arith))

times-append : (i : ℕ) (a b : List ℕ) → times i (a ++ b) ≡ times i a + times i b
times-append i [] b = omega arith
times-append i (j ∷ a) b = ground (arith, times-append i a b)

new_conns-inflight : (ready : List Text) (i : ℕ) → inflight_at (map new_conn ready) i ≡ 0
new_conns-inflight [] i = refl
new_conns-inflight (r ∷ ready) zero = refl
new_conns-inflight (r ∷ ready) (suc i) = new_conns-inflight ready i

-- One more call at `i`, and nothing else, by the counters.
abbrev IsMore : List SubConn → ℕ → List SubConn → Type 0
IsMore conns i conns' =
    (length conns' ≡ length conns)
    × ((j : ℕ)
        → j < length conns
        → inflight_at conns' j
          ≡ (if j == i then add_one (inflight_at conns j) else inflight_at conns j))

picked-IsMore :
    (start : ℤ) (k : ℕ) (conns : List SubConn)
    → IsMore conns k (
        update_at k
          (λ c. record c { inflight = add_one c.inflight; requests = add_one c.requests })
          (update_at k (λ c. record c { pick = start }) conns))
picked-IsMore start k conns =
    let touch : SubConn → SubConn = λ c. record c { pick = start } in
    let count : SubConn → SubConn =
      λ c. record c { inflight = add_one c.inflight; requests = add_one c.requests } in
    let same_length = length-update_at k touch conns in
    (
      length-update_at k count (update_at k touch conns) ∙ same_length,
      λ j h.
          update_at-inflight k j count add_one (update_at k touch conns) (λ c. refl) (omega arith)
          ∙ ap (λ n. if j == k then add_one n else n)
              (update_at-inflight_same k j touch conns (λ c. refl)),
    )

module _ (floats : Floats) where
  counted-IsMore :
      (p p' : Picker) (i : ℕ) (start : ℤ) (o : Option (ℕ × List SubConn))
      → ((r : ℕ × List SubConn) → o ≡ some r → IsPicked floats start p.conns r)
      → counted floats p o ≡ some (i, p')
      → IsMore p.conns i p'.conns
  counted-IsMore p p' i start none h e = absurd (cc e)
  counted-IsMore p p' i start (some (k, conns)) h e =
      let count : SubConn → SubConn =
        λ c. record c { inflight = add_one c.inflight; requests = add_one c.requests } in
      let left : ◌≡◌ {A = ℕ × Picker} (k, record p { conns = update_at k count conns }) (i, p') =
        cc e in
      let touched = ap (λ r. r.1) (h (k, conns) refl) in
      subst (λ r. IsMore p.conns r.0 r.1.conns) left
        (subst (λ cs. IsMore p.conns k (update_at k count cs)) (sym touched)
          (picked-IsMore start k p.conns))

  picks-IsMore :
      (intn : Draws) (start : ℤ) (p p' : Picker) (i : ℕ)
      → pick_conn floats intn start p ≡ some (i, p')
      → IsMore p.conns i p'.conns
  unfolding pick_conn
  picks-IsMore intn start p p' i e =
      counted-IsMore p p' i start (chosen floats intn start p.conns)
        (chosen-IsPicked floats intn start p.conns) e

  -- One call less.
  abbrev IsLess : List SubConn → ℕ → List SubConn → Type 0
  IsLess conns i conns' =
      (length conns' ≡ length conns)
      × ((j : ℕ)
          → j < length conns
          → inflight_at conns' j
            ≡ (if j == i then sub_one (inflight_at conns j) else inflight_at conns j))

  logged-IsLess :
      (i : ℕ) (now : ℤ) (b : Bool) (conns : List SubConn) (q : Picker)
      → IsLess conns i q.conns
      → IsLess conns i (if b then q else log_stats floats now q).conns
  logged-IsLess i now true conns q h = h
  logged-IsLess i now false conns q (l, h) =
      (length-map reset_requests q.conns ∙ l, λ j k. map-inflight_same j q.conns ∙ h j k)

  done-IsLess :
      (i : ℕ) (start now : ℤ) (failure : Option ℕ) (p : Picker)
      → IsLess p.conns i (done floats i start now failure p).conns
  unfolding done done_conn
  done-IsLess i start now failure p =
      logged-IsLess i now (ltb_ℤ (wrap64 (now -ℤ p.stamp)) log_interval) p.conns
        (record p { conns = update_at i (done_conn floats start now failure) p.conns })
        (
          length-update_at i (done_conn floats start now failure) p.conns,
          λ j k.
              update_at-inflight i j (done_conn floats start now failure) sub_one p.conns
                (λ c. refl) k,
        )

  counted_one :
      (b : Bool) (n k : ℕ)
      → n ≡ k % u64
      → (if b then add_one n else n) ≡ (if b then suc k else k) % u64
  unfolding add_one
  counted_one true n k h = omega arith
  counted_one false n k h = h

  discounted :
      (b : Bool) (n a c k : ℕ)
      → k ≡ a + c
      → n ≡ (a + (if b then suc c else c)) % u64
      → (if b then sub_one n else n) ≡ k % u64
  unfolding sub_one
  discounted true n a c k e h = omega arith
  discounted false n a c k e h = omega arith

  CallStep-IsCounted :
      {p p' : Picker} {calls calls' : List ℕ}
      → CallStep floats p calls p' calls'
      → ((i : ℕ) → i < length p.conns → IsCounted p calls i)
      → (i : ℕ) → i < length p'.conns
      → IsCounted p' calls' i
  unfolding add_one sub_one
  CallStep-IsCounted {p} {p'} {calls} (CallStep.picks {i = i} intn start e) h j k =
      let (l, more) = picks-IsMore intn start p p' i e in
      let inside : j < length p.conns = omega arith in
      more j inside ∙ counted_one (j == i) _ _ (h j inside)
  CallStep-IsCounted {p} (CallStep.finishes i before later start now failure) h j k =
      let (l, less) = done-IsLess i start now failure p in
      let inside : j < length p.conns = omega arith in
      less j inside
      ∙ discounted (j == i) _ _ _ _ (times-append j before later)
          (h j inside ∙ ap (λ n. n % u64) (times-append j before (i ∷ later)))

  -- However Picks and ends of calls follow each other, from the start of the balancer on: the counter of
  -- each connection is the number of its calls that were picked and are not done, as far as 64 bits tell.
  pub Reach-IsCounted :
      {p : Picker} {calls : List ℕ}
      → Reach floats p calls
      → (i : ℕ) → i < length p.conns
      → IsCounted p calls i
  unfolding build
  Reach-IsCounted (Reach.begins ready) i h = new_conns-inflight ready i
  Reach-IsCounted (Reach.goes_on r s) i h = CallStep-IsCounted s (λ j k. Reach-IsCounted r j k) i h

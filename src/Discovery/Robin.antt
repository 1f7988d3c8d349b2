-- ===== src/Discovery/Robin.antt =====
-- In turn: GetAddress of service/discovery/consul.go under any policy but the random one.
use native.Mathlib.Nat.{mod-add-mod, mod-eq_of_lt, add-mod_right, mod-lt}
use hfw.Base.{
  ℕ, zero, suc, ◌+◌, ◌-◌, ◌%◌, ◌<◌, ◌≤◌, List, [], ◌∷◌, some, ◌≡◌, ◌≢◌, refl, sym, ap, ◌∙◌, inl,
  inr, length, get_elem?, arith, Bool-cases, leb, get_or,
}
use hfw.Base.Text.{Text}
use hfw.Discovery.{
  BalancePolicy, robin_policy, rand_policy, unknown_policy, ConsulResolver, got, at_index, u64,
  balanced, among, get_address,
}

get_elem?-some :
    {A : Type 0} (l : List A) (i : ℕ) (d : A) → i < length l → get_elem? l i ≡ some (get_or l i d)
get_elem?-some [] i d h = absurd (omega arith)
get_elem?-some (x ∷ l) zero d h = refl
get_elem?-some (x ∷ l) (suc i) d h = get_elem?-some l i d (omega arith)

in_range : (l : List Text) (i : ℕ) → i < length l → at_index l i ≡ got (get_or l i [])
in_range l i h = rw (at_index, get_elem?-some l i [] h) refl

-- The index of the address that is `j` calls ahead, as `r` is where the first call is.
next_index : (n k i : ℕ) → i < n → (j : ℕ) × (j < n) × ((k + j) % n ≡ i)
next_index n k i h =
    let below : k % n < n = mod-lt k (omega arith) in
    elim (Bool-cases (leb (k % n) i)) [
      | inl e ↦
          let reached : k % n + (i - k % n) ≡ i = ground arith in
          (
            i - k % n,
            omega arith,
            sym (mod-add-mod k n (i - k % n)) ∙ ap (λ m. m % n) reached ∙ mod-eq_of_lt h,
          )
      | inr e ↦
          let reached : k % n + (n - k % n + i) ≡ i + n = omega arith in
          let less : n - k % n + i < n = ground arith in
          (
            n - k % n + i,
            less,
            sym (mod-add-mod k n (n - k % n + i))
                ∙ ap (λ m. m % n) reached
                ∙ add-mod_right i n
                ∙ mod-eq_of_lt h,
          )
    ]

-- Two addresses or more.
abbrev pub AreSeveral : List Text → Type 0
AreSeveral l = 2 ≤ length l

module _ (int63n : ℕ → ℕ) where
  turn :
      (p : BalancePolicy) (l : List Text) (cr : ConsulResolver)
      → p ≢ rand_policy
      → balanced int63n p l cr
        ≡ (at_index l (cr.lb_index % length l), record cr { lb_index = (cr.lb_index + 1) % u64 })
  turn unknown_policy l cr h = refl
  turn robin_policy l cr h = refl
  turn rand_policy l cr h = absurd (h refl)

  pub in_turn :
      (l : List Text) (cr : ConsulResolver)
      → AreSeveral l
      → cr.policy ≢ rand_policy
      → among int63n l cr ≡ (
        got (get_or l (cr.lb_index % length l) []),
        record cr { lb_index = (cr.lb_index + 1) % u64 },
      )
  in_turn [] cr h e = absurd (omega arith)
  in_turn (a ∷ []) cr h e = absurd (omega arith)
  in_turn (a ∷ b ∷ l) cr h e =
      turn cr.policy (a ∷ b ∷ l) cr e
      ∙ ap (λ g. (g, record cr { lb_index = (cr.lb_index + 1) % u64 }))
          (in_range (a ∷ b ∷ l) (cr.lb_index % length (a ∷ b ∷ l))
            (mod-lt cr.lb_index (omega arith)))

  -- Several calls one after the other.
  abbrev pub after_calls : ℕ → ConsulResolver → ConsulResolver
  after_calls zero cr = cr
  after_calls (suc j) cr = after_calls j (get_address int63n cr).1

  after_calls-in_turn :
      (j : ℕ) (cr : ConsulResolver)
      → AreSeveral cr.addresses
      → cr.policy ≢ rand_policy
      → cr.lb_index + j < u64
      → after_calls j cr ≡ record cr { lb_index = cr.lb_index + j }
  unfolding get_address
  after_calls-in_turn zero cr several e h = ap (λ i. record cr { lb_index = i }) (omega arith)
  after_calls-in_turn (suc j) cr several e h =
      let one_more : (cr.lb_index + 1) % u64 ≡ cr.lb_index + 1 = mod-eq_of_lt (omega arith) in
      ap (λ p. after_calls j p.1) (in_turn cr.addresses cr several e)
      ∙ ap (λ i. after_calls j (record cr { lb_index = i })) one_more
      ∙ after_calls-in_turn j (record cr { lb_index = cr.lb_index + 1 }) several e (omega arith)
      ∙ ap (λ i. record cr { lb_index = i }) (omega arith)

  -- Under a policy that is not the random one: of several addresses, each is returned by one of as many
  -- calls in a row, whatever calls came before, where the counter of the calls does not wrap among
  -- them.
  pub get_address_fair :
      (cr : ConsulResolver) (i : ℕ)
      → AreSeveral cr.addresses
      → cr.policy ≢ rand_policy
      → cr.lb_index + length cr.addresses ≤ u64
      → i < length cr.addresses
      → (j : ℕ) × (j < length cr.addresses)
        × ((get_address int63n (after_calls j cr)).0 ≡ got (get_or cr.addresses i []))
  unfolding get_address
  get_address_fair cr i several e h k =
      let (j, below, reached) = next_index (length cr.addresses) cr.lb_index i k in
      (
        j,
        below,
        ap (λ c. (among int63n c.addresses c).0) (after_calls-in_turn j cr several e (omega arith))
            ∙ ap (λ p. p.0)
                (in_turn cr.addresses (record cr { lb_index = cr.lb_index + j }) several e)
            ∙ ap (λ m. got (get_or cr.addresses m [])) reached,
      )

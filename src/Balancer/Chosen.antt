-- ===== src/Balancer/Chosen.antt =====
-- Which connection grpc/balancer/p2c/p2c.go chooses.
use hfw.Base.{
  ℕ, zero, suc, ◌+◌, ◌-◌, ◌*◌, ◌<◌, ◌≤◌, Bool, true, false, List, [], ◌∷◌, none, some, ◌≡◌, ◌≢◌,
  ◌⊎◌, inl, inr, refl, sym, ap, subst, arith, length, leb, if◌then◌else◌,
}
use hfw.Base.Int.{ℤ, ltb_ℤ, ◌-ℤ◌, wrap64}
use hfw.Balancer.{
  SubConn, Picker, force_pick, Floats, Draws, conn_at, picked_at, choose_ordered, choose, load,
  chosen, draw_pair, draw_pairs, pick_times, counted, pick_conn,
}

module _ (floats : Floats) (start : ℤ) (conns : List SubConn) where
  -- The time of the pick is set at the index that is chosen, and nothing else is changed.
  abbrev pub IsPicked : ℕ × List SubConn → Type 0
  IsPicked r = r ≡ picked_at floats start r.0 conns

  -- The connection `i` may be chosen before `j`: it is loaded no more, or was not picked for a second.
  abbrev pub IsBetter : ℕ → ℕ → Type 0
  IsBetter i j =
      (ltb_ℤ (load floats (conn_at floats conns j)) (load floats (conn_at floats conns i)) ≡ false)
      ⊎ (ltb_ℤ force_pick (wrap64 (start -ℤ (conn_at floats conns i).pick)) ≡ true)

  -- One of two is chosen, the better one.
  abbrev pub IsChoice : ℕ → ℕ → ℕ × List SubConn → Type 0
  IsChoice i j r = IsPicked r × (((r.0 ≡ i) × IsBetter i j) ⊎ ((r.0 ≡ j) × IsBetter j i))

  ordered-IsChoice :
      (i j : ℕ) (b : Bool)
      → ltb_ℤ (load floats (conn_at floats conns j)) (load floats (conn_at floats conns i)) ≡ false
      → b ≡ ltb_ℤ force_pick (wrap64 (start -ℤ (conn_at floats conns j).pick))
      → IsChoice i j (if b then picked_at floats start j conns else picked_at floats start i conns)
  ordered-IsChoice i j true h e = (refl, inr (refl, inr (sym e)))
  ordered-IsChoice i j false h e = (refl, inl (refl, inl h))

  flip-IsChoice : (i j : ℕ) (r : ℕ × List SubConn) → IsChoice j i r → IsChoice i j r
  flip-IsChoice i j r (p, inl c) = (p, inr c)
  flip-IsChoice i j r (p, inr c) = (p, inl c)

  -- What is not loaded less is loaded no more.
  less_loaded : (a b : ℤ) → ltb_ℤ a b ≡ true → ltb_ℤ b a ≡ false
  less_loaded a b h = ground arith

  choose_two :
      (i j : ℕ) (b : Bool)
      → b ≡ ltb_ℤ (load floats (conn_at floats conns j)) (load floats (conn_at floats conns i))
      → IsChoice i j (
          if b
          then choose_ordered floats start j i conns
          else choose_ordered floats start i j conns)
  unfolding choose_ordered
  choose_two i j true e = flip-IsChoice i j _ (
      ordered-IsChoice j i _
        (less_loaded (load floats (conn_at floats conns j)) (load floats (conn_at floats conns i))
          (sym e))
        refl)
  choose_two i j false e = ordered-IsChoice i j _ (sym e) refl

  -- Of two connections, the one that is chosen is loaded no more than the other, or was not picked for more
  -- than a second. Its time of the pick is set, and nothing else is changed.
  choose-IsChoice : (i j : ℕ) → IsChoice i j (choose floats start i (some j) conns)
  unfolding choose
  choose-IsChoice i j = choose_two i j _ refl

module _ (floats : Floats) where
  pub chosen-IsPicked :
      (intn : Draws) (start : ℤ) (conns : List SubConn) (r : ℕ × List SubConn)
      → chosen floats intn start conns ≡ some r
      → IsPicked floats start conns r
  unfolding chosen choose
  chosen-IsPicked intn start [] r e = absurd (cc e)
  chosen-IsPicked intn start (c ∷ []) r e =
      let same : choose floats start 0 none (c ∷ []) ≡ r = cc e in
      subst (IsPicked floats start (c ∷ [])) same refl
  chosen-IsPicked intn start (c ∷ d ∷ []) r e =
      let same : choose floats start 0 (some 1) (c ∷ d ∷ []) ≡ r = cc e in
      subst (IsPicked floats start (c ∷ d ∷ [])) same
        (choose-IsChoice floats start (c ∷ d ∷ []) 0 1).0
  chosen-IsPicked intn start (c ∷ d ∷ f ∷ more) r e =
      let conns = c ∷ d ∷ f ∷ more in
      let pair = draw_pairs floats intn (pick_times - 1) 0 conns in
      let same : choose floats start pair.0 (some pair.1) conns ≡ r = cc e in
      subst (IsPicked floats start conns) same (choose-IsChoice floats start conns pair.0 pair.1).0

  -- Two indices.
  abbrev pub AreApart : ℕ → ℕ × ℕ → Type 0
  AreApart n pair = (pair.0 < n) × (pair.1 < n) × (pair.0 ≢ pair.1)

  apart : (a b n : ℕ) → a < n → b < n - 1 → AreApart n (a, if leb a b then b + 1 else b)
  apart a b n h k = ground arith

  draw_pair-AreApart :
      (intn : Draws) (k n : ℕ)
      → ((j m : ℕ) → 0 < m → intn j m < m)
      → 2 ≤ n
      → AreApart n (draw_pair floats intn k n)
  unfolding draw_pair
  draw_pair-AreApart intn k n law h =
      apart (intn (2 * k) n) (intn (2 * k + 1) (n - 1)) n (law (2 * k) n (omega arith))
        (law (2 * k + 1) (n - 1) (omega arith))

  either-AreApart :
      (n : ℕ) (b : Bool) (x y : ℕ × ℕ)
      → AreApart n x
      → AreApart n y
      → AreApart n (if b then x else y)
  either-AreApart n true x y h k = h
  either-AreApart n false x y h k = k

  draw_pairs-AreApart :
      (intn : Draws) (left k : ℕ) (conns : List SubConn)
      → ((j m : ℕ) → 0 < m → intn j m < m)
      → 2 ≤ length conns
      → AreApart (length conns) (draw_pairs floats intn left k conns)
  unfolding draw_pairs
  draw_pairs-AreApart intn zero k conns law h = draw_pair-AreApart intn k (length conns) law h
  draw_pairs-AreApart intn (suc left) k conns law h =
      either-AreApart (length conns) _ _ _ (draw_pair-AreApart intn k (length conns) law h)
        (draw_pairs-AreApart intn left (k + 1) conns law h)

  chosen_of_two :
      (intn : Draws) (start : ℤ) (conns : List SubConn)
      → ((j m : ℕ) → 0 < m → intn j m < m)
      → 2 ≤ length conns
      → (i j : ℕ) × (r : ℕ × List SubConn) × AreApart (length conns) (i, j)
        × IsChoice floats start conns i j r
        × (chosen floats intn start conns ≡ some r)
  unfolding chosen
  chosen_of_two intn start [] law h = absurd (omega arith)
  chosen_of_two intn start (c ∷ []) law h = absurd (omega arith)
  chosen_of_two intn start (c ∷ d ∷ []) law h = (
    0,
    1,
    choose floats start 0 (some 1) (c ∷ d ∷ []),
    (omega arith, omega arith, omega arith),
    choose-IsChoice floats start (c ∷ d ∷ []) 0 1,
    refl,
  )
  chosen_of_two intn start (c ∷ d ∷ f ∷ more) law h =
      let conns = c ∷ d ∷ f ∷ more in
      let pair = draw_pairs floats intn (pick_times - 1) 0 conns in
      (
        pair.0,
        pair.1,
        choose floats start pair.0 (some pair.1) conns,
        draw_pairs-AreApart intn (pick_times - 1) 0 conns law (omega arith),
        choose-IsChoice floats start conns pair.0 pair.1,
        refl,
      )

  -- Pick of two connections or more, where `rand.Intn` keeps its bound: there are two connections at
  -- different indices, and the one that is chosen of them is loaded no more than the other, or was not
  -- picked for more than a second; its time of the pick is set, and its call is counted.
  pub pick_conn-IsChoice :
      (intn : Draws) (start : ℤ) (p : Picker)
      → ((j m : ℕ) → 0 < m → intn j m < m)
      → 2 ≤ length p.conns
      → (i j : ℕ) × (r : ℕ × List SubConn) × AreApart (length p.conns) (i, j)
        × IsChoice floats start p.conns i j r
        × (pick_conn floats intn start p ≡ counted floats p (some r))
  unfolding pick_conn
  pick_conn-IsChoice intn start p law h =
      let (i, j, r, a, c, e) = chosen_of_two intn start p.conns law h in
      (i, j, r, a, c, ap (counted floats p) e)

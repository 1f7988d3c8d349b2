-- ===== src/Balancer/Tests.antt =====
-- Two servers, and a call to each.
use hfw.Base.{ℕ, List, [], ◌∷◌, none, some, ◌≡◌, refl, arith}
use hfw.Base.Text.{codes}
use hfw.Base.Int.{pos, wrap64, ◌*ℤ◌, ◌+ℤ◌, ◌-ℤ◌}
use hfw.Balancer.{
  Picker, SubConn, Floats, Draws, build, load, choose, choose_ordered, chosen, counted, pick_conn,
  add_one, done,
}
use hfw.Balancer.Inflight.{CallStep, Reach, IsCounted, Reach-IsCounted}
use hfw.Balancer.Chosen.{AreApart, IsChoice, pick_conn-IsChoice}

abbrev floats : Floats
floats = record { root = λ n. pos n; weigh = λ w before now. now }

abbrev first_of : Draws
first_of k n = 0

abbrev servers : Picker
servers = build (codes "a:80" ∷ codes "b:80" ∷ [])

abbrev busy : Picker
busy = record {
  conns =
      record {
        addr = codes "a:80";
        lag = 0;
        inflight = 1;
        success = 1000;
        requests = 1;
        last = pos 0;
        pick = pos 5;
      }
      ∷ record {
        addr = codes "b:80";
        lag = 0;
        inflight = 0;
        success = 1000;
        requests = 0;
        last = pos 0;
        pick = pos 0;
      }
      ∷ [];
  stamp = pos 0;
}

first_pick : pick_conn floats first_of (pos 5) servers ≡ some (0, busy)
unfolding pick_conn build choose load add_one chosen choose_ordered wrap64 ◌*ℤ◌ ◌+ℤ◌ ◌-ℤ◌
first_pick = refl

-- The other server has less to do.
second_pick : (p : Picker) × (pick_conn floats first_of (pos 6) busy ≡ some (1, p))
unfolding pick_conn build choose load add_one chosen choose_ordered wrap64 ◌*ℤ◌ ◌+ℤ◌ ◌-ℤ◌
second_pick = (_, refl)

one_call : Reach floats busy (0 ∷ [])
one_call =
    Reach.goes_on (Reach.begins (codes "a:80" ∷ codes "b:80" ∷ []))
      (CallStep.picks first_of (pos 5) first_pick)

Reach-IsCounted_example : IsCounted (done floats 0 (pos 5) (pos 9) none busy) [] 0
unfolding done wrap64 ◌-ℤ◌
Reach-IsCounted_example =
    Reach-IsCounted floats (Reach.goes_on one_call (CallStep.finishes 0 [] [] (pos 5) (pos 9) none))
      0 (omega arith)

pick_conn-IsChoice_example :
    (i j : ℕ) × (r : ℕ × List SubConn) × AreApart floats 2 (i, j)
    × IsChoice floats (pos 6) busy.conns i j r
    × (pick_conn floats first_of (pos 6) busy ≡ counted floats busy (some r))
pick_conn-IsChoice_example =
    pick_conn-IsChoice floats first_of (pos 6) busy (λ j m h. h) (omega arith)

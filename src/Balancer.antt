-- ===== src/Balancer.antt =====
-- The balancer of grpc/balancer/p2c/p2c.go: which connection a call goes to, and what a connection is
-- known by. The clock, the random numbers and the arithmetic on floats are parameters. Picks are made
-- under the lock of the picker, so the compare-and-swap of a pick time does not fail.
pub mod Inflight
pub mod Chosen
mod Tests
use hfw.Base.{
  ℕ, zero, suc, ◌+◌, ◌-◌, ◌*◌, ◌%◌, ◌^◌, Bool, true, false, ◌&&◌, ◌||◌, not, List, [], ◌∷◌, map,
  Option, none, some, ltb, leb, ◌==◌, if◌then◌else◌, length,
}
use hfw.Base.Text.{Text, codes}
use hfw.Base.Int.{ℤ, pos, negsuc, ltb_ℤ, ◌-ℤ◌, ◌*ℤ◌, ◌+ℤ◌, wrap64, of_bits}
use hfw.Context.Errors.{eq_ℤ}

-- `subConn`; the counters, int64, are given by their bits.
pub record SubConn : Type 0 where
  pub addr : Text
  pub lag : ℕ
  pub inflight : ℕ
  pub success : ℕ
  pub requests : ℕ
  pub last : ℤ
  pub pick : ℤ

pub record Picker : Type 0 where
  pub conns : List SubConn
  pub stamp : ℤ

abbrev pub u64 : ℕ
u64 = 2 ^ 64

-- `atomic.AddInt64(&x, 1)` and `atomic.AddInt64(&x, -1)`
unfoldable pub add_one : ℕ → ℕ
add_one x = (x + 1) % u64

unfoldable pub sub_one : ℕ → ℕ
sub_one x = (x + (u64 - 1)) % u64

abbrev pub init_success : ℕ
init_success = 1000

abbrev pub throttle_success : ℕ
throttle_success = 500

abbrev pub force_pick : ℤ
force_pick = pos 1000000000

abbrev pub log_interval : ℤ
log_interval = pos 60000000000

abbrev pub penalty : ℤ
penalty = pos 2147483647

abbrev pub pick_times : ℕ
pick_times = 3

-- `Build`, for the ready connections in the order of the map.
abbrev pub new_conn : Text → SubConn
new_conn addr = record {
  addr = addr;
  lag = 0;
  inflight = 0;
  success = init_success;
  requests = 0;
  last = pos 0;
  pick = pos 0;
}

unfoldable pub build : List Text → Picker
build ready = record { conns = map new_conn ready; stamp = pos 0 }

abbrev pub update_at : {A : Type 0} → ℕ → (A → A) → List A → List A
update_at i f [] = []
update_at zero f (x ∷ xs) = f x ∷ xs
update_at (suc i) f (x ∷ xs) = x ∷ update_at i f xs

abbrev pub at_or : {A : Type 0} → List A → ℕ → A → A
at_or [] i d = d
at_or (x ∷ xs) zero d = x
at_or (x ∷ xs) (suc i) d = at_or xs i d

abbrev pub reset_requests : SubConn → SubConn
reset_requests c = record c { requests = 0 }

pub record Floats : Type 0 where
  -- `int64(math.Sqrt(float64(x)))`
  pub root : ℕ → ℤ
  -- `uint64(float64(old)*w + float64(new)*(1-w))` with the weight of a time, or with 0.
  pub weigh : Option ℤ → ℕ → ℕ → ℕ

-- `rand.Intn`, at the n-th draw.
abbrev pub Draws : Type 0
Draws = ℕ → ℕ → ℕ

-- The codes of google.golang.org/grpc/codes.
abbrev pub deadline_exceeded : ℕ
deadline_exceeded = 4

abbrev pub internal : ℕ
internal = 13

abbrev pub unavailable : ℕ
unavailable = 14

abbrev pub data_loss : ℕ
data_loss = 15

unfoldable pub acceptable : ℕ → Bool
acceptable code =
    not (code == deadline_exceeded || code == internal || code == unavailable || code == data_loss)

abbrev pub success_of : Option ℕ → ℕ
unfolding acceptable
success_of none = init_success
success_of (some code) = if acceptable code then init_success else 0

module _ (floats : Floats) where
  abbrev pub or_penalty : ℤ → ℤ
  or_penalty n = if eq_ℤ n (pos 0) then penalty else n

  unfoldable pub load : SubConn → ℤ
  load c =
      or_penalty (wrap64 (floats.root ((c.lag + 1) % u64) *ℤ wrap64 (of_bits c.inflight +ℤ pos 1)))

  abbrev pub healthy : SubConn → Bool
  healthy c = ltb throttle_success c.success

  abbrev pub conn_at : List SubConn → ℕ → SubConn
  conn_at conns i = at_or conns i (new_conn [])

  abbrev pub picked_at : ℤ → ℕ → List SubConn → ℕ × List SubConn
  picked_at start i conns = (i, update_at i (λ c. record c { pick = start }) conns)

  -- The last part of `choose`, with the less loaded connection first.
  unfoldable pub choose_ordered : ℤ → ℕ → ℕ → List SubConn → ℕ × List SubConn
  choose_ordered start i j conns =
      if ltb_ℤ force_pick (wrap64 (start -ℤ (conn_at conns j).pick))
      then picked_at start j conns
      else picked_at start i conns

  -- `choose`, of one connection or of two, by their indices.
  unfoldable pub choose : ℤ → ℕ → Option ℕ → List SubConn → ℕ × List SubConn
  unfolding load choose_ordered
  choose start i none conns = picked_at start i conns
  choose start i (some j) conns =
      if ltb_ℤ (load (conn_at conns j)) (load (conn_at conns i))
      then choose_ordered start j i conns
      else choose_ordered start i j conns

  -- Two indices drawn among `n`.
  unfoldable pub draw_pair : Draws → ℕ → ℕ → ℕ × ℕ
  draw_pair intn k n =
      let a = intn (2 * k) n in
      let b = intn (2 * k + 1) (n - 1) in (a, if leb a b then b + 1 else b)

  -- The loop of Pick: `left` draws are left, the k-th is made.
  unfoldable pub draw_pairs : Draws → ℕ → ℕ → List SubConn → ℕ × ℕ
  unfolding draw_pair
  draw_pairs intn zero k conns = draw_pair intn k (length conns)
  draw_pairs intn (suc left) k conns =
      let pair = draw_pair intn k (length conns) in
      let rest = draw_pairs intn left (k + 1) conns in
      if healthy (conn_at conns pair.0) && healthy (conn_at conns pair.1) then pair else rest

  abbrev pub chosen : Draws → ℤ → List SubConn → Option (ℕ × List SubConn)
  unfolding choose draw_pairs
  chosen intn start [] = none
  chosen intn start (c ∷ []) = some (choose start 0 none (c ∷ []))
  chosen intn start (c ∷ d ∷ []) = some (choose start 0 (some 1) (c ∷ d ∷ []))
  chosen intn start (c ∷ d ∷ e ∷ more) =
      let conns = c ∷ d ∷ e ∷ more in
      let pair = draw_pairs intn (pick_times - 1) 0 conns in
      some (choose start pair.0 (some pair.1) conns)

  abbrev pub counted : Picker → Option (ℕ × List SubConn) → Option (ℕ × Picker)
  counted p none = none
  counted p (some (i, conns)) = some (
    i,
    record p {
      conns =
          update_at i
            (λ c. record c { inflight = add_one c.inflight; requests = add_one c.requests }) conns;
    },
  )

  -- `Pick`: the index of the connection, or none available.
  unfoldable pub pick_conn : Draws → ℤ → Picker → Option (ℕ × Picker)
  unfolding chosen add_one
  pick_conn intn start p = counted p (chosen intn start p.conns)

  abbrev pub at_least_zero : ℤ → ℤ
  at_least_zero (pos n) = pos n
  at_least_zero (negsuc n) = pos 0

  abbrev pub as_u64 : ℤ → ℕ
  as_u64 (pos n) = n
  as_u64 (negsuc n) = 0

  -- What the function of buildDoneFunc does to its connection, with the status code of the error.
  unfoldable pub done_conn : ℤ → ℤ → Option ℕ → SubConn → SubConn
  done_conn start now failure c =
      let td = at_least_zero (wrap64 (now -ℤ c.last)) in
      let weight = if c.lag == 0 then none else some td in
      record c {
        inflight = sub_one c.inflight;
        last = now;
        lag = floats.weigh weight c.lag (as_u64 (at_least_zero (wrap64 (now -ℤ start))));
        success = floats.weigh weight c.success (success_of failure);
      }

  -- `logStats` sets the numbers of requests back.
  abbrev pub log_stats : ℤ → Picker → Picker
  log_stats now p = record { conns = map reset_requests p.conns; stamp = now }

  unfoldable pub done : ℕ → ℤ → ℤ → Option ℕ → Picker → Picker
  unfolding done_conn sub_one
  done i start now failure p =
      let p' = record p { conns = update_at i (done_conn start now failure) p.conns } in
      if ltb_ℤ (wrap64 (now -ℤ p.stamp)) log_interval then p' else log_stats now p'

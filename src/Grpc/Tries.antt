-- ===== src/Grpc/Tries.antt =====
-- How often grpc/client/do.go calls, and what it returns.
use hfw.Base.{
  ℕ, zero, suc, ◌+◌, ◌<◌, ◌≤◌, List, [], ◌∷◌, Option, none, some, ◌≡◌, ◌⊎◌, inl, inr, refl, ap,
  subst, arith,
}
use hfw.Base.Text.{Text}
use hfw.Base.Int.{pos}
use hfw.Session.{Err}
use hfw.Grpc.{GrpcConfig, DialOption, Clients, ConnResult, conn, refused, Lib}
use hfw.Grpc.Do.{
  GrpcErr, canceled, deadline_exceeded, resp_err, plain, retry_num, goes_on, Answer, after_call,
  at_try, retries, conn_of, on_conn, grpc_do,
}

module _ {R : Type 0} (no_answer : R) (done : ℕ → Err) (call : ℕ → R × Option GrpcErr) where
  -- The first `i` calls failed, with errors after which the loop goes on.
  abbrev pub FailedAll : ℕ → Type 0
  FailedAll zero = Unit
  FailedAll (suc i) = ((e : Text) × ((call i).1 ≡ some (plain e))) × FailedAll i

  -- Nothing, or an error after which the loop stops.
  abbrev pub Stops : Option GrpcErr → Type 0
  Stops none = Unit
  Stops (some e) = goes_on e ≡ none

  -- The last call made is returned, or its error as one of 500 where it was the last of `limit`; or the
  -- context was done before the next call.
  abbrev pub IsAnswer : ℕ → Answer no_answer done call → Type 0
  IsAnswer limit (r, err, made) =
      (made ≤ limit)
      × (((k : ℕ) × (made ≡ suc k) × (call k ≡ (r, err)) × Stops err × FailedAll k)
          ⊎ (((k : ℕ) × (e : Text) × (made ≡ suc k)
                × (made ≡ limit)
                × (call k ≡ (r, some (plain e)))
                × (err ≡ some (resp_err (pos 500) e))
                × FailedAll k)
              ⊎ ((e : Text) × (done made ≡ some e)
                  × (r ≡ no_answer)
                  × (err ≡ some (resp_err (pos 500) e))
                  × FailedAll made)))

  -- What the loop holds after `i` calls.
  abbrev Last : ℕ → R → Err → Type 0
  Last zero r err = Unit
  Last (suc k) r none = ⊥
  Last (suc k) r (some e) = call k ≡ (r, some (plain e))

  abbrev Continues : ℕ → ℕ → (R → Err → Answer no_answer done call) → Type 0
  Continues limit i again =
      (r : R) (err : Err) → FailedAll i → Last i r err → IsAnswer limit (again r err)

  ended-IsAnswer :
      (limit i : ℕ) (r : R) (err : Err)
      → 0 < i
      → i ≡ limit
      → FailedAll i
      → Last i r err
      → IsAnswer limit (retries no_answer done call 0 i r err)
  unfolding retries
  ended-IsAnswer limit zero r err h e f l = absurd (omega arith)
  ended-IsAnswer limit (suc k) r none h e f l = absurd l
  ended-IsAnswer limit (suc k) r (some err) h e f l =
      (omega arith, inr (inl (k, err, refl, e, l, refl, f.1)))

  after_call-IsAnswer :
      (limit i : ℕ) (again : R → Err → Answer no_answer done call) (answer : R × Option GrpcErr)
      → i < limit
      → call i ≡ answer
      → FailedAll i
      → Continues limit (suc i) again
      → IsAnswer limit (after_call no_answer done call again i answer)
  after_call-IsAnswer limit i again (r, none) h e f k =
      (omega arith, inl (i, omega arith, e, tt, f))
  after_call-IsAnswer limit i again (r, some canceled) h e f k =
      (omega arith, inl (i, omega arith, e, refl, f))
  after_call-IsAnswer limit i again (r, some deadline_exceeded) h e f k =
      (omega arith, inl (i, omega arith, e, refl, f))
  after_call-IsAnswer limit i again (r, some (resp_err n m)) h e f k =
      (omega arith, inl (i, omega arith, e, refl, f))
  after_call-IsAnswer limit i again (r, some (plain m)) h e f k =
      k r (some m) ((m, ap (λ p. p.1) e), f) e

  at_try-IsAnswer :
      (limit i : ℕ) (again : R → Err → Answer no_answer done call) (ended : Err)
      → i < limit
      → done i ≡ ended
      → FailedAll i
      → Continues limit (suc i) again
      → IsAnswer limit (at_try no_answer done call again i ended)
  at_try-IsAnswer limit i again (some e) h d f k = (omega arith, inr (inr (e, d, refl, refl, f)))
  at_try-IsAnswer limit i again none h d f k = after_call-IsAnswer limit i again (call i) h refl f k

  retries-IsAnswer :
      (left i limit : ℕ)
      → i + left ≡ limit
      → 0 < limit
      → Continues limit i (retries no_answer done call left i)
  unfolding retries
  retries-IsAnswer zero i limit h p r err f l =
      ended-IsAnswer limit i r err (omega arith) (omega arith) f l
  retries-IsAnswer (suc left) i limit h p r err f l =
      let more : i + 1 ≡ suc i = omega arith in
      at_try-IsAnswer limit i (retries no_answer done call left (i + 1)) (done i) (omega arith) refl
        f
        (subst (λ j. Continues limit j (retries no_answer done call left (i + 1))) more
          (retries-IsAnswer left (i + 1) limit (omega arith) p))

retry_num_bounds : (addresses : List Text) → (2 ≤ retry_num addresses) × (retry_num addresses ≤ 3)
unfolding retry_num
retry_num_bounds [] = (omega arith, omega arith)
retry_num_bounds (a ∷ more) = ground arith

module _ {R : Type 0} (no_answer : R) (lib : Lib) (done : ℕ → Err)
    (call : ℕ → ℕ → R × Option GrpcErr) where
  -- What is done with a connection, and without one.
  abbrev pub IsDone : GrpcConfig → ConnResult → Answer no_answer done (call 0) → Type 0
  IsDone c (refused e) a = a ≡ (no_answer, some (resp_err (pos 500) e), 0)
  IsDone c (conn n) a =
      IsAnswer no_answer done (call n) (retry_num c.addresses) a × (retry_num c.addresses ≤ 3)

  on_conn-IsDone :
      (c : GrpcConfig) (p : ConnResult × Clients)
      → IsDone c p.0 (on_conn no_answer lib done call c p).0
  unfolding retries retry_num
  on_conn-IsDone c (refused e, s) = refl
  on_conn-IsDone c (conn n, s) =
      let (two, three) = retry_num_bounds c.addresses in
      (
        retries-IsAnswer no_answer done (call n) (retry_num c.addresses) 0 (retry_num c.addresses)
            (omega arith) (omega arith) no_answer none tt tt,
        three,
      )

  -- Do makes at most three calls, on the connection it is given: the first that succeeds, or fails with an
  -- error of the context or a RespErr, is returned as it is; the error of the last one that is allowed is
  -- returned as a RespErr of 500, as is that of a context which is done before a call. All calls before
  -- have failed. Without a connection no call is made, and the error is a RespErr of 500.
  pub grpc_do-IsDone :
      (c : GrpcConfig) (opts : List DialOption) (s : Clients)
      → IsDone c
          (conn_of no_answer lib done call c opts s).0
          (grpc_do no_answer lib done call c opts s).0
  unfolding grpc_do
  grpc_do-IsDone c opts s = on_conn-IsDone c (conn_of no_answer lib done call c opts s)

-- ===== src/Grpc/Do.antt =====
-- The loop of grpc/client/do.go. The context and the calls are parameters.
use hfw.Base.{ℕ, zero, suc, ◌+◌, List, [], ◌∷◌, Option, none, some, if◌then◌else◌, length, leb}
use hfw.Base.Text.{Text}
use hfw.Base.Int.{ℤ, pos}
use hfw.Session.{Err}
use hfw.Grpc.{
  GrpcConfig, DialOption, Clients, ConnResult, conn, refused, Lib, get_conn, get_conn_with_auth,
  with_interceptors,
}

-- An error as Do tells them apart: those of the context, a *RespErr, or another.
pub data GrpcErr : Type 0 where
  canceled deadline_exceeded : GrpcErr
  resp_err : ℤ → Text → GrpcErr
  plain : Text → GrpcErr

abbrev pub retry : ℕ
retry = 3

-- `common.Min`
abbrev pub min : ℕ → ℕ → ℕ
min a b = if leb a b then a else b

unfoldable pub retry_num : List Text → ℕ
retry_num [] = retry
retry_num (a ∷ more) = min retry (length (a ∷ more) + 1)

-- An error after which the loop goes on.
abbrev pub goes_on : GrpcErr → Option Text
goes_on canceled = none
goes_on deadline_exceeded = none
goes_on (resp_err n m) = none
goes_on (plain e) = some e

module _ {R : Type 0} (no_answer : R) (done : ℕ → Err) (call : ℕ → R × Option GrpcErr) where
  -- What is returned, and how many calls were made.
  abbrev pub Answer : Type 0
  Answer = R × Option GrpcErr × ℕ

  abbrev pub after_err : (Err → Answer) → ℕ → R → GrpcErr → Option Text → Answer
  after_err again i r e none = (r, some e, i + 1)
  after_err again i r e (some m) = again (some m)

  abbrev pub after_call : (R → Err → Answer) → ℕ → R × Option GrpcErr → Answer
  after_call again i (r, none) = (r, none, i + 1)
  after_call again i (r, some e) = after_err (again r) i r e (goes_on e)

  abbrev pub at_try : (R → Err → Answer) → ℕ → Err → Answer
  at_try again i (some err) = (no_answer, some (resp_err (pos 500) err), i)
  at_try again i none = after_call again i (call i)

  -- The loop: `left` tries are left, `i` calls were made, `r` and `err` are of the last one.
  unfoldable pub retries : ℕ → ℕ → R → Err → Answer
  retries zero i r none = (r, none, i)
  retries zero i r (some err) = (r, some (resp_err (pos 500) err), i)
  retries (suc left) i r err = at_try (retries left (i + 1)) i (done i)

-- `Do` in a context that is not nil. The calls are those on the connection that is given.
module _ {R : Type 0} (no_answer : R) (lib : Lib) (done : ℕ → Err)
    (call : ℕ → ℕ → R × Option GrpcErr) where
  abbrev pub conn_of : GrpcConfig → List DialOption → Clients → ConnResult × Clients
  conn_of c opts s =
      if c.is_auth
      then get_conn_with_auth lib c [] (with_interceptors opts) s
      else get_conn lib c opts s

  abbrev pub on_conn : GrpcConfig → ConnResult × Clients → Answer no_answer done (call 0) × Clients
  unfolding retries retry_num
  on_conn c (refused e, s) = ((no_answer, some (resp_err (pos 500) e), 0), s)
  on_conn c (conn n, s) =
      (retries no_answer done (call n) (retry_num c.addresses) 0 no_answer none, s)

  unfoldable pub grpc_do :
      GrpcConfig → List DialOption → Clients → Answer no_answer done (call 0) × Clients
  unfolding on_conn
  grpc_do c opts s = on_conn c (conn_of c opts s)

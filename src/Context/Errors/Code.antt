-- ===== src/Context/Errors/Code.antt =====
-- The numbers of errors, and ThrowCheck beside CheckErr.
use hfw.Base.{◌||◌, ◌≡◌, arith, if◌then◌else◌}
use hfw.Base.Int.{ℤ}
use hfw.Context.{Page, returned, panicked, stop_run}
use hfw.Context.Errors.{ErrorMap, Value, ErrorConfig, throw_check, check_err, is_zero, is_nil_value}

-- ThrowCheck stops the run exactly where CheckErr returns a number for a value and an error number
-- that are not nil, and then leaves the number and the message in the context that CheckErr returns.
pub throw_check-check_err :
    {S : Type 0} (config : ErrorConfig) (m : ErrorMap) (err_no : ℤ) (i : Value) (p : Page S)
    → throw_check config m err_no i p ≡ (
        if is_nil_value i || is_zero err_no
        then returned p
        else panicked stop_run (record p {
          ctx = record (p.ctx) {
            err_no = (check_err config m err_no i p).0.0;
            err_msg = (check_err config m err_no i p).0.1;
          };
        }))
unfolding throw_check check_err
throw_check-check_err config m err_no i p = ground arith

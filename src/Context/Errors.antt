-- ===== src/Context/Errors.antt =====
-- The error numbers: common/error.go, and ThrowCheck and CheckErr of context.go.
pub mod Code
use hfw.Base.{
  ℕ, Bool, true, false, ◌&&◌, ◌||◌, ◌==◌, List, [], ◌∷◌, Option, none, some, if◌then◌else◌,
}
use hfw.Base.Text.{Text, codes, is_nil}
use hfw.Base.Int.{ℤ, pos, negsuc, ◌+ℤ◌, ◌*ℤ◌, ltb_ℤ, wrap64}
use hfw.Context.{HttpContext, Page, Outcome, returned, panicked, stop_run, value_or_nil}

abbrev pub eq_ℤ : ℤ → ℤ → Bool
eq_ℤ (pos a) (pos b) = a == b
eq_ℤ (negsuc a) (negsuc b) = a == b
eq_ℤ (pos a) (negsuc b) = false
eq_ℤ (negsuc a) (pos b) = false

-- `errorMap`; the newest entry of a number stands first.
abbrev pub ErrorMap : Type 0
ErrorMap = List (ℤ × Text)

unfoldable pub error_map : ErrorMap
error_map = (pos 400, codes "request error") ∷ (pos 500, codes "system error") ∷ []

unfoldable pub add_error_map : ℤ → Text → ErrorMap → ErrorMap
add_error_map err_no err_msg m = (err_no, err_msg) ∷ m

unfoldable pub set_error_map : List (ℤ × Text) → ErrorMap → ErrorMap
unfolding add_error_map
set_error_map [] m = m
set_error_map ((k, v) ∷ kvs) m = set_error_map kvs (add_error_map k v m)

unfoldable pub find_error : ℤ → ErrorMap → Option Text
find_error err_no [] = none
find_error err_no ((k, v) ∷ m) = if eq_ℤ k err_no then some v else find_error err_no m

unfoldable pub get_error_map : ℤ → ErrorMap → Text
unfolding find_error
get_error_map err_no m = value_or_nil (find_error err_no m)

pub record RespErr : Type 0 where
  pub file : Text
  pub line : ℕ
  pub number : ℤ
  pub err : Text

-- A value of an interface type: nil, a *RespErr that may be nil itself, an error, a string, or
-- another value by what `%v` prints of it.
pub data Value : Type 0 where
  nil : Value
  resp_err : Option RespErr → Value
  error : Text → Value
  string : Text → Value
  other : Text → Value

-- The methods `ErrNo` and `ErrMsg`, which a nil pointer has too.
abbrev pub number_of : Option RespErr → ℤ
number_of none = pos 0
number_of (some e) = e.number

abbrev pub message_of : Option RespErr → Text
message_of none = []
message_of (some e) = e.err

abbrev pub is_zero : ℤ → Bool
is_zero a = eq_ℤ a (pos 0)

-- The text of the error that NewRespErr makes of a value that is no RespErr.
abbrev pub text_of : Value → Text
text_of nil = []
text_of (resp_err e) = message_of e
text_of (error s) = s
text_of (string s) = s
text_of (other s) = s

abbrev pub made : Text → ℕ → ℤ → Value → Option RespErr
made file line err_no (resp_err (some r)) = some (record r { number = err_no })
made file line err_no i =
    some (record { file = file; line = line; number = err_no; err = text_of i })

-- `NewRespErr`; `file` and `line` are what GetCaller finds.
unfoldable pub new_resp_err : Text → ℕ → ℤ → Value → Option RespErr
new_resp_err file line err_no nil = none
new_resp_err file line err_no i = if is_zero err_no then none else made file line err_no i

pub record ErrorConfig : Type 0 where
  pub app_id : ℤ
  pub error_base : ℤ

-- The last step of ThrowCheck and CheckErr, in int64.
unfoldable pub full_code : ErrorConfig → ℤ → ℤ
full_code config err_no =
    if ltb_ℤ err_no config.error_base && ltb_ℤ (pos 0) config.app_id
    then wrap64 (wrap64 (config.app_id *ℤ config.error_base) +ℤ err_no)
    else err_no

-- What the type switch of both makes of the number and the value.
abbrev pub switch : ℤ → Value → ℤ × Text
switch err_no (resp_err e) = (number_of e, message_of e)
switch err_no i = (err_no, text_of i)

abbrev pub is_nil_value : Value → Bool
is_nil_value nil = true
is_nil_value _ = false

-- `ThrowCheck`: nothing, or the panic of StopRun with the error in the context.
unfoldable pub throw_check :
    {S : Type 0} → ErrorConfig → ErrorMap → ℤ → Value → Page S → Outcome (Page S)
throw_check config m err_no i p =
    let (err_no', err_msg) = switch err_no i in
    let known = get_error_map err_no' m in
    if is_nil_value i || is_zero err_no
    then returned p
    else panicked stop_run (record p {
      ctx = record (p.ctx) {
        err_no = full_code config err_no';
        err_msg = if is_nil known then err_msg else known;
      };
    })

-- `CheckErr`: the number and the message, and the message that it leaves in the context.
unfoldable pub check_err :
    {S : Type 0} → ErrorConfig → ErrorMap → ℤ → Value → Page S → (ℤ × Text) × Page S
check_err config m err_no i p =
    let (err_no', err_msg) = switch err_no i in
    let known = get_error_map err_no' m in
    if is_nil_value i || is_zero err_no then ((pos 0, []), p) else (
      (full_code config err_no', if is_nil known then err_msg else known),
      record p { ctx = record (p.ctx) { err_msg = known } },
    )

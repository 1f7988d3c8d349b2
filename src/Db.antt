-- ===== src/Db.antt =====
-- What db/xorm_dao.go passes around: a condition (db/models.go), and the calls it makes on a session of
-- xorm, which is a library and is seen by its calls only.
mod Tests
pub mod Cond
pub mod Log
pub mod Description
pub mod Composed
pub mod Rounds
pub mod Order
pub mod Dao
pub mod Ops
pub mod Quiet
pub mod Refused
pub mod Paging
pub mod Unbounded
pub mod Engine
pub mod Shared
pub mod Overlap
pub mod Steps
pub mod Balance
pub mod Transaction
use hfw.Base.{
  ℕ, ◌+◌, ◌-◌, ◌*◌, ◌^◌, Bool, true, false, List, [], ◌∷◌, ◌++◌, Option, none, some, ltb, leb, ◌==◌,
  if◌then◌else◌, ◌||◌, ◌&&◌,
}
use hfw.Base.Text.{Text, is_nil}
use hfw.Base.Int.{ℤ, pos, negsuc, ltb_ℤ, wrap64}
use mathlib.Core.List.{reverse}

-- An `interface{}`. An integer is the one its type holds, of whatever width; a float is given by what
-- `int` makes of it; `other` is a value of any other type.
pub data AnyValue : Type 0 where
  null : AnyValue
  text : Text → AnyValue
  texts : List Text → AnyValue
  int : ℤ → AnyValue
  float : ℤ → AnyValue
  other : Text → AnyValue

-- `Cond`, in the order in which `range` goes through the map.
abbrev pub Cond : Type 0
Cond = List (Text × AnyValue)

-- `Model`: what its two methods answer.
pub record Model : Type 0 where
  pub auto_incr_col_name : Text
  pub table_name : Text

-- What is handed to Update.
pub data Params : Type 0 where
  of_cond : Cond → Params
  of_model : Model → Params
  of_other : Text → Params

-- An argument of Query.
pub data Arg : Type 0 where
  of_cond : Cond → Arg
  of_value : AnyValue → Arg

-- The methods of a session of xorm that are called here, with their arguments.
pub data Call : Type 0 where
  table : Model → Call
  group_by : Text → Call
  having : Text → Call
  sql : AnyValue → Call
  select : Text → Call
  distinct : Text → Call
  for_update : Call
  cols : List Text → Call
  must_cols : List Text → Call
  omit : List Text → Call
  all_cols : Call
  is_in : Text → AnyValue → Call
  is_in_ids : Text → List AnyValue → Call
  not_in : Text → AnyValue → Call
  where_ : Text → List AnyValue → Call
  order_by : Text → Call
  limit : ℤ → ℤ → Call
  unscoped : Call
  update : Params → Call
  insert : Model → Call
  insert_multi : AnyValue → Call
  get : Model → Call
  find : Call
  find_and_count : Call
  rows : Model → Call
  iterate : Model → Call
  count : Model → Call
  exec : Text → List AnyValue → Call
  query : List Arg → Call
  query_string : List Arg → Call
  query_interface : List Arg → Call
  delete : Model → Call
  begin : Call
  rollback : Call
  commit : Call

-- `common.ConvertToInt`
unfoldable pub convert_to_int : AnyValue → ℤ
convert_to_int (int n) = wrap64 n
convert_to_int _ = pos 0

-- `common.Max` at two arguments.
unfoldable pub max : ℤ → ℤ → ℤ
max i v = if ltb_ℤ i v then v else i

abbrev is_digit : ℕ → Bool
is_digit c = leb b'0' c && leb c b'9'

-- strconv.ParseUint in base 10: the digits behind the number read so far. It stops at the first digit
-- that takes it out of range; `none` is a syntax error.
unfoldable pub parse_uint : ℕ → Text → Option ℕ
parse_uint n [] = some n
parse_uint n (c ∷ s) =
    let m = n * 10 + (c - b'0') in
    let rest = parse_uint m s in
    if is_digit c then (if ltb m (2 ^ 64) then rest else some (2 ^ 64 - 1)) else none

-- strconv.Atoi without its error, for the digits behind the sign: the bound of an int where the number
-- is out of range, 0 where it is no number.
abbrev signed : Bool → Option ℕ → ℤ
signed is_negative none = pos 0
signed false (some n) = if ltb n (2 ^ 63) then pos n else pos (2 ^ 63 - 1)
signed true (some n) =
    if n == 0 then pos 0 else if ltb n (2 ^ 63) then negsuc (n - 1) else negsuc (2 ^ 63 - 1)

abbrev unsigned_digits : Text → Option ℕ
unsigned_digits [] = none
unsigned_digits (c ∷ s) = parse_uint 0 (c ∷ s)

unfoldable pub atoi : Text → ℤ
unfolding parse_uint
atoi [] = pos 0
atoi (c ∷ s) =
    if c == b'-'
    then signed true (unsigned_digits s)
    else signed false (if c == b'+' then unsigned_digits s else unsigned_digits (c ∷ s))

-- The integer a page or a page size stands for: the type switch of `buildCond`.
unfoldable pub int_of : AnyValue → ℤ
unfolding convert_to_int
int_of (float n) = n
int_of (text s) = atoi s
int_of v = convert_to_int v

-- White space of ASCII.
abbrev is_space : ℕ → Bool
is_space c = (c == 32) || (leb 9 c && leb c 13)

unfoldable drop_space : Text → Text
drop_space [] = []
drop_space (c ∷ s) = let shorter = drop_space s in if is_space c then shorter else c ∷ s

-- `strings.TrimSpace`
unfoldable pub trim_space : Text → Text
unfolding drop_space
trim_space s = reverse (drop_space (reverse (drop_space s)))

abbrev word_before : Text → List Text → List Text
word_before word rest = if is_nil word then rest else word ∷ rest

-- `strings.Fields`, behind the word read so far.
unfoldable fields_from : Text → Text → List Text
fields_from word [] = word_before word []
fields_from word (c ∷ s) =
    let next = word_before word (fields_from [] s) in
    let longer = fields_from (word ++ (c ∷ [])) s in if is_space c then next else longer

unfoldable pub fields : Text → List Text
unfolding fields_from
fields s = fields_from [] s

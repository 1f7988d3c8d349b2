-- ===== src/Redis.antt =====
-- redis/client.go: the commands of Client, over the radix client that runs them.
pub mod Values
pub mod Keys
pub mod Hashes
pub mod Sets
pub mod Places
pub mod Lists
pub mod Run
pub mod Laws
pub mod Deletes
pub mod Store
mod Tests
use hfw.Base.{
  ℕ, Bool, true, false, List, [], ◌∷◌, ◌++◌, Option, none, some, ◌⊎◌, inl, inr, if◌then◌else◌,
}
use hfw.Base.Text.{Text, codes, is_nil}
use hfw.Base.Int.{ℤ, pos}
use hfw.Session.{Err}

-- What a reply is read into: `&b`, `&num`, `&s`, `&raw`, a radix.MaybeNil, nil, or a slice or map,
-- here as its elements.
pub data Kind : Type 0 where
  flag number status bytes maybe nothing several : Kind

abbrev pub Of : Kind → Type 0
Of flag = Bool
Of number = ℤ
Of status = Text
Of bytes = Text
Of maybe = Option Text
Of nothing = Unit {0}
Of several = List Text

-- The value of a variable that nothing has been read into.
abbrev pub zero_of : (k : Kind) → Of k
zero_of flag = false
zero_of number = pos 0
zero_of status = []
zero_of bytes = []
zero_of maybe = none
zero_of nothing = tt
zero_of several = []

-- An argument of type interface{}; a value of the program's is given by an encoding.
pub data Any : Type 0 where
  string : Text → Any
  data_of : Text → Any
  int : ℤ → Any
  other : Text → Any

-- radix: how FlatCmd writes an argument, and how a command, its name first, is run by the client and
-- its server, whose state is an `R`. What is read of a reply that is an error is not used.
pub record Radix (R : Type 0) : Type 0 where
  pub flat : Any → List Text
  pub act : (k : Kind) → List Text → R → Of k × Err × R

-- `Client`; `connected` says whether its radix client is not nil.
pub record Client : Type 0 where
  pub connected : Bool
  pub prefix : Text
  pub is_cluster : Bool
  pub marshal : Option (Any → Text ⊎ Text)
  pub unmarshal : Option (Text → Any ⊎ Text)

-- The results of a command, and the state after it.
abbrev pub Reply : Type 0 → Type 0 → Type 0
Reply A R = A × Err × R

-- `if err != nil { return }`, with the results that are returned then.
abbrev pub on_ok : {A B R : Type 0} → B → Reply A R → (A → R → Reply B R) → Reply B R
on_ok d (a, none, r) f = f a r
on_ok d (a, some err, r) f = (d, some err, r)

abbrev pub params_not_enough : Err
params_not_enough = some (codes "params not enough")

module _ {R : Type 0} (radix : Radix R) (c : Client) where
  -- `Do`
  unfoldable pub do_action : (k : Kind) → List Text → R → Reply (Of k) R
  do_action k command r =
      if c.connected
      then radix.act k command r
      else (zero_of k, some (codes "redis instance not init"), r)

  -- `AddPrefix`
  unfoldable pub add_prefix : Text → Text
  add_prefix s = c.prefix ++ s

  -- A command on one key.
  unfoldable pub command : (k : Kind) → Text → Text → List Text → R → Reply (Of k) R
  unfolding do_action add_prefix
  command k name key args r = do_action k (name ∷ add_prefix key ∷ args) r

  abbrev pub flat_all : List Any → List Text
  flat_all [] = []
  flat_all (a ∷ args) = radix.flat a ++ flat_all args

  abbrev pub marshal_by : Option (Any → Text ⊎ Text) → Any → Any ⊎ Text
  marshal_by none a = inl a
  marshal_by (some f) a = elim (f a) [ inl raw ↦ inl (data_of raw) | inr err ↦ inr err ]

  -- `if c.Marshal != nil { ... }`
  unfoldable pub marshalled : Any → Any ⊎ Text
  marshalled a = marshal_by c.marshal a

  abbrev pub read_by : Option (Text → Any ⊎ Text) → Text → Option Any × Err
  read_by none raw = (some (data_of raw), none)
  read_by (some f) raw =
      if is_nil raw
      then (none, none)
      else elim (f raw) [ inl a ↦ (some a, none) | inr err ↦ (none, some err) ]

  -- The end of Get, HGet, LPop and RPop: whether there is a value, the error, and what has been read
  -- into `recv`, if anything.
  unfoldable pub received : Reply (Option Text) R → Reply (Bool × Option Any) R
  received (raw, some err, r) = ((false, none), some err, r)
  received (none, none, r) = ((false, none), none, r)
  received (some raw, none, r) = let (v, err) = read_by c.unmarshal raw in ((true, v), err, r)

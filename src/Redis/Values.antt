-- ===== src/Redis/Values.antt =====
-- Set, Get, MSet, MGet and the counters of redis/client.go.
use hfw.Base.{Bool, true, false, List, [], ◌∷◌, Option, none, some, ◌⊎◌, inl, inr, if◌then◌else◌}
use hfw.Base.Text.{Text, codes, text_eq}
use hfw.Base.Int.{ℤ}
use hfw.Session.{Err}
use hfw.Redis.{
  number, status, bytes, maybe, nothing, several, Of, Any, string, data_of, int, other, Radix,
  Client, Reply, on_ok, params_not_enough, do_action, add_prefix, command, flat_all, marshalled,
  received,
}

-- How a call of MSet ends; a panic at a key that is no string, or at no item at all, is `broken`.
pub data Ended (R : Type 0) : Type 0 where
  ended : Err → R → Ended R
  broken : R → Ended R

-- `s == OK`
abbrev pub is_ok : {R : Type 0} → Reply Text R → Reply Bool R
is_ok (s, err, r) = (text_eq s (codes "OK"), err, r)

abbrev pub is_even : {A : Type 0} → List A → Bool
is_even [] = true
is_even (_ ∷ []) = false
is_even (_ ∷ _ ∷ xs) = is_even xs

module _ {R : Type 0} (radix : Radix R) where
  -- Set behind the call of Marshal.
  unfoldable pub set_marshalled : Client → Text → List Any → R → Any ⊎ Text → Reply Bool R
  unfolding command
  set_marshalled c key args r (inl a) =
      is_ok (command radix c status (codes "SET") key (flat_all radix c (a ∷ args)) r)
  set_marshalled c key args r (inr err) = (false, some err, r)

  -- `Set`
  unfoldable pub set : Client → Text → List Any → R → Reply Bool R
  unfolding marshalled set_marshalled
  set c key [] r = (false, params_not_enough, r)
  set c key (a ∷ args) r = set_marshalled c key args r (marshalled radix c a)

  -- `Get`
  unfoldable pub get : Client → Text → R → Reply (Bool × Option Any) R
  unfolding received command
  get c key r = received radix c (command radix c maybe (codes "GET") key [] r)

  -- The loop of MSet in a cluster, which sets by the package's function Set: by DefaultIns.
  unfoldable pub set_each : Client → List Any → R → Ended R
  unfolding set
  set_each default_ins (string key ∷ a ∷ items) r =
      let (b, err, r') = set default_ins key (a ∷ []) r in
      elim err [ some err' ↦ ended (some err') r' | none ↦ set_each default_ins items r' ]
  set_each default_ins (data_of _ ∷ a ∷ items) r = broken r
  set_each default_ins (int _ ∷ a ∷ items) r = broken r
  set_each default_ins (other _ ∷ a ∷ items) r = broken r
  set_each default_ins [] r = ended none r
  set_each default_ins (_ ∷ []) r = ended none r

  -- The loop of MSet otherwise: the items as it leaves them, an error, or a panic.
  unfoldable pub prefixed_items : Client → List Any → Option (List Any ⊎ Text)
  unfolding marshalled add_prefix
  prefixed_items c (string key ∷ a ∷ items) =
      let rest = prefixed_items c items in
      elim (marshalled radix c a) [
        | inr err ↦ some (inr err)
        | inl a' ↦ elim rest [
          | none ↦ none
          | some (inr err) ↦ some (inr err)
          | some (inl items') ↦ some (inl (string (add_prefix radix c key) ∷ a' ∷ items'))
        ]
      ]
  prefixed_items c (data_of _ ∷ a ∷ items) = none
  prefixed_items c (int _ ∷ a ∷ items) = none
  prefixed_items c (other _ ∷ a ∷ items) = none
  prefixed_items c [] = some (inl [])
  prefixed_items c (_ ∷ []) = some (inl [])

  abbrev pub end_of : Reply (Of nothing) R → Ended R
  end_of (_, err, r) = ended err r

  -- What MSet sends of the items: the first of them is read as a string.
  unfoldable pub send_items : Client → List Any → R → Ended R
  unfolding do_action
  send_items c (string key ∷ items) r =
      end_of (do_action radix c nothing (codes "MSET" ∷ key ∷ flat_all radix c items) r)
  send_items c (data_of _ ∷ items) r = broken r
  send_items c (int _ ∷ items) r = broken r
  send_items c (other _ ∷ items) r = broken r
  send_items c [] r = broken r

  -- `MSet`
  unfoldable pub mset : Client → Client → List Any → R → Ended R
  unfolding set_each prefixed_items send_items
  mset default_ins c items r =
      if is_even items
      then if c.is_cluster then set_each default_ins items r else elim (prefixed_items c items) [
        | none ↦ broken r
        | some (inr err) ↦ ended (some err) r
        | some (inl items') ↦ send_items c items' r
      ]
      else ended params_not_enough r

  abbrev blank : List Text → List Text
  blank [] = []
  blank (_ ∷ keys) = [] ∷ blank keys

  -- The loop of MGet in a cluster: `recv` as it stands at the end, or at an error.
  unfoldable pub get_each : Client → List Text → R → Reply (List Text) R
  unfolding command
  get_each c [] r = ([], none, r)
  get_each c (key ∷ keys) r =
      on_ok ([] ∷ blank keys) (command radix c bytes (codes "GET") key [] r)
        (λ raw r'. let (rest, err, r'') = get_each c keys r' in (raw ∷ rest, err, r''))

  -- The keys of MGET.
  unfoldable pub prefixed : Client → List Text → List Text
  unfolding add_prefix
  prefixed c [] = []
  prefixed c (key ∷ keys) = add_prefix radix c key ∷ prefixed c keys

  -- `MGet`
  unfoldable pub mget : Client → List Text → R → Reply (List Text) R
  unfolding get_each prefixed do_action
  mget c keys r =
      if c.is_cluster
      then get_each c keys r
      else do_action radix c several (codes "MGET" ∷ prefixed c keys) r

  -- `Incr`, `Decr`, `IncrBy`, `DecrBy`
  unfoldable pub incr : Client → Text → R → Reply ℤ R
  unfolding command
  incr c key r = command radix c number (codes "INCR") key [] r

  unfoldable pub decr : Client → Text → R → Reply ℤ R
  unfolding command
  decr c key r = command radix c number (codes "DECR") key [] r

  unfoldable pub incr_by : Client → Text → ℤ → R → Reply ℤ R
  unfolding command
  incr_by c key delta r =
      command radix c number (codes "INCRBY") key (flat_all radix c (int delta ∷ [])) r

  unfoldable pub decr_by : Client → Text → ℤ → R → Reply ℤ R
  unfolding command
  decr_by c key delta r =
      command radix c number (codes "DECRBY") key (flat_all radix c (int delta ∷ [])) r

  -- `SetNx`, `SetEx`, `SetNxEx`: they call the package's Set, which is that of DefaultIns.
  unfoldable pub set_nx : Client → Client → Text → Any → R → Reply Bool R
  unfolding set
  set_nx default_ins c key value r = set default_ins key (value ∷ string (codes "NX") ∷ []) r

  unfoldable pub set_ex : Client → Client → Text → Any → ℤ → R → Err × R
  unfolding set
  set_ex default_ins c key value expiration r =
      let (b, err, r') =
        set default_ins key (value ∷ string (codes "EX") ∷ int expiration ∷ []) r in
      (err, r')

  unfoldable pub set_nx_ex : Client → Client → Text → Any → ℤ → R → Reply Bool R
  unfolding set
  set_nx_ex default_ins c key value expiration r =
      set default_ins key (value ∷ string (codes "NX") ∷ string (codes "EX") ∷ int expiration ∷ [])
        r

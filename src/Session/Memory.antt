-- ===== src/Session/Memory.antt =====
-- A client that keeps its hashes in memory, at which the laws of Redis hold.
use hfw.Base.{
  Bool, true, false, List, Option, none, some, ◌≡◌, ◌≢◌, refl, arith, inl, inr, Option-cases, [],
}
use hfw.Base.Text.{Text, codes}
use hfw.Base.Text.Laws.{text_eq_iff}
use hfw.Base.Dict.{lookup, insert, remove, lookup-insert, lookup-insert_self}
use hfw.Session.{Err}
use hfw.Session.Store.{HashClient}
use hfw.Session.StoreLaws.{HashLaws}

abbrev pub Hashes : Type 0
Hashes = List (Text × List (Text × Text))

abbrev pub hash_of : Option (List (Text × Text)) → List (Text × Text)
hash_of none = []
hash_of (some h) = h

unfoldable pub memory_hget : Text → Text → Hashes → Option Text
memory_hget key field r = lookup field (hash_of (lookup key r))

unfoldable pub memory_hset : Text → Text → Text → Hashes → Hashes
memory_hset key field value r = insert key (insert field value (hash_of (lookup key r))) r

unfoldable pub memory_rename_nx : Text → Text → Hashes → Bool × Err × Hashes
memory_rename_nx key key' r = elim (lookup key' r) [
  | some _ ↦ (false, none, r)
  | none ↦ elim (lookup key r) [
    | none ↦ (false, some (codes "ERR no such key"), r)
    | some h ↦ (true, none, insert key' h (remove key r))
  ]
]

abbrev pub memory : HashClient Hashes
memory = record {
  hset = λ key field value r. (none, memory_hset key field value r);
  hget = λ key field r. (memory_hget key field r, none);
  hexists = λ key field r. (elim (memory_hget key field r) [ none ↦ false | some _ ↦ true ], none);
  hdel = λ key field r. (none, insert key (remove field (hash_of (lookup key r))) r);
  del = λ key r. (none, remove key r);
  rename_nx = memory_rename_nx;
  expire = λ key expiration r. r;
}

pub memory_hget-hset :
    (key field value : Text) (r : Hashes)
    → memory_hget key field (memory_hset key field value r) ≡ some value
unfolding memory_hget memory_hset
memory_hget-hset key field value r = rw lookup-insert_self (rw lookup-insert_self)

pub memory_hget-hset_ne :
    (key key' field field' value : Text) (r : Hashes)
    → key ≢ key'
    → memory_hget key' field' (memory_hset key field value r) ≡ memory_hget key' field' r
unfolding memory_hget memory_hset
memory_hget-hset_ne key key' field field' value r h = ground (
  arith,
  text_eq_iff key key',
  lookup-insert key key' (insert field value (hash_of (lookup key r))) r,
)

pub memory_renamed :
    (key key' field : Text) (r r' : Hashes)
    → memory_rename_nx key key' r ≡ (true, none, r')
    → memory_hget key' field r' ≡ memory_hget key field r
unfolding memory_rename_nx memory_hget
memory_renamed key key' field r r' e = elim (Option-cases (lookup key' r)) [
  | inr (h, old) ↦ absurd (cc (rw (old, memory_rename_nx) at e))
  | inl free ↦ elim (Option-cases (lookup key r)) [
    | inl gone ↦ absurd (cc (rw gone at (rw (free, memory_rename_nx) at e)))
    | inr (h, found) ↦
        let same : insert key' h (remove key r) ≡ r' =
          cc (rw found at (rw (free, memory_rename_nx) at e)) in
        rw (← same, found) (rw lookup-insert_self)
  ]
]

pub memory_kept :
    (key key' : Text) (r r' : Hashes) → memory_rename_nx key key' r ≡ (false, none, r') → r ≡ r'
unfolding memory_rename_nx
memory_kept key key' r r' e = ground arith

pub memory-HashLaws : HashLaws memory
memory-HashLaws = record {
  hget-hset = λ key field value r _. memory_hget-hset key field value r;
  hget-hset_ne =
      λ key key' field field' value r h _. memory_hget-hset_ne key key' field field' value r h;
  hget-rename_nx = λ key key' field r r' e. memory_renamed key key' field r r' e;
  hget-rename_nx_kept = λ key key' at field r r' e. rw (memory_kept key key' r r' e);
  hget-expire = λ key at field expiration r h. refl;
}

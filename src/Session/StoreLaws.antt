-- ===== src/Session/StoreLaws.antt =====
-- The values of a session in the Redis store, and the laws of Redis below them.
use hfw.Base.{
  Bool, true, false, ◌++◌, none, some, ◌≡◌, ◌≢◌, refl, sym, ◌∙◌, subst, inl, inr, Bool-cases,
}
use hfw.Base.Text.{Text, text_eq}
use hfw.Base.Text.Laws.{append_cancel, text_eq_iff}
use hfw.Base.Int.{ℤ, pos, ltb_ℤ}
use hfw.Session.{Err, Session, rename, renamed, close, set, get}
use hfw.Session.Store.{HashClient, SessRedisStore, redis_store, after_rename_nx}
use hfw.Session.Laws.{refresh_new, refresh_old, refresh_kept}

-- What Redis documents of HSET, HGET, RENAMENX and EXPIRE, as the client's methods pass it on. Of an HSET or
-- a RENAMENX that returns an error, which Redis may have run or not, nothing is said.
pub record HashLaws {R : Type 0} (client : HashClient R) : Type 0 where
  pub hget-hset :
      (key field value : Text) (r : R)
      → (client.hset key field value r).0 ≡ none
      → (client.hget key field (client.hset key field value r).1).0 ≡ some value
  pub hget-hset_ne :
      (key key' field field' value : Text) (r : R)
      → key ≢ key'
      → (client.hset key field value r).0 ≡ none
      → (client.hget key' field' (client.hset key field value r).1).0
        ≡ (client.hget key' field' r).0
  -- A key that is renamed takes its hash along; where the new key is taken, nothing changes.
  pub hget-rename_nx :
      (key key' field : Text) (r r' : R)
      → client.rename_nx key key' r ≡ (true, none, r')
      → (client.hget key' field r').0 ≡ (client.hget key field r).0
  pub hget-rename_nx_kept :
      (key key' at field : Text) (r r' : R)
      → client.rename_nx key key' r ≡ (false, none, r')
      → (client.hget at field r').0 ≡ (client.hget at field r).0
  pub hget-expire :
      (key at field : Text) (expiration : ℤ) (r : R)
      → ltb_ℤ (pos 0) expiration ≡ true
      → (client.hget at field (client.expire key expiration r)).0 ≡ (client.hget at field r).0

module _ {R : Type 0} (client : HashClient R) (laws : HashLaws client) where
  -- A value that has been set without an error is read back, where the client keeps its laws.
  get-set :
      (session : Session) (key value : Text) (s : SessRedisStore R)
      → ((redis_store client).put session.id key value s).0 ≡ none
      → get (redis_store client) session key (set (redis_store client) session key value s)
        ≡ some value
  unfolding get set redis_store
  get-set session key value s h = laws.hget-hset (s.prefix ++ session.id) key value s.redis_ins h

  -- Without an error it changes no value of a session with another identifier, where the client keeps its laws.
  get-set_ne :
      (session other : Session) (key key' value : Text) (s : SessRedisStore R)
      → ((redis_store client).put session.id key value s).0 ≡ none
      → session.id ≢ other.id
      → get (redis_store client) other key' (set (redis_store client) session key value s)
        ≡ get (redis_store client) other key' s
  unfolding get set redis_store
  get-set_ne session other key key' value s fine h =
      laws.hget-hset_ne (s.prefix ++ session.id) (s.prefix ++ other.id) key key' value s.redis_ins
        (λ e. h (append_cancel s.prefix session.id other.id e)) fine

  -- A value that has been set in a session without an error is read back from it, and a session with
  -- another identifier has the values of before, where the client keeps the laws of HSET and HGET.
  get-set_both :
      (session other : Session) (key key' value : Text) (s : SessRedisStore R)
      → ((redis_store client).put session.id key value s).0 ≡ none
      → session.id ≢ other.id
      → (get (redis_store client) session key (set (redis_store client) session key value s)
          ≡ some value)
        × (get (redis_store client) other key' (set (redis_store client) session key value s)
            ≡ get (redis_store client) other key' s)
  get-set_both session other key key' value s h k =
      (get-set session key value s h, get-set_ne session other key key' value s h k)

  after_rename_nx-get :
      (sessid newid key : Text) (s : SessRedisStore R) (result : Bool × Err × R)
      → client.rename_nx (s.prefix ++ sessid) (s.prefix ++ newid) s.redis_ins ≡ result
      → result.1 ≡ none
      → (session : Session) → session.id ≡ sessid
      → session.newid ≡ newid
      → get
          (redis_store client)
          (renamed session (after_rename_nx client newid s result)).0
          key
          (renamed session (after_rename_nx client newid s result)).1
        ≡ get (redis_store client) session key s
  unfolding after_rename_nx get redis_store
  after_rename_nx-get sessid newid key s (b, some err, r) e fine session p q = absurd (cc fine)
  after_rename_nx-get sessid newid key s (false, none, r) e fine session p q =
      rw p (laws.hget-rename_nx_kept _ _ _ key s.redis_ins r e)
  after_rename_nx-get sessid newid key s (true, none, r) e fine session p q =
      elim (Bool-cases (ltb_ℤ (pos 0) s.expiration)) [
        | inl h ↦
            rw (h, p, q)
              (laws.hget-expire _ _ key s.expiration r h
                ∙ laws.hget-rename_nx _ _ key s.redis_ins r e)
        | inr h ↦ rw (h, p, q) (laws.hget-rename_nx _ _ key s.redis_ins r e)
      ]

  abbrev Keeps : Session → Text → SessRedisStore R → Session × SessRedisStore R → Type 0
  Keeps session key s result =
      get (redis_store client) result.0 key result.1 ≡ get (redis_store client) session key s

  rename_same :
      (session : Session) (s : SessRedisStore R)
      → text_eq session.id session.newid ≡ true
      → rename (redis_store client) session s ≡ (none, s)
  unfolding rename
  rename_same session s h = rw h

  rename_other :
      (session : Session) (s : SessRedisStore R)
      → text_eq session.id session.newid ≡ false
      → rename (redis_store client) session s
        ≡ after_rename_nx client session.newid s
            (client.rename_nx (s.prefix ++ session.id) (s.prefix ++ session.newid) s.redis_ins)
  unfolding rename redis_store
  rename_other session s h = rw h

  get_at :
      (session : Session) (key : Text) (s : SessRedisStore R) (id : Text)
      → session.id ≡ id
      → get (redis_store client) (record session { id = id; is_new = true }) key s
        ≡ get (redis_store client) session key s
  unfolding get
  get_at session key s id h = rw h

  -- RENAMENX of the key of a session to its new one returns no error.
  abbrev pub IsRenamable : Session → SessRedisStore R → Type 0
  IsRenamable session s =
      (client.rename_nx (s.prefix ++ session.id) (s.prefix ++ session.newid) s.redis_ins).1 ≡ none

  rename-get :
      (session : Session) (key : Text) (s : SessRedisStore R)
      → IsRenamable session s
      → get
          (redis_store client)
          (renamed session (rename (redis_store client) session s)).0
          key
          (renamed session (rename (redis_store client) session s)).1
        ≡ get (redis_store client) session key s
  rename-get session key s fine = elim (Bool-cases (text_eq session.id session.newid)) [
    | inl e ↦
        subst (λ r. Keeps session key s (renamed session r)) (sym (rename_same session s e))
          (get_at session key s session.newid ((text_eq_iff _ _).0 e))
    | inr e ↦
        subst (λ r. Keeps session key s (renamed session r)) (sym (rename_other session s e))
          (after_rename_nx-get session.id session.newid key s _ refl fine session refl refl)
  ]

  -- Where the RENAMENX that a close of the session may call returns no error, and the client keeps its
  -- laws: closing the session loses none of its values, whether it is renamed or not, also where its new
  -- identifier is taken.
  pub close-get :
      (https : Bool) (session : Session) (key : Text) (s : SessRedisStore R)
      → IsRenamable session s
      → get
          (redis_store client)
          (close (redis_store client) https session s).0
          key
          (close (redis_store client) https session s).2
        ≡ get (redis_store client) session key s
  unfolding close
  close-get https session key s fine = elim (Bool-cases session.is_new) [
    | inl new ↦
        subst (Keeps session key s) (sym (refresh_new (redis_store client) session s new)) refl
    | inr old ↦ elim (Bool-cases session.re_name) [
      | inl e ↦
          subst (Keeps session key s) (sym (refresh_old (redis_store client) session s old e))
            (rename-get session key s fine)
      | inr e ↦
          subst (Keeps session key s) (sym (refresh_kept (redis_store client) session s e)) refl
    ]
  ]

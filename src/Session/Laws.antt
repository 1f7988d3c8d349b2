-- ===== src/Session/Laws.antt =====
-- The identifiers of a session, from NewSession to Close.
use hfw.Base.{
  Bool, true, false, List, none, some, ◌≡◌, refl, sym, ap, ◌∙◌, subst, arith, inl, inr, Bool-cases,
}
use hfw.Base.Text.{Text, codes}
use hfw.Session.{
  Err, SessionStore, SessionConfig, Session, new_session, rename, renamed, refresh, cookie_of,
  close,
}

renamed_ok :
    {S : Type 0} (session : Session) (result : Err × S)
    → result.0 ≡ none
    → (renamed session result).0 ≡ record session { id = session.newid; is_new = true }
renamed_ok session (none, s) h = refl
renamed_ok session (some err, s) h = absurd (cc h)

renamed_failed :
    {S : Type 0} (session : Session) (result : Err × S) (err : Text)
    → result.0 ≡ some err
    → (renamed session result).0 ≡ session
renamed_failed session (none, s) err h = absurd (cc h)
renamed_failed session (some _, s) err h = refl

pub refresh_new :
    {S : Type 0} (store : SessionStore S) (session : Session) (s : S)
    → session.is_new ≡ true
    → refresh store session s ≡ (session, s)
unfolding refresh
refresh_new store session s h = ground arith

pub refresh_old :
    {S : Type 0} (store : SessionStore S) (session : Session) (s : S)
    → session.is_new ≡ false
    → session.re_name ≡ true
    → refresh store session s ≡ renamed session (rename store session s)
unfolding refresh
refresh_old store session s h k = ground arith

pub refresh_kept :
    {S : Type 0} (store : SessionStore S) (session : Session) (s : S)
    → session.re_name ≡ false
    → refresh store session s ≡ (session, s)
unfolding refresh
refresh_kept store session s h = ground arith

-- What Close leaves of a session that it does rename.
record IsRefreshed (session after : Session) : Type 0 where
  id : after.id ≡ session.newid
  is_new : after.is_new ≡ true
  cookie_name : after.cookie_name ≡ session.cookie_name

refresh-IsRefreshed :
    {S : Type 0} (store : SessionStore S) (session : Session) (s : S)
    → session.re_name ≡ true
    → (rename store session s).0 ≡ none
    → (session.is_new ≡ true → session.id ≡ session.newid)
    → IsRefreshed session (refresh store session s).0
refresh-IsRefreshed store session s h ok fresh = elim (Bool-cases session.is_new) [
  | inl e ↦
      subst (IsRefreshed session) (sym (ap (λ r. r.0) (refresh_new store session s e)))
        (record { id = fresh e; is_new = e; cookie_name = refl })
  | inr e ↦
      subst (IsRefreshed session)
        (sym (
          ap (λ r. r.0) (refresh_old store session s e h)
          ∙ renamed_ok session (rename store session s) ok))
        (record { id = refl; is_new = refl; cookie_name = refl })
]

module _ {S : Type 0} (store : SessionStore S) (cookies : List (Text × Text))
    (config : SessionConfig) (uuid : Text) (s : S) where
  abbrev opened : Session
  opened = (new_session store cookies config uuid s).0

  abbrev opened_store : S
  opened_store = (new_session store cookies config uuid s).1

  -- Where renaming is configured and the store renames, the identifier in use when the response
  -- goes out is the one that the server made for this request, whatever the request's cookie held,
  -- and the response sets the cookie to it.
  pub close-new_session :
      (https : Bool)
      → config.re_name ≡ true
      → (rename store opened opened_store).0 ≡ none
      → ((close store https opened opened_store).0.id ≡ uuid)
        × ((close store https opened opened_store).1
            ≡ some (record {
              name = opened.cookie_name;
              value = uuid;
              path = codes "/";
              http_only = true;
              secure = https;
            }))
  unfolding new_session close
  close-new_session https h ok =
      let r = refresh-IsRefreshed store opened opened_store h ok (ground arith) in
      (r.id, unfold cookie_of in rw (r.is_new, r.cookie_name, r.id))

module _ {S : Type 0} (store : SessionStore S) (session : Session) (s : S) where
  -- Where the store does not rename a session that the request brought, it keeps its identifier and
  -- no cookie is set.
  close_failed :
      (https : Bool) (err : Text)
      → session.is_new ≡ false
      → (rename store session s).0 ≡ some err
      → ((close store https session s).0 ≡ session) × ((close store https session s).1 ≡ none)
  unfolding close
  close_failed https err old failed = elim (Bool-cases session.re_name) [
    | inl e ↦
        let same : (refresh store session s).0 ≡ session =
          ap (λ r. r.0) (refresh_old store session s old e)
          ∙ renamed_failed session (rename store session s) err failed in
        (same, rw same (unfold cookie_of in ground arith))
    | inr e ↦
        let same : (refresh store session s).0 ≡ session =
          ap (λ r. r.0) (refresh_kept store session s e) in
        (same, rw same (unfold cookie_of in ground arith))
  ]

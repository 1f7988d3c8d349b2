-- ===== src/Session.antt =====
-- session/session.go, over the interface sessionStoreInterface.
pub mod Store
pub mod Laws
pub mod StoreLaws
pub mod Memory
mod Tests
use hfw.Base.{Bool, true, false, ◌&&◌, List, [], ◌∷◌, Option, none, some, not, if◌then◌else◌}
use hfw.Base.Text.{Text, codes, text_eq, is_nil}
use hfw.Base.Dict.{lookup}
use hfw.Base.Int.{ℤ}

-- A nil error is `none`.
abbrev pub Err : Type 0
Err = Option Text

-- sessionStoreInterface, over the state of the store; a stored value is its encoding.
pub record SessionStore (S : Type 0) : Type 0 where
  pub set_expiration : ℤ → S → S
  pub put : Text → Text → Text → S → Err × S
  pub get : Text → Text → S → Option Text × Err
  pub is_exist : Text → Text → S → Bool × Err
  pub del : Text → Text → S → Err × S
  pub destroy : Text → S → Err × S
  pub rename : Text → Text → S → Err × S

pub record SessionConfig : Type 0 where
  pub cookie_name : Text
  pub re_name : Bool
  pub expiration : ℤ

pub record Session : Type 0 where
  pub id : Text
  pub newid : Text
  pub is_new : Bool
  pub cookie_name : Text
  pub re_name : Bool
  pub expiration : ℤ

pub record Cookie : Type 0 where
  pub name : Text
  pub value : Text
  pub path : Text
  pub http_only : Bool
  pub secure : Bool

abbrev pub cookie_value : Option Text → Text
cookie_value none = []
cookie_value (some value) = value

-- `NewSession`: the cookies of the request, and the identifier that common.Uuid returned.
unfoldable pub new_session :
    {S : Type 0} → SessionStore S → List (Text × Text) → SessionConfig → Text → S → Session × S
new_session store cookies config uuid s =
    let name = if is_nil config.cookie_name then codes "sess_name" else config.cookie_name in
    let sess_id = cookie_value (lookup name cookies) in
    (
      record {
        id = if is_nil sess_id then uuid else sess_id;
        newid = uuid;
        is_new = is_nil sess_id;
        cookie_name = name;
        re_name = config.re_name;
        expiration = config.expiration;
      },
      store.set_expiration config.expiration s,
    )

-- `Rename`
unfoldable pub rename : {S : Type 0} → SessionStore S → Session → S → Err × S
rename store session s =
    if text_eq session.id session.newid then (none, s) else store.rename session.id session.newid s

-- The first half of `Close`: the session goes over to its new identifier if the store has.
abbrev pub renamed : {S : Type 0} → Session → Err × S → Session × S
renamed session (none, s) = (record session { id = session.newid; is_new = true }, s)
renamed session (some _, s) = (session, s)

unfoldable pub refresh : {S : Type 0} → SessionStore S → Session → S → Session × S
refresh store session s =
    if not session.is_new && session.re_name
    then renamed session (rename store session s)
    else (session, s)

unfoldable pub cookie_of : Bool → Session → Option Cookie
cookie_of https session =
    if session.is_new
    then some (record {
      name = session.cookie_name;
      value = session.id;
      path = codes "/";
      http_only = true;
      secure = https;
    })
    else none

-- `Close`: the cookie that is set, if one is.
unfoldable pub close :
    {S : Type 0} → SessionStore S → Bool → Session → S → Session × Option Cookie × S
unfolding refresh cookie_of
close store https session s =
    let (session', s') = refresh store session s in (session', cookie_of https session', s')

-- `IsExist`, `Set`, `Get`, `Del`, `Destroy`: the errors are dropped.
module _ {S : Type 0} (store : SessionStore S) (session : Session) where
  unfoldable pub is_exist : Text → S → Bool
  is_exist key s = (store.is_exist session.id key s).0

  unfoldable pub set : Text → Text → S → S
  set key value s = (store.put session.id key value s).1

  unfoldable pub get : Text → S → Option Text
  get key s = (store.get session.id key s).0

  unfoldable pub del : Text → S → S
  del key s = (store.del session.id key s).1

  unfoldable pub destroy : S → S
  destroy s = (store.destroy session.id s).1

-- ===== src/Session/Tests.antt =====
-- The session over a client that keeps its hashes in memory.
use hfw.Session.Memory.{Hashes, memory_rename_nx, memory, memory-HashLaws}
use hfw.Base.{true, false, List, some, ◌≡◌, refl, [], ◌∷◌}
use hfw.Base.Text.{Text, codes, text_eq}
use hfw.Base.Dict.{lookup}
use hfw.Base.Int.{pos}
use hfw.Session.{SessionConfig, Session, new_session, rename, close, get}
use hfw.Session.Store.{SessRedisStore, redis_store}
use hfw.Session.Laws.{close-new_session}
use hfw.Session.StoreLaws.{close-get}

abbrev store : SessRedisStore Hashes
store = record {
  redis_ins = (codes "sess_abc", (codes "user", codes "1") ∷ []) ∷ [];
  prefix = codes "sess_";
  expiration = pos 60;
}

abbrev config : SessionConfig
config = record { cookie_name = []; re_name = true; expiration = pos 60 }

abbrev cookies : List (Text × Text)
cookies = (codes "sess_name", codes "abc") ∷ []

abbrev brought : Session
brought = record {
  id = codes "abc";
  newid = codes "n1";
  is_new = false;
  cookie_name = codes "sess_name";
  re_name = true;
  expiration = pos 60;
}

close-new_session_example :
    ((close
        (redis_store memory)
        false
        (new_session (redis_store memory) cookies config (codes "n1") store).0
        (new_session (redis_store memory) cookies config (codes "n1") store).1).0.id
      ≡ codes "n1")
    × ((close
          (redis_store memory)
          false
          (new_session (redis_store memory) cookies config (codes "n1") store).0
          (new_session (redis_store memory) cookies config (codes "n1") store).1).1
        ≡ some (record {
          name = (new_session (redis_store memory) cookies config (codes "n1") store).0.cookie_name;
          value = codes "n1";
          path = codes "/";
          http_only = true;
          secure = false;
        }))
unfolding new_session rename redis_store memory_rename_nx lookup text_eq
close-new_session_example =
    close-new_session (redis_store memory) cookies config (codes "n1") store false refl refl

-- The new identifier is taken: nothing is renamed.
abbrev taken : SessRedisStore Hashes
taken = record store { redis_ins = (codes "sess_n1", []) ∷ store.redis_ins }

close-get_example :
    get
      (redis_store memory)
      (close (redis_store memory) false brought store).0
      (codes "user")
      (close (redis_store memory) false brought store).2
    ≡ get (redis_store memory) brought (codes "user") store
unfolding memory_rename_nx lookup text_eq
close-get_example = close-get memory memory-HashLaws false brought (codes "user") store refl

-- ===== src/Redis/Laws.antt =====
-- Values that are set and read, and the slices and clients that the commands really use.
use hfw.Base.{
  true, false, List, [], ◌∷◌, ◌++◌, map, Option, none, some, ◌≡◌, ◌≢◌, refl, sym, ap, ◌∙◌, subst,
  ◌⊎◌, inl, inr, Bool-cases,
}
use hfw.Base.Text.{Text, codes, is_nil}
use hfw.Base.Text.Laws.{text_eq_iff}
use hfw.Redis.{
  status, bytes, maybe, several, Any, data_of, string, Radix, Client, Reply, do_action, command,
  add_prefix, flat_all, marshalled, received,
}
use hfw.Redis.Run.{either, got, connected_action, connected_command, refused_command}
use hfw.Redis.Values.{is_ok, set_marshalled, set, get, get_each, mget, prefixed, set_nx}

-- What Redis documents of SET, GET and MGET, as radix passes it on.
pub record ValueLaws {R : Type 0} (radix : Radix R) : Type 0 where
  pub flat_bytes : (raw : Text) → radix.flat (data_of raw) ≡ raw ∷ []
  pub get-set :
      (key raw : Text) (r : R)
      → (radix.act status (codes "SET" ∷ key ∷ raw ∷ []) r).0 ≡ codes "OK"
      → (radix.act status (codes "SET" ∷ key ∷ raw ∷ []) r).1 ≡ none
      → ((radix.act maybe
            (codes "GET" ∷ key ∷ [])
            (radix.act status (codes "SET" ∷ key ∷ raw ∷ []) r).2).0
          ≡ some raw)
        × ((radix.act maybe
              (codes "GET" ∷ key ∷ [])
              (radix.act status (codes "SET" ∷ key ∷ raw ∷ []) r).2).1
            ≡ none)
  pub get-set_ne :
      (key other : Text) (args : List Text) (r : R)
      → key ≢ other
      → ((radix.act maybe
            (codes "GET" ∷ other ∷ [])
            (radix.act status (codes "SET" ∷ key ∷ args) r).2).0
          ≡ (radix.act maybe (codes "GET" ∷ other ∷ []) r).0)
        × ((radix.act maybe
              (codes "GET" ∷ other ∷ [])
              (radix.act status (codes "SET" ∷ key ∷ args) r).2).1
            ≡ (radix.act maybe (codes "GET" ∷ other ∷ []) r).1)
  -- The value that a key holds, nil as the empty text.
  pub value : R → Text → Text
  pub get :
      (key : Text) (r : R) → radix.act bytes (codes "GET" ∷ key ∷ []) r ≡ (value r key, none, r)
  pub mget :
      (keys : List Text) (r : R)
      → radix.act several (codes "MGET" ∷ keys) r ≡ (map (value r) keys, none, r)

-- The codec of a client: what Marshal makes of a value is not empty, and Unmarshal reads it back.
pub record HasCodec (c : Client) (a : Any) : Type 0 where
  pub encode : Any → Text ⊎ Text
  pub decode : Text → Any ⊎ Text
  pub raw : Text
  pub marshal : c.marshal ≡ some encode
  pub unmarshal : c.unmarshal ≡ some decode
  pub encoded : encode a ≡ inl raw
  pub filled : is_nil raw ≡ false
  pub decoded : decode raw ≡ inl a

module _ {R : Type 0} (radix : Radix R) where
  received-some :
      (c : Client) (a : Any) (codec : HasCodec c a) (r : R)
      → received radix c (some codec.raw, none, r) ≡ ((true, some a), none, r)
  unfolding received
  received-some c a codec r = rw codec.unmarshal (rw codec.filled (rw codec.decoded refl))

  read_back :
      (c : Client) (a : Any) (codec : HasCodec c a) (m : Reply (Option Text) R)
      → m.0 ≡ some codec.raw
      → m.1 ≡ none
      → (received radix c m).0 ≡ (true, some a)
  read_back c a codec (x, err, r) h k =
      subst (λ x. (received radix c (x, err, r)).0 ≡ (true, some a)) (sym h)
        (subst (λ err. (received radix c (some codec.raw, err, r)).0 ≡ (true, some a)) (sym k)
          (ap (λ m. m.0) (received-some c a codec r)))

  marshalled-some :
      (c : Client) (a : Any) (codec : HasCodec c a) → marshalled radix c a ≡ inl (data_of codec.raw)
  unfolding marshalled
  marshalled-some c a codec = rw codec.marshal (rw codec.encoded refl)

  module _ (laws : ValueLaws radix) where
    set_step :
        (c : Client) (a : Any) (codec : HasCodec c a) (key : Text) (r : R)
        → c.connected ≡ true
        → set radix c key (a ∷ []) r
          ≡ is_ok (radix.act status (codes "SET" ∷ (c.prefix ++ key) ∷ codec.raw ∷ []) r)
    unfolding set set_marshalled
    set_step c a codec key r h =
        ap (set_marshalled radix c key [] r) (marshalled-some c a codec)
        ∙ ap is_ok (
            connected_command radix c status (codes "SET") key _ r h
            ∙ ap (λ args. radix.act status (codes "SET" ∷ (c.prefix ++ key) ∷ args ++ []) r)
                (laws.flat_bytes codec.raw))

    get_step :
        (c : Client) (key : Text) (r : R)
        → c.connected ≡ true
        → get radix c key r
          ≡ received radix c (radix.act maybe (codes "GET" ∷ (c.prefix ++ key) ∷ []) r)
    unfolding get
    get_step c key r h =
        ap (received radix c) (connected_command radix c maybe (codes "GET") key [] r h)

    -- A value that Set has stored under a key is what Get reads under that key by the same client,
    -- where it is connected, its codec reads the value back and Redis keeps its laws.
    client_get-set :
        (c : Client) (a : Any)
        → HasCodec c a
        → (key : Text) (r : R) → c.connected ≡ true
        → (set radix c key (a ∷ []) r).0 ≡ true
        → (set radix c key (a ∷ []) r).1 ≡ none
        → (get radix c key (set radix c key (a ∷ []) r).2).0 ≡ (true, some a)
    client_get-set c a codec key r h ok fine =
        let e = set_step c a codec key r h in
        let sent = (radix.act status (codes "SET" ∷ (c.prefix ++ key) ∷ codec.raw ∷ []) r) in
        let said : sent.0 ≡ codes "OK" =
          (text_eq_iff sent.0 (codes "OK")).0 (sym (ap (λ m. m.0) e) ∙ ok) in
        let (read, none_read) =
          laws.get-set (c.prefix ++ key) codec.raw r said (sym (ap (λ m. m.1) e) ∙ fine) in
        ap (λ m. (get radix c key m.2).0) e
        ∙ ap (λ m. m.0) (get_step c key sent.2 h)
        ∙ read_back c a codec _ read none_read

    reads_same :
        (c : Client) (key : Text) (r r' : R)
        → (radix.act maybe (codes "GET" ∷ (c.prefix ++ key) ∷ []) r).0
          ≡ (radix.act maybe (codes "GET" ∷ (c.prefix ++ key) ∷ []) r').0
        → (radix.act maybe (codes "GET" ∷ (c.prefix ++ key) ∷ []) r).1
          ≡ (radix.act maybe (codes "GET" ∷ (c.prefix ++ key) ∷ []) r').1
        → (get radix c key r).0 ≡ (get radix c key r').0
    unfolding get command do_action add_prefix
    reads_same c key r r' h k = got radix c c.connected _ _ r r' h k

    kept_by :
        (default_ins c : Client) (key : Text) (args : List Any) (r : R)
        → default_ins.prefix ++ key ≢ c.prefix ++ key
        → (m : Any ⊎ Text)
        → (get radix c key (set_marshalled radix default_ins key args r m).2).0
          ≡ (get radix c key r).0
    unfolding set_marshalled command do_action add_prefix
    kept_by default_ins c key args r h (inr err) = refl
    kept_by default_ins c key args r h (inl a) = elim (Bool-cases default_ins.connected) [
      | inl e ↦
          let sent = flat_all radix default_ins (a ∷ args) in
          let (x, err) = laws.get-set_ne (default_ins.prefix ++ key) (c.prefix ++ key) sent r h in
          ap (λ m. (get radix c key (is_ok m).2).0)
            (connected_command radix default_ins status (codes "SET") key sent r e)
          ∙ reads_same c key _ r x err
      | inr e ↦
          ap (λ m. (get radix c key (is_ok m).2).0)
            (refused_command radix default_ins status (codes "SET") key _ r e)
    ]

    mget_each :
        (keys : List Text) (c : Client) (r : R)
        → c.connected ≡ true
        → get_each radix c keys r ≡ (map (laws.value r) (prefixed radix c keys), none, r)
    unfolding get_each prefixed
    mget_each [] c r h = refl
    mget_each (key ∷ keys) c r h =
        let e =
          connected_command radix c bytes (codes "GET") key [] r h ∙ laws.get (c.prefix ++ key) r in
        rw e (rw (mget_each keys c r h) refl)

    mget_values :
        (c : Client) (keys : List Text) (r : R)
        → c.connected ≡ true
        → mget radix c keys r ≡ (map (laws.value r) (prefixed radix c keys), none, r)
    unfolding mget do_action
    mget_values c keys r h = either c.is_cluster _ _ _ (mget_each keys c r h) (
        connected_action radix c several (codes "MGET" ∷ prefixed radix c keys) r h
        ∙ laws.mget (prefixed radix c keys) r)

    prefixed_same :
        (c d : Client) (keys : List Text)
        → c.prefix ≡ d.prefix
        → prefixed radix c keys ≡ prefixed radix d keys
    unfolding prefixed add_prefix
    prefixed_same c d [] h = refl
    prefixed_same c d (key ∷ keys) h = cc (h, prefixed_same c d keys h)

    -- MGet of a connected client reads the same values, and changes nothing, whether it reads them
    -- one by one, as in a cluster, or at once, where Redis keeps its laws.
    mget_same :
        (c : Client) (keys : List Text) (r : R)
        → c.connected ≡ true
        → (mget radix (record c { is_cluster = true }) keys r
            ≡ mget radix (record c { is_cluster = false }) keys r)
          × ((mget radix c keys r).2 ≡ r)
    mget_same c keys r h = (
      mget_values (record c { is_cluster = true }) keys r h
          ∙ ap (λ keys'. (map (laws.value r) keys', none, r)) (prefixed_same _ _ keys refl)
          ∙ sym (mget_values (record c { is_cluster = false }) keys r h),
      ap (λ m. m.2) (mget_values c keys r h),
    )

    -- SetNx of one client stores nothing under the key of another: it sets by DefaultIns, so a client
    -- whose prefix makes another key of the same name reads what it read before, where Redis keeps its laws.
    get-set_nx :
        (default_ins c : Client) (key : Text) (a : Any) (r : R)
        → default_ins.prefix ++ key ≢ c.prefix ++ key
        → (get radix c key (set_nx radix default_ins c key a r).2).0 ≡ (get radix c key r).0
    unfolding set_nx set
    get-set_nx default_ins c key a r h =
        kept_by default_ins c key (string (codes "NX") ∷ []) r h (marshalled radix default_ins a)

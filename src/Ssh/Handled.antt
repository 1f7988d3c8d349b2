-- ===== src/Ssh/Handled.antt =====
-- How the handling of a SOCKS5 client in ssh/proxy.go ends.
use hfw.Base.{
  ℕ, ◌-◌, ◌<◌, Bool, true, false, List, [], ◌∷◌, ◌++◌, none, some, ◌≡◌, ◌⊎◌, inl, inr, refl, arith,
  ◌==◌, ltb, if◌then◌else◌, length, take, drop, get_or,
}
use hfw.Base.Text.{Text, codes}
use hfw.Session.{Err}
use hfw.Pac.{Pac}
use hfw.Ssh.Proxy.{ProxyIni, Way, way_of}
use hfw.Ssh.Socks.{
  Socks, relays, returns, panics, Wire, itoa, ip_string, read_len, sent_to, Reply, refuse,
  wrote_back, wrote_status, connected, way_err, port_of, connect_host, with_host, at_host,
  read_address, at_request, read_request, wrote_method, at_greeting, read_greeting, accepted_conn,
  hand_socks5,
}

-- Both connections are open, or all that were opened are closed, or less than four bytes were read last.
abbrev pub IsEnd : Reply → Type 0
IsEnd (relays, s) =
    (s.is_closed ≡ false) × ((way : Way) × (s.remote ≡ some way)) × (s.is_remote_closed ≡ false)
IsEnd (returns e, s) = (s.is_closed ≡ true) × ((s.remote ≡ none) ⊎ (s.is_remote_closed ≡ true))
IsEnd (panics, s) = (buf : Text) × (rest : List Text) × (s.got ≡ buf ∷ rest) × (length buf < 4)

-- Before a host is connected to.
pub record IsOpen (s : Socks) : Type 0 where
  pub client : s.is_closed ≡ false
  pub no_remote : s.remote ≡ none
  pub remote : s.is_remote_closed ≡ false

-- The bytes that were read last.
abbrev IsLast : Text → Socks → Type 0
IsLast buf s = (rest : List Text) × (s.got ≡ buf ∷ rest)

either-IsEnd :
    (b : Bool) (x y : Reply)
    → (b ≡ true → IsEnd x)
    → (b ≡ false → IsEnd y)
    → IsEnd (if b then x else y)
either-IsEnd true x y h k = h refl
either-IsEnd false x y h k = k refl

short-IsEnd : (buf : Text) (s : Socks) → IsLast buf s → length buf < 4 → IsEnd (panics, s)
short-IsEnd buf s (rest, e) h = (buf, rest, e, h)

module _ (wire : Wire) where
  back-IsEnd :
      (e : Err) (way : Way) (s : Socks)
      → s.is_closed ≡ false
      → s.is_remote_closed ≡ false
      → s.remote ≡ some way
      → IsEnd (wrote_back e s)
  back-IsEnd none way s c r h = (c, (way, h), r)
  back-IsEnd (some e) way s c r h = (refl, inr refl)

  status-IsEnd :
      (e : Err) (way : Way) (buf : Text) (s : Socks)
      → s.is_closed ≡ false
      → s.is_remote_closed ≡ false
      → s.remote ≡ some way
      → IsEnd (wrote_status wire e buf s)
  status-IsEnd none way buf s c r h =
      back-IsEnd (wire.write_err (length s.sent)) way (sent_to buf s) c r h
  status-IsEnd (some e) way buf s c r h = (refl, inr refl)

  connected-IsEnd :
      (e : Err) (way : Way) (atyp : ℕ) (buf : Text) (s : Socks)
      → IsOpen s
      → IsEnd (connected wire e way atyp buf s)
  connected-IsEnd (some e) way atyp buf s o = (refl, inl o.no_remote)
  connected-IsEnd none way atyp buf s o =
      status-IsEnd (wire.write_err (length s.sent)) way buf
        (sent_to (5 ∷ 0 ∷ 0 ∷ atyp ∷ []) (record s { remote = some way })) o.client o.remote refl

  refuse-IsEnd : (atyp : ℕ) (s : Socks) → IsOpen s → IsEnd (refuse atyp s)
  refuse-IsEnd atyp s o = (refl, inl o.no_remote)

  module _ (ini : ProxyIni) (pac : Pac) where
    host-IsEnd :
        (host : Text) (atyp : ℕ) (buf : Text) (s : Socks)
        → IsOpen s
        → IsLast buf s
        → IsEnd (with_host wire ini pac host atyp buf s)
    unfolding connect_host
    host-IsEnd host atyp buf s o l =
        let way = way_of ini pac (host ++ (codes ":" ++ itoa (port_of wire ini pac buf))) in
        either-IsEnd (ltb (length buf) 2) _ _ (λ e. short-IsEnd buf s l (ground arith))
          (λ e. connected-IsEnd (way_err wire way) way atyp buf s o)

    address-IsEnd :
        (atyp : ℕ) (buf : Text) (s : Socks)
        → IsOpen s
        → IsLast buf s
        → IsEnd (at_host wire ini pac atyp buf s)
    unfolding connect_host ip_string
    address-IsEnd atyp buf s o l =
        either-IsEnd (atyp == 1) _ _ (λ e. host-IsEnd (ip_string buf) atyp buf s o l)
          (λ e.
            either-IsEnd (atyp == 3) _ _
              (λ e.
                either-IsEnd (ltb (length buf) 3) _ _ (λ e. short-IsEnd buf s l (ground arith))
                  (λ e. host-IsEnd (take (length buf - 3) (drop 1 buf)) atyp buf s o l))
              (λ e.
                either-IsEnd (atyp == 4) _ _ (λ e. refuse-IsEnd atyp s o)
                  (λ e. host-IsEnd [] atyp buf s o l)))

    third-IsEnd :
        (r : (Text × Err) × List Text) (atyp : ℕ) (s : Socks)
        → IsOpen s
        → IsEnd (read_address wire ini pac r atyp s)
    unfolding connect_host ip_string
    third-IsEnd ((buf, some e), rest) atyp s o = (refl, inl o.no_remote)
    third-IsEnd ((buf, none), rest) atyp s o =
        address-IsEnd atyp buf (record s { pieces = rest; got = buf ∷ s.got })
          (record { client = o.client; no_remote = o.no_remote; remote = o.remote }) (s.got, refl)

    request-IsEnd :
        (buf : Text) (s : Socks) → IsOpen s → IsLast buf s → IsEnd (at_request wire ini pac buf s)
    unfolding connect_host ip_string read_len
    request-IsEnd buf s o l =
        either-IsEnd (ltb (length buf) 2) _ _ (λ e. short-IsEnd buf s l (ground arith))
          (λ e.
            either-IsEnd (get_or buf 1 0 == 2) _ _ (λ e. refuse-IsEnd 1 s o)
              (λ e.
                either-IsEnd (get_or buf 1 0 == 3) _ _ (λ e. refuse-IsEnd 1 s o)
                  (λ e.
                    either-IsEnd (ltb (length buf) 4) _ _ (λ e. short-IsEnd buf s l (ground arith))
                      (λ e. third-IsEnd (read_len 1024 s.pieces) (get_or buf 3 0) s o))))

    second-IsEnd :
        (r : (Text × Err) × List Text) (s : Socks)
        → IsOpen s
        → IsEnd (read_request wire ini pac r s)
    unfolding connect_host ip_string read_len
    second-IsEnd ((buf, some e), rest) s o = (refl, inl o.no_remote)
    second-IsEnd ((buf, none), rest) s o =
        request-IsEnd buf (record s { pieces = rest; got = buf ∷ s.got })
          (record { client = o.client; no_remote = o.no_remote; remote = o.remote }) (s.got, refl)

    method-IsEnd : (e : Err) (s : Socks) → IsOpen s → IsEnd (wrote_method wire ini pac e s)
    unfolding connect_host ip_string read_len
    method-IsEnd (some e) s o = (refl, inl o.no_remote)
    method-IsEnd none s o = second-IsEnd (read_len 4 s.pieces) s o

    greeting-IsEnd :
        (buf : Text) (s : Socks) → IsOpen s → IsLast buf s → IsEnd (at_greeting wire ini pac buf s)
    unfolding connect_host ip_string read_len
    greeting-IsEnd [] s o l = short-IsEnd [] s l (omega arith)
    greeting-IsEnd (version ∷ methods) s o l =
        either-IsEnd (version == 5) _ _
          (λ e.
            method-IsEnd (wire.write_err (length s.sent)) (sent_to (5 ∷ 0 ∷ []) s)
              (record { client = o.client; no_remote = o.no_remote; remote = o.remote }))
          (λ e. (refl, inl o.no_remote))

    first-IsEnd :
        (r : (Text × Err) × List Text) (s : Socks)
        → IsOpen s
        → IsEnd (read_greeting wire ini pac r s)
    unfolding connect_host ip_string read_len
    first-IsEnd ((buf, some e), rest) s o = (refl, inl o.no_remote)
    first-IsEnd ((buf, none), rest) s o =
        greeting-IsEnd buf (record s { pieces = rest; got = buf ∷ s.got })
          (record { client = o.client; no_remote = o.no_remote; remote = o.remote }) (s.got, refl)

    -- Whatever a SOCKS5 client sends, and whichever writes and connections fail: HandSocks5 leaves both
    -- connections open and copies between them; or it returns, the client's connection is closed and so is
    -- that to the host if there is one; or it panics, right after a read of less than four bytes.
    pub hand_socks5-IsEnd : (pieces : List Text) → IsEnd (hand_socks5 wire ini pac pieces)
    unfolding hand_socks5
    hand_socks5-IsEnd pieces =
        first-IsEnd (read_len 257 pieces) (accepted_conn wire ini pac pieces)
          (record { client = refl; no_remote = refl; remote = refl })

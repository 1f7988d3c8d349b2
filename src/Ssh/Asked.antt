-- ===== src/Ssh/Asked.antt =====
-- What a SOCKS5 client of ssh/proxy.go asks for, and gets.
use hfw.Base.{
  ℕ, zero, suc, ◌+◌, ◌-◌, ◌*◌, ◌<◌, ◌≤◌, Bool, true, false, List, [], ◌∷◌, ◌++◌, Option, none, some,
  ◌≡◌, refl, ap, ◌∙◌, arith, ltb, if◌then◌else◌, length, take, drop, get_or, length-append,
  take-append, drop-append,
}
use hfw.Base.Text.{Text, codes}
use hfw.Pac.{Pac}
use hfw.Ssh.Proxy.{ProxyIni, Way, way_of}
use hfw.Ssh.Socks.{
  Socks, relays, panics, Wire, itoa, ip_string, read_len, way_err, port_of, connect_host,
  accepted_conn, Reply, read_greeting, wrote_method, read_address, read_request, with_host,
  connected, wrote_status, wrote_back, sent_to, hand_socks5,
}

module _ (wire : Wire) (ini : ProxyIni) (pac : Pac) where
  -- The third piece that asks for a host by its name.
  abbrev pub named : Text → ℕ → ℕ → Text
  named host high low = length host ∷ (host ++ (high ∷ low ∷ []))

  -- A client whose pieces are as the protocol has them.
  abbrev pub asking : Text → Text → ℕ → ℕ → List Text
  asking methods host high low = (5 ∷ methods) ∷ (5 ∷ 1 ∷ 0 ∷ 3 ∷ []) ∷ named host high low ∷ []

  abbrev pub asked_way : Text → ℕ → ℕ → Way
  asked_way host high low = way_of ini pac (host ++ (codes ":" ++ itoa (high * 256 + low)))

  take-whole : (n : ℕ) (t : Text) → length t ≤ n → take n t ≡ t
  take-whole zero [] h = refl
  take-whole (suc n) [] h = refl
  take-whole zero (c ∷ t) h = absurd (omega arith)
  take-whole (suc n) (c ∷ t) h = ap (λ s. c ∷ s) (take-whole n t (omega arith))

  abbrev port_in : Text → ℕ
  port_in last = get_or last 0 0 * 256 + get_or last 1 0

  -- The name and the port of the third piece.
  host_of :
      (host : Text) (high low : ℕ)
      → take (length (named host high low) - 3) (drop 1 (named host high low)) ≡ host
  host_of host high low =
      let n : suc (length (host ++ (high ∷ low ∷ []))) - 3 ≡ length host =
        omega (arith, length-append host (high ∷ low ∷ [])) in
      ap (λ k. take k (host ++ (high ∷ low ∷ []))) n ∙ take-append host (high ∷ low ∷ [])

  port_of-named :
      (host : Text) (high low : ℕ) → port_of wire ini pac (named host high low) ≡ high * 256 + low
  port_of-named host high low =
      let n : suc (length (host ++ (high ∷ low ∷ []))) - 2 ≡ suc (length host) =
        omega (arith, length-append host (high ∷ low ∷ [])) in
      ap (λ k. port_in (drop k (named host high low))) n
      ∙ ap port_in (drop-append host (high ∷ low ∷ []))

  -- A piece that is no longer than what is asked for is read whole.
  read_whole :
      (n : ℕ) (piece : Text) (rest : List Text)
      → length piece ≤ n
      → read_len n (piece ∷ rest) ≡ ((piece, none), rest)
  unfolding read_len
  read_whole n piece rest h =
      let whole : ltb n (length piece) ≡ false = ground arith in
      rw (take-whole n piece h, whole) refl

  not_short :
      (n : ℕ) (host : Text) (high low : ℕ) → n ≤ 3 → ltb (length (named host high low)) n ≡ false
  not_short n host high low h = ground (arith, length-append host (high ∷ low ∷ []))

  abbrev at_pieces : List Text → List Text → List Text → Option Way → Socks
  at_pieces pieces got sent remote = record {
    pieces = pieces;
    got = got;
    sent = sent;
    is_closed = false;
    remote = remote;
    is_remote_closed = false;
  }

  abbrev at_port : Text → ℕ → Text → Socks → Reply
  at_port host port buf s =
      let way = way_of ini pac (host ++ (codes ":" ++ itoa port)) in
      connected wire (way_err wire way) way 3 buf s

  -- Where nothing fails, a client that asks for a host by its name, and sends its greeting, its request and
  -- the address in three pieces, is connected to that host at the port of the last two bytes, in the way of
  -- the proxy's configuration; it gets the method, the status and its address back.
  pub hand_socks5-asking :
      (methods host : Text) (high low : ℕ)
      → length methods ≤ 256
      → length host ≤ 255
      → ((n : ℕ) → wire.write_err n ≡ none)
      → way_err wire (asked_way host high low) ≡ none
      → hand_socks5 wire ini pac (asking methods host high low) ≡ (
        relays,
        record {
          pieces = [];
          got = named host high low ∷ (5 ∷ 1 ∷ 0 ∷ 3 ∷ []) ∷ (5 ∷ methods) ∷ [];
          sent = named host high low ∷ (5 ∷ 0 ∷ 0 ∷ 3 ∷ []) ∷ (5 ∷ 0 ∷ []) ∷ [];
          is_closed = false;
          remote = some (asked_way host high low);
          is_remote_closed = false;
        },
      )
  unfolding hand_socks5 connect_host ip_string read_len
  hand_socks5-asking methods host high low few short fine reached =
      let third = named host high low in
      let greeting : Text = 5 ∷ methods in
      let request : Text = 5 ∷ 1 ∷ 0 ∷ 3 ∷ [] in
      let way = asked_way host high low in
      let s1 = at_pieces (request ∷ third ∷ []) (greeting ∷ []) ((5 ∷ 0 ∷ []) ∷ []) none in
      let s2 = at_pieces (third ∷ []) (request ∷ greeting ∷ []) ((5 ∷ 0 ∷ []) ∷ []) none in
      let s3 = at_pieces [] (third ∷ request ∷ greeting ∷ []) ((5 ∷ 0 ∷ []) ∷ []) none in
      let s4 =
        at_pieces [] (third ∷ request ∷ greeting ∷ []) ((5 ∷ 0 ∷ 0 ∷ 3 ∷ []) ∷ (5 ∷ 0 ∷ []) ∷ [])
          (some way) in
      ap
        (λ r.
          read_greeting wire ini pac r (accepted_conn wire ini pac (asking methods host high low)))
        (read_whole 257 greeting (request ∷ third ∷ []) (omega arith))
      ∙ ap (λ e. wrote_method wire ini pac e s1) (fine 0)
      ∙ ap (λ r. read_address wire ini pac r 3 s2)
          (read_whole 1024 third [] (omega (arith, length-append host (high ∷ low ∷ []))))
      ∙ ap
          (λ b.
            if b
            then (panics, s3)
            else with_host wire ini pac (take (length third - 3) (drop 1 third)) 3 third s3)
          (not_short 3 host high low (omega arith))
      ∙ ap (λ h. with_host wire ini pac h 3 third s3) (host_of host high low)
      ∙ ap (λ b. if b then (panics, s3) else connect_host wire ini pac host 3 third s3)
          (not_short 2 host high low (omega arith))
      ∙ ap (λ port. at_port host port third s3) (port_of-named host high low)
      ∙ ap (λ e. connected wire e way 3 third s3) reached
      ∙ ap (λ e. wrote_status wire e third s4) (fine 1)
      ∙ ap (λ e. wrote_back e (sent_to third s4)) (fine 2)

  too_short :
      (b : Bool) (s : Socks) (r : Reply) → b ≡ true → (if b then (panics, s) else r).0 ≡ panics
  too_short true s r h = refl
  too_short false s r h = absurd (cc h)

  -- A client whose request comes as one byte, or none, ends the process: nothing recovers the panic.
  hand_socks5_short :
      (methods piece : Text) (rest : List Text)
      → length methods ≤ 256
      → length piece < 2
      → wire.write_err 0 ≡ none
      → (hand_socks5 wire ini pac ((5 ∷ methods) ∷ piece ∷ rest)).0 ≡ panics
  unfolding hand_socks5 connect_host ip_string read_len
  hand_socks5_short methods piece rest few short fine =
      let greeting : Text = 5 ∷ methods in
      let s1 = at_pieces (piece ∷ rest) (greeting ∷ []) ((5 ∷ 0 ∷ []) ∷ []) none in
      let s2 = at_pieces rest (piece ∷ greeting ∷ []) ((5 ∷ 0 ∷ []) ∷ []) none in
      ap
        (λ r.
          (read_greeting wire ini pac r (accepted_conn wire ini pac (greeting ∷ piece ∷ rest))).0)
        (read_whole 257 greeting (piece ∷ rest) (omega arith))
      ∙ ap (λ e. (wrote_method wire ini pac e s1).0) fine
      ∙ ap (λ r. (read_request wire ini pac r s1).0) (read_whole 4 piece rest (omega arith))
      ∙ too_short (ltb (length piece) 2) _ _ (ground arith)

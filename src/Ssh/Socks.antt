-- ===== src/Ssh/Socks.antt =====
-- The handling of a SOCKS5 client in ssh/proxy.go. What the client sends comes in pieces: a read returns
-- the next of them, or as much of it as is asked for. Writes and connections to a host may fail.
use hfw.Base.{
  ℕ, ◌+◌, ◌-◌, ◌*◌, ◌/◌, ◌%◌, Bool, true, false, List, [], ◌∷◌, ◌++◌, Option, none, some, ◌==◌, ltb,
  if◌then◌else◌, length, take, drop, replicate, get_or,
}
use hfw.Base.Text.{Text, codes}
use hfw.Session.{Err}
use hfw.Pac.{Pac}
use hfw.Ssh.Proxy.{ProxyIni, Way, not_in_pac, by_ssh, direct, way_of}

-- The two connections. `got` is what was read and `sent` what was written, the last first.
pub record Socks : Type 0 where
  pub pieces : List Text
  pub got : List Text
  pub sent : List Text
  pub is_closed : Bool
  pub remote : Option Way
  pub is_remote_closed : Bool

-- The two goroutines copy; or an error, which may be nil, is returned; or an index is out of range.
pub data Handled : Type 0 where
  relays : Handled
  returns : Err → Handled
  panics : Handled

pub record Wire : Type 0 where
  -- The error of the n-th write to the client.
  pub write_err : ℕ → Err
  pub connect_err : Way → Err

-- `strconv.Itoa`, below 100000.
abbrev pub digit : ℕ → ℕ
digit n = b'0' + n % 10

unfoldable pub itoa : ℕ → Text
itoa n =
    if ltb n 10
    then digit n ∷ []
    else if ltb n 100
    then digit (n / 10) ∷ digit n ∷ []
    else if ltb n 1000
    then digit (n / 100) ∷ digit (n / 10) ∷ digit n ∷ []
    else if ltb n 10000
    then digit (n / 1000) ∷ digit (n / 100) ∷ digit (n / 10) ∷ digit n ∷ []
    else digit (n / 10000) ∷ digit (n / 1000) ∷ digit (n / 100) ∷ digit (n / 10) ∷ digit n ∷ []

-- `net.IP(buf[:4]).String()`; past what was read the buffer holds zeros.
abbrev pub ip_of : Text → Text
ip_of (a ∷ b ∷ c ∷ d ∷ _) =
    itoa a ++ (codes "." ++ (itoa b ++ (codes "." ++ (itoa c ++ (codes "." ++ itoa d)))))
ip_of _ = []

unfoldable pub ip_string : Text → Text
unfolding itoa
ip_string buf = ip_of (take 4 buf ++ replicate 4 0)

abbrev pub keep_rest : ℕ → Text → List Text → List Text
keep_rest n piece rest = if ltb n (length piece) then drop n piece ∷ rest else rest

-- `readLen`
unfoldable pub read_len : ℕ → List Text → (Text × Err) × List Text
read_len n [] = (([], some (codes "EOF")), [])
read_len n (piece ∷ rest) = ((take n piece, none), keep_rest n piece rest)

abbrev pub close_conn : Socks → Socks
close_conn s = record s { is_closed = true }

abbrev pub close_both : Socks → Socks
close_both s = record s { is_closed = true; is_remote_closed = true }

abbrev pub sent_to : Text → Socks → Socks
sent_to b s = record s { sent = b ∷ s.sent }

abbrev pub Reply : Type 0
Reply = Handled × Socks

-- Where a command or a type of address is refused, the error of the write is dropped.
abbrev pub refuse : ℕ → Socks → Reply
refuse atyp s =
    (returns none, close_conn (sent_to (5 ∷ 2 ∷ 0 ∷ atyp ∷ 0 ∷ 0 ∷ 0 ∷ 0 ∷ 0 ∷ 0 ∷ []) s))

-- From the last step back to the first.
abbrev pub wrote_back : Err → Socks → Reply
wrote_back none s = (relays, s)
wrote_back (some e) s = (returns (some e), close_both s)

module _ (wire : Wire) where
  abbrev pub wrote_status : Err → Text → Socks → Reply
  wrote_status none buf s = wrote_back (wire.write_err (length s.sent)) (sent_to buf s)
  wrote_status (some e) buf s = (returns (some e), close_both s)

  abbrev pub connected : Err → Way → ℕ → Text → Socks → Reply
  connected (some e) way atyp buf s = (returns (some e), close_conn s)
  connected none way atyp buf s =
      let s' = record s { remote = some way } in
      wrote_status (wire.write_err (length s.sent)) buf (sent_to (5 ∷ 0 ∷ 0 ∷ atyp ∷ []) s')

  abbrev pub way_err : Way → Err
  way_err not_in_pac = some (codes "不在Pac名单")
  way_err (by_ssh addr) = wire.connect_err (by_ssh addr)
  way_err (direct addr) = wire.connect_err (direct addr)

  module _ (ini : ProxyIni) (pac : Pac) where
    -- `buf[len(buf)-2:]`, big-endian.
    abbrev pub port_of : Text → ℕ
    port_of buf = let last = drop (length buf - 2) buf in get_or last 0 0 * 256 + get_or last 1 0

    unfoldable pub connect_host : Text → ℕ → Text → Socks → Reply
    unfolding way_of itoa
    connect_host host atyp buf s =
        let way = way_of ini pac (host ++ (codes ":" ++ itoa (port_of buf))) in
        connected (way_err way) way atyp buf s

    abbrev pub with_host : Text → ℕ → Text → Socks → Reply
    with_host host atyp buf s =
        if ltb (length buf) 2 then (panics, s) else connect_host host atyp buf s

    -- The third read, with its types of address.
    abbrev pub at_host : ℕ → Text → Socks → Reply
    unfolding connect_host ip_string
    at_host atyp buf s =
        if atyp == 1
        then with_host (ip_string buf) atyp buf s
        else if atyp == 3
        then (if ltb (length buf) 3
            then (panics, s)
            else with_host (take (length buf - 3) (drop 1 buf)) atyp buf s)
        else if atyp == 4
        then refuse atyp s
        else with_host [] atyp buf s

    abbrev pub read_address : (Text × Err) × List Text → ℕ → Socks → Reply
    unfolding connect_host ip_string
    read_address ((buf, some e), rest) atyp s =
        (returns (some e), close_conn (record s { pieces = rest }))
    read_address ((buf, none), rest) atyp s =
        at_host atyp buf (record s { pieces = rest; got = buf ∷ s.got })

    abbrev pub at_request : Text → Socks → Reply
    unfolding connect_host ip_string read_len
    at_request buf s =
        if ltb (length buf) 2
        then (panics, s)
        else if get_or buf 1 0 == 2
        then refuse 1 s
        else if get_or buf 1 0 == 3
        then refuse 1 s
        else if ltb (length buf) 4
        then (panics, s)
        else read_address (read_len 1024 s.pieces) (get_or buf 3 0) s

    abbrev pub read_request : (Text × Err) × List Text → Socks → Reply
    unfolding connect_host ip_string read_len
    read_request ((buf, some e), rest) s =
        (returns (some e), close_conn (record s { pieces = rest }))
    read_request ((buf, none), rest) s =
        at_request buf (record s { pieces = rest; got = buf ∷ s.got })

    abbrev pub wrote_method : Err → Socks → Reply
    unfolding connect_host ip_string read_len
    wrote_method (some e) s = (returns (some e), close_conn s)
    wrote_method none s = read_request (read_len 4 s.pieces) s

    abbrev pub at_greeting : Text → Socks → Reply
    unfolding connect_host ip_string read_len
    at_greeting [] s = (panics, s)
    at_greeting (version ∷ methods) s =
        if version == 5
        then wrote_method (wire.write_err (length s.sent)) (sent_to (5 ∷ 0 ∷ []) s)
        else (returns none, close_conn s)

    abbrev pub read_greeting : (Text × Err) × List Text → Socks → Reply
    unfolding connect_host ip_string read_len
    read_greeting ((buf, some e), rest) s =
        (returns (some e), close_conn (record s { pieces = rest }))
    read_greeting ((buf, none), rest) s =
        at_greeting buf (record s { pieces = rest; got = buf ∷ s.got })

    -- `HandSocks5`
    abbrev pub accepted_conn : List Text → Socks
    accepted_conn pieces = record {
      pieces = pieces;
      got = [];
      sent = [];
      is_closed = false;
      remote = none;
      is_remote_closed = false;
    }

    unfoldable pub hand_socks5 : List Text → Reply
    unfolding read_greeting
    hand_socks5 pieces = read_greeting (read_len 257 pieces) (accepted_conn pieces)

-- ===== src/Api.antt =====
-- Calls of other services over HTTP: api/api.go, over the resolver of service/discovery/consul.go. The
-- context, the URLs of net/url, the request of curl and the codecs are parameters.
pub mod Urls
pub mod Tries
pub mod Turns
mod Tests
use hfw.Base.{
  ℕ, zero, suc, ◌+◌, Bool, true, false, not, List, [], ◌∷◌, ◌++◌, Option, none, some, ◌==◌,
  if◌then◌else◌, length, get_elem?,
}
use hfw.Base.Text.{Text, codes, is_nil, has_prefix}
use hfw.Base.Int.{ℤ, pos, negsuc}
use hfw.Context.Errors.{eq_ℤ}
use hfw.Session.{Err}
use hfw.Discovery.{ConsulResolver, Got, got, no_address, out_of_range, get_address_of}
use hfw.Api.Urls.{Curl, Response, Net, CallOption, set_all, do_options, get_api_url}

-- What Call and StdCall return: a *RespErr, the error of the context, another error; or a panic.
pub data CallErr : Type 0 where
  resp_err : ℤ → Text → CallErr
  ctx_err : Text → CallErr
  plain : Text → CallErr
  panics : CallErr

-- `addressParams`: a resolver, which may be nil, addresses, or another type.
pub data AddressParams : Type 0 where
  of_resolver : Option ConsulResolver → AddressParams
  of_addresses : List Text → AddressParams
  of_other : AddressParams

-- How the loop of tries ends.
pub data Ended (S : Type 0) : Type 0 where
  answered : S → Ended S
  gave_up : Text → Ended S
  no_try : Ended S
  stopped : CallErr → Ended S

module _ {H U S : Type 0} (net : Net H U S) where
  -- What the tries share: the curl, the resolver, the addresses, and what was sent, the last first.
  pub record Tried : Type 0 where
    pub curl : Curl H
    pub cr : Option ConsulResolver
    pub addresses : List Text
    pub sent : List (Curl H)

  -- The address of a try, and what it is without a resolver.
  abbrev pub addressed : Got × Option ConsulResolver → Tried → Tried × Option CallErr
  addressed (got a, cr) t = (record t { cr = cr; addresses = a ∷ [] }, none)
  addressed (no_address m, cr) t = (record t { cr = cr }, some (resp_err (pos 500) m))
  addressed (out_of_range, cr) t = (record t { cr = cr }, some panics)

  abbrev pub choose_address : Option ConsulResolver → Tried → Tried × Option CallErr
  choose_address none t = (t, none)
  choose_address (some cr) t = addressed (get_address_of net.int63n (some cr)) t

  abbrev pub sent_at : ℕ → Text → Tried → Tried
  sent_at i url t =
      let c = record (t.curl) {
        url = url;
        headers = net.header_set (codes "Trace-Id") (net.trace_id i) t.curl.headers;
      } in
      record t { curl = c; sent = c ∷ t.sent }

  abbrev pub Outcome : Type 0
  Outcome = Ended S × Tried

  -- One try, from its request back to its start; `again` is the rest of the loop.
  abbrev pub after_request : (Err → Tried → Outcome) → S × Err → Tried → Outcome
  after_request again (s, none) t = (answered s, t)
  after_request again (s, some err) t = again (some err) t

  abbrev pub at_url : (Err → Tried → Outcome) → ℕ → Option (Text × Err) → Tried → Outcome
  at_url again i none t = (stopped panics, t)
  at_url again i (some (url, some err)) t = (stopped (resp_err (pos 500) err), t)
  at_url again i (some (url, none)) t =
      after_request again (net.request i (sent_at i url t).curl) (sent_at i url t)

  unfoldable pub at_address : (Err → Tried → Outcome) → ℕ → Text → Tried × Option CallErr → Outcome
  unfolding get_api_url
  at_address again i uri (t, some e) = (stopped e, t)
  at_address again i uri (t, none) = at_url again i (get_api_url net t.addresses uri) t

  unfoldable pub at_start : (Err → Tried → Outcome) → ℕ → Text → Err → Tried → Outcome
  unfolding at_address
  at_start again i uri (some err) t = (stopped (ctx_err err), t)
  at_start again i uri none t = at_address again i uri (choose_address t.cr t)

  -- The loop of Call: `left` tries are left, `i` were made, `err` is the error of the last one.
  unfoldable pub tries : ℕ → ℕ → Text → Err → Tried → Outcome
  unfolding at_start
  tries zero i uri none t = (no_try, t)
  tries zero i uri (some err) t = (gave_up err, t)
  tries (suc left) i uri err t = at_start (tries left (i + 1) uri) i uri (net.done i) t

  abbrev pub nothing : Response
  nothing = record { err_no = pos 0; err_msg = []; results = [] }

  abbrev pub decoded : Response × Err → Response × Option CallErr
  decoded (r, none) = (r, none)
  decoded (r, some err) = (r, some (resp_err (pos 500) err))

  -- Under DEBUG the error of `Unmarshal` is kept in a variable of the block, and is lost.
  abbrev pub after_read : Text × Err → Response × Option CallErr
  after_read (body, some err) = (nothing, some (resp_err (pos 500) err))
  after_read (body, none) = ((net.unmarshal body).0, none)

  unfoldable pub read_body : S → Response × Option CallErr
  read_body s = if net.is_debug then after_read (net.read_all s) else decoded (net.unmarshal_io s)

  -- What follows the loop.
  unfoldable pub concluded : Text → Ended S → Response × Option CallErr
  unfolding read_body
  concluded url (answered s) = if eq_ℤ (net.status_code s) (pos 200) then read_body s else (
    nothing,
    some (
        resp_err (pos 500)
          (codes "Call:" ++ (url ++ (codes " StatusCode:" ++ net.decimal (net.status_code s))))),
  )
  concluded url (gave_up err) = (nothing, some (resp_err (pos 500) err))
  concluded url (stopped e) = (nothing, some e)
  concluded url no_try = (nothing, some panics)

  -- `curl.NewPost` as Call fills it.
  abbrev pub with_app_id : Option Text → H → H
  with_app_id none h = h
  with_app_id (some id) h = net.header_set (codes "AppID") id h

  abbrev pub posted : Option Text → List (Text × Text) → List CallOption → Text → Curl H
  posted app_id header opts bytes =
      let h = net.header_set (codes "Content-Type") (codes "application/json") net.no_headers in
      do_options net opts (record {
        url = [];
        headers = set_all net header (with_app_id app_id h);
        timeout = pos 30;
        post_bytes = bytes;
      })

  abbrev pub started_with : Curl H → Option ConsulResolver → List Text → Tried
  started_with c cr addresses = record { curl = c; cr = cr; addresses = addresses; sent = [] }

  abbrev pub answer_of : Ended S × Tried → (Response × Option CallErr) × Tried
  unfolding concluded
  answer_of (ended, t) = (concluded t.curl.url ended, t)

  abbrev pub call_with :
      Text → Curl H → Option ConsulResolver → List Text → (Response × Option CallErr) × Tried
  unfolding tries concluded
  call_with uri c cr addresses = answer_of (tries 3 0 uri none (started_with c cr addresses))

  abbrev pub refused : CallErr → (Response × Option CallErr) × Tried
  refused e = ((nothing, some e), started_with (posted none [] [] []) none [])

  -- `Call` in a context that is not nil; `bytes` is what the parameters are marshalled to.
  unfoldable pub call :
      Option Text
      → List (Text × Text)
      → AddressParams
      → Text
      → Text × Err
      → List CallOption
      → (Response × Option CallErr) × Tried
  unfolding call_with
  call app_id header of_other uri bytes opts = refused (plain (codes "error addressParams type"))
  call app_id header (of_resolver cr) uri (bytes, some err) opts = refused (resp_err (pos 500) err)
  call app_id header (of_addresses addresses) uri (bytes, some err) opts =
      refused (resp_err (pos 500) err)
  call app_id header (of_resolver cr) uri (bytes, none) opts =
      call_with uri (posted app_id header opts bytes) cr []
  call app_id header (of_addresses addresses) uri (bytes, none) opts =
      call_with uri (posted app_id header opts bytes) none addresses

  -- `StdCall`: the error of the answer is the error of the call.
  abbrev pub with_std_err :
      (Response × Option CallErr) × Tried → (Response × Option CallErr) × Tried
  with_std_err ((r, some e), t) = ((r, some e), t)
  with_std_err ((r, none), t) =
      if eq_ℤ r.err_no (pos 0) then ((r, none), t) else ((r, some (resp_err r.err_no r.err_msg)), t)

  unfoldable pub std_call :
      Option Text
      → AddressParams
      → Text
      → Text × Err
      → List CallOption
      → (Response × Option CallErr) × Tried
  unfolding call
  std_call app_id params uri bytes opts = with_std_err (call app_id [] params uri bytes opts)

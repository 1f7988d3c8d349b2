-- ===== src/Ssh/Proxy.antt =====
-- The proxy of ssh/proxy.go: its life, and the way that an address is connected to. Listening, the file of
-- the proxy table and the reads and writes of a connection are parameters.
use hfw.Base.{Bool, not, ◌&&◌, ◌||◌, ◌++◌, none, some, if◌then◌else◌}
use hfw.Base.Text.{Text, codes, is_nil, has_prefix, has_suffix, contains}
use hfw.Session.{Err}
use hfw.Pac.{Pac, check}
use hfw.Ssh.{SshConfig, Instances, Lib, new_ssh, close_at}

-- `ProxyIni`
pub record ProxyIni : Type 0 where
  pub bind : Text
  pub is_http : Bool
  pub is_ssh : Bool
  pub is_pac : Bool
  pub is_break : Bool

-- The ways of `dial`.
pub data Way : Type 0 where
  not_in_pac : Way
  by_ssh direct : Text → Way

-- `isSSH`
unfoldable pub is_by_ssh : ProxyIni → Pac → Text → Bool
is_by_ssh ini pac addr = ini.is_ssh || (ini.is_pac && check pac addr)

abbrev pub with_port : Text → Text
with_port addr =
    if (has_prefix addr (codes "[") && has_suffix addr (codes "]"))
      || not (contains addr (codes ":"))
    then addr ++ codes ":80"
    else addr

-- `dial`
unfoldable pub way_of : ProxyIni → Pac → Text → Way
unfolding is_by_ssh has_prefix has_suffix contains
way_of ini pac addr =
    let ssh = is_by_ssh ini pac addr in
    if not ssh && (ini.is_pac && ini.is_break)
    then not_in_pac
    else if ssh
    then by_ssh (with_port addr)
    else direct (with_port addr)

module _ (lib : Lib) where
  -- What Accept leaves when the listener is closed: Close was called by Accept and by its goroutine.
  abbrev pub accepted : Text → Instances → Instances
  accepted key p = close_at lib key (close_at lib key p)

  -- From Bind on; NewProxy defers a Close of its own.
  abbrev pub after_listen : Err → Text → Instances → Err × Instances
  after_listen (some e) key p = (some e, close_at lib key p)
  after_listen none key p = (none, close_at lib key (accepted key p))

  abbrev pub with_ssh : Err → (Text × Err) × Instances → Err × Instances
  with_ssh listen ((key, some e), p) = (some e, p)
  with_ssh listen ((key, none), p) = after_listen listen key p

  abbrev pub loaded_pac : Err → Err → SshConfig → Instances → Err × Instances
  loaded_pac (some e) listen c p = (some e, p)
  loaded_pac none listen c p = with_ssh listen (new_ssh lib c p)

  -- `NewProxy`, until its goroutine has ended, with the errors of LoadDefault and of Bind.
  unfoldable pub new_proxy : Err → Err → SshConfig → ProxyIni → Instances → Err × Instances
  unfolding new_ssh close_at
  new_proxy load listen c ini p =
      if is_nil ini.bind
      then (some (codes "err ini"), p)
      else loaded_pac (if ini.is_pac then load else none) listen c p

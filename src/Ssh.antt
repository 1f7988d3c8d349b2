-- ===== src/Ssh.antt =====
-- The connections of ssh/ssh.go that several users share, counted by references. The dials, the checks
-- and the encoding of a configuration are parameters. What stands under the lock of an instance is one step.
pub mod Counts
pub mod Shared
pub mod Proxy
pub mod Overclosed
pub mod Socks
pub mod Handled
pub mod Asked
mod Tests
use hfw.Base.{
  ℕ, zero, suc, ◌+◌, ◌*◌, Bool, true, false, not, ◌&&◌, ◌||◌, List, [], ◌∷◌, Option, none, some,
  ◌==◌, if◌then◌else◌,
}
use hfw.Base.Text.{Text, codes, is_nil}
use hfw.Base.Dict.{lookup, insert}
use hfw.Base.Int.{ℤ, pos, negsuc, ltb_ℤ, ◌+ℤ◌, ◌-ℤ◌, wrap64}
use hfw.Session.{Err}

-- `SSHConfig`; `secrets` are its certificates and passwords.
pub record SshConfig : Type 0 where
  pub addr : Text
  pub user : Text
  pub secrets : List Text
  pub timeout : ℕ
  pub skip_keep : Bool

-- The field `c`: nil, or a client, which is known by the number of its dial.
pub data SshClient : Type 0 where
  no_client : SshClient
  open_client closed_client : ℕ → SshClient

-- `SSH`, as NewSSH makes it; `is_watched` says whether its goroutine of keepalive runs.
pub record Ssh : Type 0 where
  pub config : SshConfig
  pub ref : ℤ
  pub reconnect_time : ℕ
  pub c : SshClient
  pub is_canceled : Bool
  pub is_keep_alive : Bool
  pub is_watched : Bool

-- `sshIns`, and how many dials were made.
pub record Instances : Type 0 where
  pub ssh_ins : List (Text × Ssh)
  pub dials : ℕ

pub record Lib : Type 0 where
  -- `key`
  pub key_of : SshConfig → Text × Err
  -- The error of `dial`, the n-th time.
  pub dial_err : ℕ → SshConfig → Err

-- `SetConfig`
abbrev pub set_config : SshConfig → SshConfig
set_config c = if c.timeout == 0 then record c { timeout = 4 * 60 } else c

abbrev pub created : SshConfig → Ssh
created c = record {
  config = set_config c;
  ref = pos 0;
  reconnect_time = 0;
  c = no_client;
  is_canceled = false;
  is_keep_alive = false;
  is_watched = false;
}

abbrev pub found_or : Option Ssh → SshConfig → Ssh
found_or none c = created c
found_or (some s) c = s

abbrev pub add_ref : Ssh → Ssh
add_ref s = record s { ref = wrap64 (s.ref +ℤ pos 1) }

abbrev pub close_client : SshClient → SshClient
close_client no_client = no_client
close_client (open_client n) = closed_client n
close_client (closed_client n) = closed_client n

-- The start of `keepalive`.
abbrev pub keepalive : Ssh → Ssh
keepalive s =
    if s.is_keep_alive || s.config.skip_keep
    then s
    else record s { is_keep_alive = true; is_watched = true }

-- What a dial leaves in the field `c`.
abbrev pub client_of : Err → ℕ → SshClient
client_of none n = open_client n
client_of (some e) n = no_client

-- `Dial`, once it has an address.
abbrev pub after_dial : Err → ℕ → Ssh → Err × Ssh
after_dial none n s = (none, add_ref (keepalive (record s { c = open_client n })))
after_dial (some e) n s = (some e, record s { c = no_client })

abbrev pub stored_at : Text → Instances → ℕ → Err × Ssh → (Text × Err) × Instances
stored_at key p dials (e, s) =
    ((key, e), record { ssh_ins = insert key s p.ssh_ins; dials = dials })

module _ (lib : Lib) where
  unfoldable pub dial_ssh : Text → Ssh → Instances → (Text × Err) × Instances
  dial_ssh key s p =
      if is_nil s.config.addr
      then stored_at key p p.dials (some (codes "err sshConfig"), s)
      else stored_at key p (p.dials + 1) (after_dial (lib.dial_err p.dials s.config) p.dials s)

  -- `NewSSH`: the key of the instance that it returns, which is there also beside an error.
  abbrev pub new_at : Text → Ssh → Instances → (Text × Err) × Instances
  unfolding dial_ssh
  new_at key s p =
      if ltb_ℤ (pos 0) s.ref
      then stored_at key p p.dials (none, add_ref s)
      else dial_ssh key (record s { is_canceled = false }) p

  abbrev pub with_key : Text × Err → SshConfig → Instances → (Text × Err) × Instances
  unfolding dial_ssh
  with_key (key, some e) c p = (([], some e), p)
  with_key (key, none) c p = new_at key (found_or (lookup key p.ssh_ins) c) p

  unfoldable pub new_ssh : SshConfig → Instances → (Text × Err) × Instances
  unfolding with_key
  new_ssh c p = with_key (lib.key_of c) c p

  -- `Close`
  unfoldable pub close_ssh : Ssh → Ssh
  close_ssh s =
      let ref = wrap64 (s.ref -ℤ pos 1) in
      if ltb_ℤ (pos 0) ref
      then record s { ref = ref }
      else record s { ref = ref; is_canceled = true; is_watched = false; c = close_client s.c }

  -- What the goroutine of Check does after five seconds, under no lock; Check returns before that if the
  -- client is nil.
  unfoldable pub check_closes : Ssh → Ssh
  check_closes s = record s { c = close_client s.c }

  -- What keep does where its check has failed: nothing if the instance is closed, or a new dial.
  unfoldable pub keep_ssh : Ssh → ℕ → Ssh
  keep_ssh s n =
      if ltb_ℤ (pos 0) s.ref
      then record s {
        reconnect_time = s.reconnect_time + 1;
        c = client_of (lib.dial_err n s.config) n;
      }
      else s

  abbrev pub update_ssh : Text → (Ssh → Ssh) → Option Ssh → Instances → Instances
  update_ssh key f none p = p
  update_ssh key f (some s) p = record p { ssh_ins = insert key (f s) p.ssh_ins }

  -- The calls on the instance of a key.
  unfoldable pub close_at : Text → Instances → Instances
  unfolding close_ssh
  close_at key p = update_ssh key close_ssh (lookup key p.ssh_ins) p

  unfoldable pub check_at : Text → Instances → Instances
  unfolding check_closes
  check_at key p = update_ssh key check_closes (lookup key p.ssh_ins) p

  unfoldable pub keep_at : Text → Instances → Instances
  unfolding keep_ssh
  keep_at key p =
      update_ssh key (λ s. keep_ssh s p.dials) (lookup key p.ssh_ins)
        (record p { dials = p.dials + 1 })

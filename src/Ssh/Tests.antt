-- ===== src/Ssh/Tests.antt =====
-- A server behind two users and a proxy, and a client of the proxy.
use hfw.Base.{true, false, List, [], ◌∷◌, none, some, ◌≡◌, refl, arith}
use hfw.Base.Text.{Text, codes, text_eq, has_prefix, has_suffix, contains}
use hfw.Base.Dict.{lookup, insert}
use hfw.Base.Int.{pos, wrap64, ◌+ℤ◌}
use hfw.Pac.{Pac}
use hfw.Ssh.{SshConfig, Ssh, Instances, Lib, open_client, new_ssh, close_at, check_at}
use hfw.Ssh.Counts.{IsCounted, holds}
use hfw.Ssh.Shared.{SshStep, SshReach, holds-IsCounted}
use hfw.Ssh.Proxy.{ProxyIni, by_ssh, is_by_ssh, way_of, new_proxy}
use hfw.Ssh.Overclosed.{IsOverclosed, new_proxy_overcloses}
use hfw.Ssh.Socks.{Wire, relays, itoa, hand_socks5}
use hfw.Ssh.Handled.{IsEnd, hand_socks5-IsEnd}
use hfw.Ssh.Asked.{asking, named, asked_way, hand_socks5-asking}

abbrev lib : Lib
lib = record { key_of = λ c. (c.addr, none); dial_err = λ n c. none }

abbrev config : SshConfig
config = record {
  addr = codes "jump:22";
  user = codes "u";
  secrets = [];
  timeout = 240;
  skip_keep = false;
}

abbrev dialed : Ssh
dialed = record {
  config = config;
  ref = pos 1;
  reconnect_time = 0;
  c = open_client 0;
  is_canceled = false;
  is_keep_alive = true;
  is_watched = true;
}

abbrev one_user : Instances
one_user = record { ssh_ins = (codes "jump:22", dialed) ∷ []; dials = 1 }

abbrev two_users : Instances
two_users = record { ssh_ins = (codes "jump:22", record dialed { ref = pos 2 }) ∷ []; dials = 1 }

first_user :
    new_ssh lib config (record { ssh_ins = []; dials = 0 }) ≡ ((codes "jump:22", none), one_user)
unfolding new_ssh lookup insert text_eq wrap64 ◌+ℤ◌
first_user = refl

second_user : new_ssh lib config one_user ≡ ((codes "jump:22", none), two_users)
unfolding new_ssh lookup insert text_eq wrap64 ◌+ℤ◌
second_user = refl

held_twice : SshReach lib (λ key. false) two_users (codes "jump:22" ∷ codes "jump:22" ∷ [])
held_twice =
    SshReach.goes_on
      (SshReach.goes_on SshReach.begins (SshStep.takes config (omega arith) first_user))
      (SshStep.takes config (omega arith) second_user)

abbrev held : List Text
held = codes "jump:22" ∷ []

holds-IsCounted_example :
    IsCounted false
      (holds (codes "jump:22") held)
      (lookup (codes "jump:22") (close_at lib (codes "jump:22") two_users).ssh_ins)
holds-IsCounted_example =
    holds-IsCounted lib (λ key. false)
      (SshReach.goes_on held_twice (SshStep.gives_back (codes "jump:22") [] held)) (codes "jump:22")

-- A check of a connection with two users has timed out: the client is closed, and the two are counted.
timed_out :
    IsCounted true 2 (lookup (codes "jump:22") (check_at lib (codes "jump:22") two_users).ssh_ins)
unfolding text_eq
timed_out =
    holds-IsCounted lib (λ key. true)
      (SshReach.goes_on
        (SshReach.goes_on
          (SshReach.goes_on SshReach.begins (SshStep.takes config (omega arith) first_user))
          (SshStep.takes config (omega arith) second_user))
        (SshStep.times_out (codes "jump:22") refl))
      (codes "jump:22")

abbrev ini : ProxyIni
ini = record {
  bind = codes "1080";
  is_http = false;
  is_ssh = true;
  is_pac = false;
  is_break = false;
}

new_proxy_overcloses_example :
    (t : Ssh) × (lookup (codes "jump:22") (new_proxy lib none none config ini one_user).1.ssh_ins
      ≡ some t)
    × IsOverclosed lib 0 dialed t
unfolding lookup text_eq
new_proxy_overcloses_example =
    new_proxy_overcloses lib config ini (codes "jump:22") 0 dialed one_user refl refl refl refl
      (omega arith)

abbrev wire : Wire
wire = record { write_err = λ n. none; connect_err = λ way. none }

abbrev no_pac : Pac
no_pac = record { pac = []; is_load = false }

asked_example : asked_way wire ini no_pac (codes "go.dev") 1 187 ≡ by_ssh (codes "go.dev:443")
unfolding way_of is_by_ssh has_prefix has_suffix contains itoa
asked_example = refl

hand_socks5-IsEnd_example :
    IsEnd (hand_socks5 wire ini no_pac (asking wire ini no_pac (0 ∷ []) (codes "go.dev") 1 187))
hand_socks5-IsEnd_example =
    hand_socks5-IsEnd wire ini no_pac (asking wire ini no_pac (0 ∷ []) (codes "go.dev") 1 187)

hand_socks5-asking_example :
    hand_socks5 wire ini no_pac (asking wire ini no_pac (1 ∷ 0 ∷ []) (codes "go.dev") 1 187) ≡ (
      relays,
      record {
        pieces = [];
        got =
            named wire ini no_pac (codes "go.dev") 1 187
            ∷ (5 ∷ 1 ∷ 0 ∷ 3 ∷ [])
            ∷ (5 ∷ 1 ∷ 0 ∷ [])
            ∷ [];
        sent =
            named wire ini no_pac (codes "go.dev") 1 187 ∷ (5 ∷ 0 ∷ 0 ∷ 3 ∷ []) ∷ (5 ∷ 0 ∷ []) ∷ [];
        is_closed = false;
        remote = some (asked_way wire ini no_pac (codes "go.dev") 1 187);
        is_remote_closed = false;
      },
    )
unfolding way_of
hand_socks5-asking_example =
    hand_socks5-asking wire ini no_pac (1 ∷ 0 ∷ []) (codes "go.dev") 1 187 (omega arith)
      (omega arith) (λ n. refl) refl

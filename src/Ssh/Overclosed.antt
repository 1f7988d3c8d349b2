-- ===== src/Ssh/Overclosed.antt =====
-- What the end of a proxy of ssh/proxy.go does to the others that share its connection.
use hfw.Base.{
  ℕ, zero, suc, ◌<◌, Bool, true, false, none, some, ◌≡◌, refl, sym, ap, ◌∙◌, arith, if◌then◌else◌,
}
use hfw.Base.Text.{Text, codes, is_nil}
use hfw.Base.Dict.{lookup, lookup-insert_self}
use hfw.Base.Int.{ℤ, pos, sub_ℕ, ltb_ℤ, ◌+ℤ◌, ◌-ℤ◌, wrap64}
use hfw.Session.{Err}
use hfw.Ssh.{
  SshConfig, Ssh, SshClient, Instances, Lib, add_ref, close_client, closed_client, open_client,
  no_client, stored_at, new_at, with_key, found_or, new_ssh, close_ssh, close_at, update_ssh,
  dial_ssh,
}
use hfw.Ssh.Proxy.{ProxyIni, accepted, with_ssh, loaded_pac, new_proxy}

close_twice : (c : SshClient) → close_client (close_client c) ≡ close_client c
close_twice no_client = refl
close_twice (open_client n) = refl
close_twice (closed_client n) = refl

module _ (lib : Lib) where
  close_at-lookup :
      (key : Text) (p : Instances) (s : Ssh)
      → lookup key p.ssh_ins ≡ some s
      → lookup key (close_at lib key p).ssh_ins ≡ some (close_ssh lib s)
  unfolding close_at
  close_at-lookup key p s h =
      ap (λ o. lookup key (update_ssh lib key (close_ssh lib) o p).ssh_ins) h
      ∙ lookup-insert_self key (close_ssh lib s) p.ssh_ins

  -- A reference more and three less, from one reference or two.
  abbrev pub IsOverclosed : ℕ → Ssh → Ssh → Type 0
  IsOverclosed n s t = (t.ref ≡ sub_ℕ n 1) × (t.c ≡ close_client s.c)

  thrice : (n : ℕ) → Ssh → Ssh
  thrice n s =
      close_ssh lib (close_ssh lib (close_ssh lib (add_ref (record s { ref = pos (suc n) }))))

  thrice-IsOverclosed : (n : ℕ) (s : Ssh) → n < 2 → IsOverclosed n s (thrice n s)
  unfolding thrice close_ssh ◌+ℤ◌ ◌-ℤ◌ wrap64
  thrice-IsOverclosed zero s h = (refl, close_twice s.c)
  thrice-IsOverclosed (suc zero) s h = (refl, refl)
  thrice-IsOverclosed (suc (suc n)) s h = absurd (omega arith)

  -- An instance with references is not dialed again.
  found :
      (b : Bool) (key : Text) (s : Ssh) (p : Instances)
      → b ≡ true
      → (if b
          then stored_at key p p.dials (none, add_ref s)
          else dial_ssh lib key (record s { is_canceled = false }) p)
        ≡ stored_at key p p.dials (none, add_ref s)
  found true key s p h = refl
  found false key s p h = absurd (cc h)

  has_refs : (n : ℕ) (r : ℤ) → r ≡ pos (suc n) → ltb_ℤ (pos 0) r ≡ true
  has_refs n r e = ground arith

  new_ssh-found :
      (c : SshConfig) (key : Text) (n : ℕ) (s : Ssh) (p : Instances)
      → lib.key_of c ≡ (key, none)
      → lookup key p.ssh_ins ≡ some s
      → s.ref ≡ pos (suc n)
      → new_ssh lib c p ≡ stored_at key p p.dials (none, add_ref s)
  unfolding new_ssh dial_ssh
  new_ssh-found c key n s p k h e =
      ap (λ r. with_key lib r c p) k
      ∙ ap (λ o. new_at lib key (found_or o c) p) h
      ∙ found (ltb_ℤ (pos 0) s.ref) key s p (has_refs n s.ref e)

  no_error : (b : Bool) → (if◌then◌else◌ {A = Err} b none none) ≡ none
  no_error true = refl
  no_error false = refl

  closed_thrice :
      (key : Text) (p : Instances) (s : Ssh)
      → lookup key p.ssh_ins ≡ some s
      → lookup key (close_at lib key (accepted lib key p)).ssh_ins
        ≡ some (close_ssh lib (close_ssh lib (close_ssh lib s)))
  closed_thrice key p s h =
      close_at-lookup key (accepted lib key p) (close_ssh lib (close_ssh lib s))
        (close_at-lookup key (close_at lib key p) (close_ssh lib s) (close_at-lookup key p s h))

  -- A proxy whose configuration has an instance with one or two references, and that could listen: when it
  -- has ended, it has given back three references for the one that it took. A client of the instance is
  -- closed, though the one or two others have given back nothing, and the count is two less than before.
  pub new_proxy_overcloses :
      (c : SshConfig) (ini : ProxyIni) (key : Text) (n : ℕ) (s : Ssh) (p : Instances)
      → is_nil ini.bind ≡ false
      → lib.key_of c ≡ (key, none)
      → lookup key p.ssh_ins ≡ some s
      → s.ref ≡ pos (suc n)
      → n < 2
      → (t : Ssh) × (lookup key (new_proxy lib none none c ini p).1.ssh_ins ≡ some t)
        × IsOverclosed n s t
  unfolding new_proxy thrice
  new_proxy_overcloses c ini key n s p named k h e few =
      let s' = record s { ref = pos (suc n) } in
      let same : s' ≡ s = ap (λ r. record s { ref = r }) (sym e) in
      let p' = (stored_at key p p.dials (none, add_ref s)).1 in
      (
        thrice n s,
        ap
              (λ b.
                lookup key
                  (if b
                    then (some (codes "err ini"), p)
                    else loaded_pac lib (if◌then◌else◌ {A = Err} ini.is_pac none none) none c
                        p).1.ssh_ins)
              named
            ∙ ap (λ o. lookup key (loaded_pac lib o none c p).1.ssh_ins) (no_error ini.is_pac)
            ∙ ap (λ r. lookup key (with_ssh lib none r).1.ssh_ins) (new_ssh-found c key n s p k h e)
            ∙ closed_thrice key p' (add_ref s) (lookup-insert_self key (add_ref s) p.ssh_ins)
            ∙ ap (λ t. some (close_ssh lib (close_ssh lib (close_ssh lib (add_ref t))))) (sym same),
        thrice-IsOverclosed n s few,
      )

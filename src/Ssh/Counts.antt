-- ===== src/Ssh/Counts.antt =====
-- The references to one connection of ssh/ssh.go, and its client, through the calls.
use hfw.Base.{
  ℕ, suc, ◌+◌, ◌<◌, ◌^◌, Bool, true, false, List, [], ◌∷◌, ◌++◌, Option, none, some, ◌≡◌, inl, inr,
  refl, sym, ap, ◌∙◌, subst, arith, length, if◌then◌else◌, Bool-cases, ◌||◌,
}
use hfw.Base.Text.{Text, codes, text_eq, is_nil}
use hfw.Base.Text.Laws.{text_eq_iff, text_eq_refl}
use hfw.Base.Dict.{lookup, insert, lookup-insert}
use hfw.Base.Int.{ℤ, pos, ltb_ℤ, ◌+ℤ◌, ◌-ℤ◌, wrap64}
use hfw.Session.{Err}
use hfw.Ssh.{
  SshConfig, SshClient, no_client, open_client, closed_client, Ssh, Instances, Lib, found_or,
  add_ref, keepalive, client_of, after_dial, stored_at, dial_ssh, new_at, with_key, new_ssh,
  close_ssh, keep_ssh, check_closes,
}

-- How often a key is listed.
abbrev pub holds : Text → List Text → ℕ
holds key [] = 0
holds key (k ∷ ks) = let rest = holds key ks in if text_eq k key then suc rest else rest

abbrev NotClosed : SshClient → Type 0
NotClosed no_client = Unit
NotClosed (open_client n) = Unit
NotClosed (closed_client n) = ⊥

pub holds_le : (key : Text) (held : List Text) → holds key held < length held + 1
holds_le key [] = omega arith
holds_le key (k ∷ ks) = ground (arith, holds_le key ks)

pub holds-append : (key : Text) (a b : List Text) → holds key (a ++ b) ≡ holds key a + holds key b
holds-append key [] b = omega arith
holds-append key (k ∷ a) b = ground (arith, holds-append key a b)

plus_one : (r : ℤ) (n : ℕ) → n + 1 < 2 ^ 63 → r ≡ pos n → wrap64 (r +ℤ pos 1) ≡ pos (suc n)
unfolding ◌+ℤ◌ wrap64
plus_one r n small e = ground arith

minus_one : (r : ℤ) (n : ℕ) → n < 2 ^ 63 → r ≡ pos (suc n) → wrap64 (r -ℤ pos 1) ≡ pos n
unfolding ◌-ℤ◌ wrap64
minus_one r n small e = ground arith

some_held : (r : ℤ) (n : ℕ) → r ≡ pos n → ltb_ℤ (pos 0) r ≡ true → 0 < n
some_held r n e h = ground arith

none_held : (r : ℤ) (n : ℕ) → r ≡ pos n → ltb_ℤ (pos 0) r ≡ false → n ≡ 0
none_held r n e h = ground arith

if_same :
    (b : Bool) (s : Ssh)
    → ((if b then s else record s { is_keep_alive = true; is_watched = true }).ref ≡ s.ref)
      × (NotClosed s.c
          → NotClosed (if b then s else record s { is_keep_alive = true; is_watched = true }).c)
if_same true s = (refl, λ h. h)
if_same false s = (refl, λ h. h)

-- The start of the goroutine leaves the references and the client.
keepalive-same :
    (s : Ssh) → ((keepalive s).ref ≡ s.ref) × (NotClosed s.c → NotClosed (keepalive s).c)
keepalive-same s = if_same (s.is_keep_alive || s.config.skip_keep) s

-- Whether a check of the instance may time out.
module _ (may_time_out : Bool) where
  -- The client is not a closed one, where no check of it may time out.
  abbrev pub IsAlive : SshClient → Type 0
  IsAlive c = may_time_out ≡ false → NotClosed c

  -- The instance counts `n` references, and while there are any its client is alive.
  pub record Counts (n : ℕ) (s : Ssh) : Type 0 where
    pub ref : s.ref ≡ pos n
    pub alive : 0 < n → IsAlive s.c

  -- So it is with the instance of a key; a key without an instance has no reference.
  abbrev pub IsCounted : ℕ → Option Ssh → Type 0
  IsCounted n none = n ≡ 0
  IsCounted n (some s) = Counts n s

  found-Counts : (c : SshConfig) (n : ℕ) (o : Option Ssh) → IsCounted n o → Counts n (found_or o c)
  found-Counts c n none h = record { ref = ap pos (sym h); alive = λ k z. tt }
  found-Counts c n (some s) h = h

  -- What a call of NewSSH leaves of an instance with `n` references.
  abbrev IsNext : ℕ → Err × Ssh → Type 0
  IsNext n (none, s) = Counts (suc n) s
  IsNext n (some e, s) = Counts n s

  add_ref-Counts :
      (n : ℕ) (s : Ssh) → n + 1 < 2 ^ 63 → s.ref ≡ pos n → IsAlive s.c → Counts (suc n) (add_ref s)
  add_ref-Counts n s small e alive = record { ref = plus_one s.ref n small e; alive = λ k. alive }

  after_dial-IsNext : (e : Err) (n : ℕ) (s : Ssh) → s.ref ≡ pos 0 → IsNext 0 (after_dial e n s)
  after_dial-IsNext none n s h =
      let s' = record s { c = open_client n } in
      let (same, alive) = keepalive-same s' in
      add_ref-Counts 0 (keepalive s') (omega arith) (same ∙ h) (λ z. alive tt)
  after_dial-IsNext (some e) n s h = record { ref = h; alive = λ k. absurd (omega arith) }

  module _ (lib : Lib) where
    -- One reference less.
    pub close-Counts :
        (n : ℕ) (s : Ssh) → n < 2 ^ 63 → Counts (suc n) s → Counts n (close_ssh lib s)
    unfolding close_ssh
    close-Counts n s small k =
        let e : wrap64 (s.ref -ℤ pos 1) ≡ pos n = minus_one s.ref n small k.ref in
        elim (Bool-cases (ltb_ℤ (pos 0) (wrap64 (s.ref -ℤ pos 1)))) [
          | inl b ↦ rw b (record { ref = e; alive = λ h. k.alive (omega arith) })
          | inr b ↦ rw b (record {
            ref = e;
            alive = λ h. absurd (omega (arith, none_held (wrap64 (s.ref -ℤ pos 1)) n e b));
          })
        ]

    client-NotClosed : (e : Err) (n : ℕ) → NotClosed (client_of e n)
    client-NotClosed none n = tt
    client-NotClosed (some e) n = tt

    pub keep-Counts : (m n : ℕ) (s : Ssh) → Counts n s → Counts n (keep_ssh lib s m)
    unfolding keep_ssh
    keep-Counts m n s k = elim (Bool-cases (ltb_ℤ (pos 0) s.ref)) [
      | inl b ↦
          rw b (record { ref = k.ref; alive = λ h z. client-NotClosed (lib.dial_err m s.config) m })
      | inr b ↦ rw b k
    ]

    -- A check that times out.
    pub check-Counts :
        (n : ℕ) (s : Ssh) → may_time_out ≡ true → Counts n s → Counts n (check_closes lib s)
    unfolding check_closes
    check-Counts n s timed k = record { ref = k.ref; alive = λ h z. absurd (cc (timed, z)) }

-- The keys of the instances whose checks may time out.
module _ (may_time_out : Text → Bool) where
  abbrev pub AreCounted : Instances → List Text → Type 0
  AreCounted p held =
      (key : Text) → IsCounted (may_time_out key) (holds key held) (lookup key p.ssh_ins)

  -- To change the instance of one key.
  pub inserted-AreCounted :
      (key : Text) (s : Ssh) (p : Instances) (held held' : List Text)
      → AreCounted p held
      → Counts (may_time_out key) (holds key held') s
      → ((j : Text) → text_eq key j ≡ false → holds j held' ≡ holds j held)
      → (j : Text) → IsCounted (may_time_out j) (holds j held') (lookup j (insert key s p.ssh_ins))
  inserted-AreCounted key s p held held' h k same j = elim (Bool-cases (text_eq key j)) [
    | inl e ↦
        let here : key ≡ j = ground (arith, text_eq_iff key j) in
        rw (lookup-insert key j s p.ssh_ins, e)
          (subst (λ i. Counts (may_time_out i) (holds i held') s) here k)
    | inr e ↦ rw (lookup-insert key j s p.ssh_ins, e, same j e) (h j)
  ]

  -- What a call of NewSSH leaves of all of them.
  abbrev pub IsResult : List Text → (Text × Err) × Instances → Type 0
  IsResult held ((key, none), p) = AreCounted p (key ∷ held)
  IsResult held ((key, some e), p) = AreCounted p held

  stored-IsResult :
      (key : Text) (p : Instances) (dials : ℕ) (r : Err × Ssh) (held : List Text)
      → AreCounted p held
      → IsNext (may_time_out key) (holds key held) r
      → IsResult held (stored_at key p dials r)
  stored-IsResult key p dials (none, s) held h k =
      inserted-AreCounted key s p held (key ∷ held) h (rw (text_eq_refl key) k) (λ j e. rw e refl)
  stored-IsResult key p dials (some e, s) held h k =
      inserted-AreCounted key s p held held h k (λ j e. refl)

  module _ (lib : Lib) where
    either-IsResult :
        (held : List Text) (b : Bool) (x y : (Text × Err) × Instances)
        → (b ≡ true → IsResult held x)
        → (b ≡ false → IsResult held y)
        → IsResult held (if b then x else y)
    either-IsResult held true x y h k = h refl
    either-IsResult held false x y h k = k refl

    dial-IsResult :
        (key : Text) (s : Ssh) (p : Instances) (held : List Text)
        → AreCounted p held
        → holds key held ≡ 0
        → s.ref ≡ pos 0
        → IsResult held (dial_ssh lib key s p)
    unfolding dial_ssh
    dial-IsResult key s p held h z e =
        either-IsResult held (is_nil s.config.addr) _ _
          (λ b.
            stored-IsResult key p p.dials (some (codes "err sshConfig"), s) held h
              (record { ref = e ∙ ap pos (sym z); alive = λ k. absurd (omega arith) }))
          (λ b.
            stored-IsResult key p (p.dials + 1)
              (after_dial (lib.dial_err p.dials s.config) p.dials s) held h
              (subst
                (λ n.
                  IsNext (may_time_out key) n
                    (after_dial (lib.dial_err p.dials s.config) p.dials s))
                (sym z)
                (after_dial-IsNext (may_time_out key) (lib.dial_err p.dials s.config) p.dials s e)))

    new_at-IsResult :
        (key : Text) (s : Ssh) (p : Instances) (held : List Text)
        → length held + 1 < 2 ^ 63
        → AreCounted p held
        → Counts (may_time_out key) (holds key held) s
        → IsResult held (new_at lib key s p)
    unfolding dial_ssh
    new_at-IsResult key s p held small h k =
        either-IsResult held (ltb_ℤ (pos 0) s.ref) _ _
          (λ b.
            stored-IsResult key p p.dials (none, add_ref s) held h
              (add_ref-Counts (may_time_out key) (holds key held) s
                (omega (arith, holds_le key held)) k.ref
                (k.alive (some_held s.ref (holds key held) k.ref b))))
          (λ b.
            dial-IsResult key (record s { is_canceled = false }) p held h
              (none_held s.ref (holds key held) k.ref b)
              (k.ref ∙ ap pos (none_held s.ref (holds key held) k.ref b)))

    with_key-IsResult :
        (r : Text × Err) (c : SshConfig) (p : Instances) (held : List Text)
        → length held + 1 < 2 ^ 63
        → AreCounted p held
        → IsResult held (with_key lib r c p)
    unfolding dial_ssh
    with_key-IsResult (key, some e) c p held small h = h
    with_key-IsResult (key, none) c p held small h =
        new_at-IsResult key (found_or (lookup key p.ssh_ins) c) p held small h
          (found-Counts (may_time_out key) c (holds key held) (lookup key p.ssh_ins) (h key))

    pub new_ssh-IsResult :
        (c : SshConfig) (p : Instances) (held : List Text)
        → length held + 1 < 2 ^ 63
        → AreCounted p held
        → IsResult held (new_ssh lib c p)
    unfolding new_ssh
    new_ssh-IsResult c p held small h = with_key-IsResult (lib.key_of c) c p held small h

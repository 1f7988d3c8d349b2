-- ===== src/Ssh/Shared.antt =====
-- Who holds the connections of ssh/ssh.go, and which of them are open.
use hfw.Base.{
  suc, ◌+◌, ◌<◌, ◌^◌, Bool, true, false, List, [], ◌∷◌, ◌++◌, Option, none, some, ◌≡◌, refl, sym,
  ap, ◌∙◌, subst, arith, length, if◌then◌else◌,
}
use hfw.Base.Text.{Text, text_eq}
use hfw.Base.Text.Laws.{text_eq_refl}
use hfw.Base.Dict.{lookup}
use hfw.Ssh.{
  SshConfig, Ssh, Instances, Lib, new_ssh, close_ssh, keep_ssh, update_ssh, close_at, keep_at,
  check_at, check_closes,
}
use hfw.Ssh.Counts.{
  holds, Counts, IsCounted, AreCounted, holds_le, holds-append, inserted-AreCounted, IsResult,
  new_ssh-IsResult, close-Counts, keep-Counts, check-Counts,
}

module _ (lib : Lib) (may_time_out : Text → Bool) where
  -- What a user or the goroutine of an instance does, with the keys of the references that are held.
  pub data SshStep : Instances → List Text → Instances → List Text → Type 0 where
    takes :
        {p p' : Instances} {held : List Text} {key : Text}
        → (c : SshConfig) → length held + 1 < 2 ^ 63
        → new_ssh lib c p ≡ ((key, none), p')
        → SshStep p held p' (key ∷ held)
    fails :
        {p p' : Instances} {held : List Text} {key e : Text}
        → (c : SshConfig) → length held + 1 < 2 ^ 63
        → new_ssh lib c p ≡ ((key, some e), p')
        → SshStep p held p' held
    gives_back :
        {p : Instances}
        → (key : Text) (before later : List Text)
        → SshStep p (before ++ (key ∷ later)) (close_at lib key p) (before ++ later)
    times_out :
        {p : Instances} {held : List Text}
        → (key : Text) → may_time_out key ≡ true
        → SshStep p held (check_at lib key p) held
    reconnects :
        {p : Instances} {held : List Text} → (key : Text) → SshStep p held (keep_at lib key p) held

  pub data SshReach : Instances → List Text → Type 0 where
    begins : SshReach (record { ssh_ins = []; dials = 0 }) []
    goes_on :
        {p p' : Instances} {held held' : List Text}
        → SshReach p held
        → SshStep p held p' held'
        → SshReach p' held'

module _ (lib : Lib) (t : Text → Bool) where
  updated-AreCounted :
      (key : Text) (f : Ssh → Ssh) (o : Option Ssh) (p : Instances) (held held' : List Text)
      → AreCounted t p held
      → IsCounted (t key) (holds key held) o
      → ((s : Ssh) → Counts (t key) (holds key held) s → Counts (t key) (holds key held') (f s))
      → (holds key held ≡ 0 → held ≡ held')
      → ((j : Text) → text_eq key j ≡ false → holds j held' ≡ holds j held)
      → AreCounted t (update_ssh lib key f o p) held'
  updated-AreCounted key f none p held held' h e k z same = subst (λ l. AreCounted t p l) (z e) h
  updated-AreCounted key f (some s) p held held' h e k z same =
      inserted-AreCounted t key (f s) p held held' h (k s e) same

  holds_without :
      (j key : Text) (before later : List Text)
      → holds j (before ++ (key ∷ later))
        ≡ (if text_eq key j then suc (holds j (before ++ later)) else holds j (before ++ later))
  holds_without j key before later =
      ground (arith, holds-append j before (key ∷ later), holds-append j before later)

  length_without :
      (key : Text) (before later : List Text)
      → length (before ++ (key ∷ later)) ≡ suc (length (before ++ later))
  length_without key [] later = refl
  length_without key (b ∷ before) later = ap suc (length_without key before later)

  SshStep-AreCounted :
      {p p' : Instances} {held held' : List Text}
      → SshStep lib t p held p' held'
      → length held < 2 ^ 63
      → AreCounted t p held
      → (length held' < 2 ^ 63) × AreCounted t p' held'
  unfolding close_at keep_at check_at
  SshStep-AreCounted {p} {p'} {held} (SshStep.takes c bound e) small h =
      (omega arith, subst (IsResult t held) e (new_ssh-IsResult t lib c p held bound h))
  SshStep-AreCounted {p} {p'} {held} (SshStep.fails c bound e) small h =
      (small, subst (IsResult t held) e (new_ssh-IsResult t lib c p held bound h))
  SshStep-AreCounted {p} (SshStep.gives_back key before later) small h =
      let here : holds key (before ++ (key ∷ later)) ≡ suc (holds key (before ++ later)) =
        holds_without key key before later ∙ rw (text_eq_refl key) refl in
      let few : length (before ++ later) < 2 ^ 63 =
        omega (arith, length_without key before later) in
      (
        few,
        updated-AreCounted key (close_ssh lib) (lookup key p.ssh_ins) p (before ++ (key ∷ later))
            (before ++ later) h (h key)
            (λ s k.
              close-Counts (t key) lib (holds key (before ++ later)) s
                (omega (arith, holds_le key (before ++ later)))
                (subst (λ n. Counts (t key) n s) here k))
            (λ z. absurd (omega arith)) (λ j e. sym (holds_without j key before later ∙ rw e refl)),
      )
  SshStep-AreCounted {p} {p'} {held} (SshStep.times_out key timed) small h = (
    small,
    updated-AreCounted key (check_closes lib) (lookup key p.ssh_ins) p held held h (h key)
        (λ s k. check-Counts (t key) lib (holds key held) s timed k) (λ z. refl) (λ j e. refl),
  )
  SshStep-AreCounted {p} {p'} {held} (SshStep.reconnects key) small h = (
    small,
    updated-AreCounted key (λ s. keep_ssh lib s p.dials) (lookup key p.ssh_ins)
        (record p { dials = p.dials + 1 }) held held h (h key)
        (λ s k. keep-Counts (t key) lib p.dials (holds key held) s k) (λ z. refl) (λ j e. refl),
  )

  SshReach-AreCounted :
      {p : Instances} {held : List Text}
      → SshReach lib t p held
      → (length held < 2 ^ 63) × AreCounted t p held
  unfolding lookup
  SshReach-AreCounted SshReach.begins = (omega arith, λ key. refl)
  SshReach-AreCounted (SshReach.goes_on r s) =
      let (small, h) = SshReach-AreCounted r in SshStep-AreCounted s small h

  -- However NewSSH, Close, the checks that time out and the reconnections of the goroutines follow each
  -- other, where each reference that NewSSH has given is given back once at most and there are less than
  -- 2 ^ 63 of them: the instance of a configuration counts the references to it that are held; and while
  -- there are any, its client is not a closed one, if no check of it may time out. A configuration without an
  -- instance has no reference.
  pub holds-IsCounted :
      {p : Instances} {held : List Text}
      → SshReach lib t p held
      → (key : Text) → IsCounted (t key) (holds key held) (lookup key p.ssh_ins)
  holds-IsCounted r key = (SshReach-AreCounted r).1 key

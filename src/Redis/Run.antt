-- ===== src/Redis/Run.antt =====
-- What a command of redis/client.go comes down to, with a radix client and without one.
use hfw.Base.{
  Bool, true, false, List, ◌∷◌, ◌++◌, Option, none, some, ◌≡◌, refl, ap, subst, if◌then◌else◌,
}
use hfw.Base.Text.{Text, codes}
use hfw.Session.{Err}
use hfw.Redis.{Kind, zero_of, Radix, Client, Reply, do_action, command, add_prefix, received}

pub either : {A : Type 0} (b : Bool) (x y z : A) → x ≡ z → y ≡ z → (if b then x else y) ≡ z
either true x y z h k = h
either false x y z h k = k

module _ {R : Type 0} (radix : Radix R) where
  pub connected_command :
      (c : Client) (k : Kind) (name key : Text) (args : List Text) (r : R)
      → c.connected ≡ true
      → command radix c k name key args r ≡ radix.act k (name ∷ (c.prefix ++ key) ∷ args) r
  unfolding command do_action add_prefix
  connected_command c k name key args r h =
      ap
        (λ b.
          if b
          then radix.act k (name ∷ (c.prefix ++ key) ∷ args) r
          else (zero_of k, some (codes "redis instance not init"), r))
        h

  pub refused_command :
      (c : Client) (k : Kind) (name key : Text) (args : List Text) (r : R)
      → c.connected ≡ false
      → command radix c k name key args r ≡ (zero_of k, some (codes "redis instance not init"), r)
  unfolding command do_action
  refused_command c k name key args r h =
      ap
        (λ b.
          if b
          then radix.act k (name ∷ add_prefix radix c key ∷ args) r
          else (zero_of k, some (codes "redis instance not init"), r))
        h

  pub received_at :
      (c : Client) (x : Option Text) (err : Err) (r r' : R)
      → (received radix c (x, err, r)).0 ≡ (received radix c (x, err, r')).0
  unfolding received
  received_at c x (some err) r r' = refl
  received_at c none none r r' = refl
  received_at c (some raw) none r r' = refl

  pub received_same :
      (c : Client) (m m' : Reply (Option Text) R)
      → m.0 ≡ m'.0
      → m.1 ≡ m'.1
      → (received radix c m).0 ≡ (received radix c m').0
  received_same c (x, err, r) (x', err', r') h k =
      subst (λ y. (received radix c (x, err, r)).0 ≡ (received radix c (y, err', r')).0) h
        (subst (λ y. (received radix c (x, err, r)).0 ≡ (received radix c (x, y, r')).0) k
          (received_at c x err r r'))

  pub got :
      (c : Client) (b : Bool) (m m' : Reply (Option Text) R) (r r' : R)
      → m.0 ≡ m'.0
      → m.1 ≡ m'.1
      → (received radix c (if b then m else (none, some (codes "redis instance not init"), r))).0
        ≡ (received radix c
            (if b then m' else (none, some (codes "redis instance not init"), r'))).0
  unfolding received
  got c true m m' r r' h k = received_same c m m' h k
  got c false m m' r r' h k = refl

  pub connected_action :
      (c : Client) (k : Kind) (line : List Text) (r : R)
      → c.connected ≡ true
      → do_action radix c k line r ≡ radix.act k line r
  unfolding do_action
  connected_action c k line r h =
      ap
        (λ b.
          if b then radix.act k line r else (zero_of k, some (codes "redis instance not init"), r))
        h

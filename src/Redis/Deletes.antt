-- ===== src/Redis/Deletes.antt =====
-- What Del does to the slice of its arguments.
use hfw.Base.{false, List, [], ◌∷◌, ◌++◌, ◌≡◌, refl, sym, ap, ◌∙◌, if◌then◌else◌, append_assoc}
use hfw.Base.Text.{Text, codes}
use hfw.Base.Int.{pos}
use hfw.Redis.{number, Radix, Client, do_action, add_prefix}
use hfw.Redis.Values.{prefixed}
use hfw.Redis.Keys.{del, del_each}

module _ {R : Type 0} (radix : Radix R) where
  del_step :
      (c : Client) (keys : List Text) (r : R)
      → c.is_cluster ≡ false
      → del radix c keys r
        ≡ (do_action radix c number (codes "DEL" ∷ prefixed radix c keys) r, prefixed radix c keys)
  unfolding del
  del_step c keys r h =
      ap
        (λ b. if b then (del_each radix c keys (pos 0) r, keys) else (
          do_action radix c number (codes "DEL" ∷ prefixed radix c keys) r,
          prefixed radix c keys,
        ))
        h

  prefixed_twice :
      (c : Client) (keys : List Text)
      → prefixed radix c (prefixed radix c keys)
        ≡ prefixed radix (record c { prefix = c.prefix ++ c.prefix }) keys
  unfolding prefixed add_prefix
  prefixed_twice c [] = refl
  prefixed_twice c (key ∷ keys) = cc (append_assoc c.prefix c.prefix key, prefixed_twice c keys)

  -- Outside of a cluster Del leaves the slice of its arguments with the prefix before every key: a
  -- second Del of the same slice deletes the keys with the prefix twice.
  del_again :
      (c : Client) (keys : List Text) (r r' : R)
      → c.is_cluster ≡ false
      → (del radix c (del radix c keys r).1 r').0
        ≡ (del radix (record c { prefix = c.prefix ++ c.prefix }) keys r').0
  unfolding do_action
  del_again c keys r r' h =
      ap (λ d. d.0) (del_step c (del radix c keys r).1 r' h)
      ∙ ap (λ keys'. do_action radix c number (codes "DEL" ∷ keys') r')
          (ap (λ d. prefixed radix c d.1) (del_step c keys r h) ∙ prefixed_twice c keys)
      ∙ sym (ap (λ d. d.0) (del_step (record c { prefix = c.prefix ++ c.prefix }) keys r' h))

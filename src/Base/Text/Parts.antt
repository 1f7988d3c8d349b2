-- ===== src/Base/Text/Parts.antt =====
-- Laws of splitting and joining.
use Prim.Native.Nat.{ℕ}
use mathlib.Core.Path.{◌≡◌, refl, ap, ◌∙◌}
use mathlib.Core.Logic.{inl, inr}
use mathlib.Core.Bool.{Bool, true, false}
use mathlib.Core.List.{List, [], ◌∷◌, ◌++◌, append_assoc}
use native.Mathlib.Omega.{arith}
use hfw.Base.Tests.{◌==◌, if◌then◌else◌, Bool-cases}
use hfw.Base.Text.{Text, split, join, cons_head, last_part, init_parts}

abbrev pub has_byte : ℕ → Text → Bool
has_byte sep [] = false
has_byte sep (c ∷ s) = if c == sep then true else has_byte sep s

-- What `Sprintf("%s/%s", Join(tmp[:n-1], "/"), tmp[n-1])` writes.
abbrev pub rejoin : ℕ → List Text → Text
rejoin sep parts = join (init_parts parts) (sep ∷ []) ++ (sep ∷ last_part parts)

rejoin_two :
    (sep : ℕ) (p q : Text) (ps : List Text) → rejoin sep (p ∷ q ∷ ps) ≡ join (p ∷ q ∷ ps) (sep ∷ [])
unfolding join
rejoin_two sep p q [] = refl
rejoin_two sep p q (r ∷ ps) = simp append_assoc (ap (λ l. p ++ (sep ∷ l)) (rejoin_two sep q r ps))

join-cons_head :
    (c sep : ℕ) (p : Text) (ps : List Text)
    → join (cons_head c (p ∷ ps)) (sep ∷ []) ≡ c ∷ join (p ∷ ps) (sep ∷ [])
unfolding join
join-cons_head c sep p [] = refl
join-cons_head c sep p (q ∷ ps) = refl

split-ne-nil : (s : Text) (sep : ℕ) → (p : Text) × (ps : List Text) × (split s sep ≡ p ∷ ps)
unfolding split
split-ne-nil [] sep = ([], [], refl)
split-ne-nil (c ∷ s) sep = elim (Bool-cases (c == sep)) [
  | inl e ↦ ([], split s sep, rw e)
  | inr e ↦ let (p, ps, h) = split-ne-nil s sep in (c ∷ p, ps, rw (e, h))
]

pub join-split : (s : Text) (sep : ℕ) → join (split s sep) (sep ∷ []) ≡ s
unfolding split join
join-split [] sep = refl
join-split (c ∷ s) sep =
    let (p, ps, h) = split-ne-nil s sep in
    let ih : join (p ∷ ps) (sep ∷ []) ≡ s = rw h at (join-split s sep) in
    elim (Bool-cases (c == sep)) [
      | inl e ↦ rw (e, h) (ground (arith, ih))
      | inr e ↦ rw (e, h) (join-cons_head c sep p ps ∙ ap (λ l. c ∷ l) ih)
    ]

split_long :
    (s : Text) (sep : ℕ)
    → has_byte sep s ≡ true
    → (p q : Text) × (ps : List Text) × (split s sep ≡ p ∷ q ∷ ps)
unfolding split
split_long [] sep h = cc
split_long (c ∷ s) sep h = elim (Bool-cases (c == sep)) [
  | inl e ↦ let (p, ps, k) = split-ne-nil s sep in ([], p, ps, rw (e, k))
  | inr e ↦
      let (p, q, ps, k) = split_long s sep (rw (e, has_byte) at h) in (c ∷ p, q, ps, rw (e, k))
]

split_single : (s : Text) (sep : ℕ) → has_byte sep s ≡ false → split s sep ≡ s ∷ []
unfolding split
split_single [] sep h = refl
split_single (c ∷ s) sep h = elim (Bool-cases (c == sep)) [
  | inl e ↦ absurd (cc (rw (e, has_byte) at h))
  | inr e ↦ rw (e, split_single s sep (rw (e, has_byte) at h))
]

-- A text with a separator is spelled by its last part and the others; one without is put behind it.
pub rejoin-split : (s : Text) (sep : ℕ) → has_byte sep s ≡ true → rejoin sep (split s sep) ≡ s
rejoin-split s sep h =
    let (p, q, ps, k) = split_long s sep h in
    rw k (rejoin_two sep p q ps ∙ (rw k at (join-split s sep)))

pub rejoin-split_single :
    (s : Text) (sep : ℕ) → has_byte sep s ≡ false → rejoin sep (split s sep) ≡ sep ∷ s
unfolding join
rejoin-split_single s sep h = rw (split_single s sep h)

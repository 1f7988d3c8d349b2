-- ===== src/Base/Perms.antt =====
-- Folds over a list that do not depend on its order.
use Prim.Native.Nat.{ℕ, ◌+◌, ◌≤◌}
use mathlib.Core.Path.{◌≡◌, refl, sym, ap, ◌∙◌, subst}
use mathlib.Core.Bool.{Bool, true, false}
use mathlib.Core.List.{List, [], ◌∷◌, ◌++◌, Permᴰ}
use mathlib.Core.List.Permᴰ as Perms
use mathlib.Core.Option.{Option, none, some}
use native.Mathlib.Omega.{arith}
use hfw.Base.Lists.{All}
use hfw.Base.Tests.{if◌then◌else◌}

-- A relation that holds of a permutation if it holds of a swap of the first two, and is kept by a common
-- head and by composition.
pub perm_rec {ℓ κ} :
    {A : Type ℓ} (Q : List A → List A → Type κ)
    → Q [] []
    → ((x : A) (l l' : List A) → Q l l' → Q (x ∷ l) (x ∷ l'))
    → ((x y : A) (l : List A) → Q (x ∷ y ∷ l) (y ∷ x ∷ l))
    → ((a b c : List A) → Q a b → Q b c → Q a c)
    → {l l' : List A} → Permᴰ l l'
    → Q l l'
perm_rec Q n c s t Permᴰ.nil = n
perm_rec Q n c s t (Permᴰ.cons {a = a} {l₁ = l₁} {l₂ = l₂} e p) =
    subst (λ b. Q (a ∷ l₁) (b ∷ l₂)) e (c a l₁ l₂ (perm_rec Q n c s t p))
perm_rec Q n c s t (Permᴰ.swap {a = a} {b = b} {a' = a'} {l = l} e f) =
    subst (λ b'. Q (a ∷ b ∷ l) (a' ∷ b' ∷ l)) e (subst (λ c. Q (a ∷ b ∷ l) (c ∷ a ∷ l)) f (s a b l))
perm_rec Q n c s t (Permᴰ.trans {l₁ = a} {l₂ = b} {l₃ = d} p q) =
    t a b d (perm_rec Q n c s t p) (perm_rec Q n c s t q)

abbrev pub one {κ} : {X : Type κ} → Option X → ℕ
one none = 0
one (some x) = 1

if_swap :
    (p q r : Bool)
    → (if p then true else if q then true else r) ≡ (if q then true else if p then true else r)
if_swap true true r = refl
if_swap true false r = refl
if_swap false q r = refl

-- Two lists in front of a third, in either order.
append_swap {ℓ} : {A : Type ℓ} (a b c : List A) → Permᴰ (a ++ (b ++ c)) (b ++ (a ++ c))
append_swap [] b c = Perms.refl (b ++ c)
append_swap (x ∷ a) b c =
    Permᴰ.trans (Permᴰ.cons refl (append_swap a b c)) (Perms.symm (Perms.middle x b (a ++ c)))

module _ {ℓ} {A : Type ℓ} where
  abbrev pub any : (A → Bool) → List A → Bool
  any f [] = false
  any f (x ∷ l) = if f x then true else any f l

  abbrev pub flat {κ} : {B : Type κ} → (A → List B) → List A → List B
  flat f [] = []
  flat f (x ∷ l) = f x ++ flat f l

  -- A variable that each element may change.
  abbrev pub fold_over {κ μ} :
      {X : Type κ} {D : Type μ} → (Option X → D → D) → (A → Option X) → D → List A → D
  fold_over g f d [] = d
  fold_over g f d (x ∷ l) = fold_over g f (g (f x) d) l

  -- How many elements are answered.
  abbrev pub tally {κ} : {X : Type κ} → (A → Option X) → List A → ℕ
  tally f [] = 0
  tally f (x ∷ l) = one (f x) + tally f l

  pub All-perm {κ} : (P : A → Type κ) {l l' : List A} → Permᴰ l l' → All P l → All P l'
  All-perm P =
      perm_rec (λ l l'. All P l → All P l') (λ h. h) (λ x l l' ih h. (h.0, ih h.1))
        (λ x y l h. (h.1.0, (h.0, h.1.1))) (λ a b c f g h. g (f h))

  pub any-perm : (f : A → Bool) {l l' : List A} → Permᴰ l l' → any f l ≡ any f l'
  any-perm f =
      perm_rec (λ l l'. any f l ≡ any f l') refl (λ x l l' e. ap (λ b. if f x then true else b) e)
        (λ x y l. if_swap (f x) (f y) (any f l)) (λ a b c e e'. e ∙ e')

  pub flat-perm {κ} :
      {B : Type κ} (f : A → List B) {l l' : List A} → Permᴰ l l' → Permᴰ (flat f l) (flat f l')
  flat-perm f =
      perm_rec (λ l l'. Permᴰ (flat f l) (flat f l')) Permᴰ.nil
        (λ x l l' p. Perms.append_left (f x) p) (λ x y l. append_swap (f x) (f y) (flat f l))
        (λ a b c p q. Permᴰ.trans p q)

  pub tally-perm {κ} :
      {X : Type κ} (f : A → Option X) {l l' : List A} → Permᴰ l l' → tally f l ≡ tally f l'
  tally-perm f =
      perm_rec (λ l l'. tally f l ≡ tally f l') refl (λ x l l' e. ap (λ n. one (f x) + n) e)
        (λ x y l. omega arith) (λ a b c e e'. e ∙ e')

  module _ {κ μ} {X : Type κ} {D : Type μ} (g : Option X → D → D) (f : A → Option X) where
    -- Steps that commute.
    pub fold_over-perm :
        ((a b : Option X) (d : D) → g b (g a d) ≡ g a (g b d))
        → {l l' : List A} → Permᴰ l l'
        → (d : D) → fold_over g f d l ≡ fold_over g f d l'
    fold_over-perm commute =
        perm_rec (λ l l'. (d : D) → fold_over g f d l ≡ fold_over g f d l') (λ d. refl)
          (λ x l l' ih d. ih (g (f x) d))
          (λ x y l d. ap (λ d'. fold_over g f d' l) (commute (f x) (f y) d))
          (λ a b c e e' d. e d ∙ e' d)

    once_commute :
        ((d : D) → g none d ≡ d)
        → (a b : Option X) → one a + one b ≤ 1
        → (d : D) → g b (g a d) ≡ g a (g b d)
    once_commute idle none b h d = ap (g b) (idle d) ∙ sym (idle (g b d))
    once_commute idle (some x) none h d = idle (g (some x) d) ∙ sym (ap (g (some x)) (idle d))
    once_commute idle (some x) (some y) h d = absurd (omega arith)

    -- Steps of which at most one does something.
    pub fold_over-perm_once :
        ((d : D) → g none d ≡ d)
        → {l l' : List A} → Permᴰ l l'
        → tally f l ≤ 1
        → (d : D) → fold_over g f d l ≡ fold_over g f d l'
    fold_over-perm_once idle p h d =
        (perm_rec
            (λ l l'.
              (tally f l ≡ tally f l')
              × (tally f l ≤ 1 → (d : D) → fold_over g f d l ≡ fold_over g f d l'))
            (refl, λ h d. refl)
            (λ x l l' ih. (ap (λ n. one (f x) + n) ih.0, λ h d. ih.1 (omega arith) (g (f x) d)))
            (λ x y l. (
              omega arith,
              λ h d. ap (λ d'. fold_over g f d' l) (once_commute idle (f x) (f y) (omega arith) d),
            ))
            (λ a b c e e'. (e.0 ∙ e'.0, λ h d. e.1 h d ∙ e'.1 (rw⁻¹ e.0 h) d)) p).1
          h d

    pub fold_over-keeps {ν} :
        (P : D → Type ν)
        → ((o : Option X) (d : D) → P d → P (g o d))
        → (d : D) (l : List A) → P d
        → P (fold_over g f d l)
    fold_over-keeps P step d [] h = h
    fold_over-keeps P step d (x ∷ l) h = fold_over-keeps P step (g (f x) d) l (step (f x) d h)

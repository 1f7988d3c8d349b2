-- ===== src/Route/Actions.antt =====
-- getActionsAndMethod: the last "For" of a method's name, and the verb behind it.
use hfw.Base.{
  ℕ, zero, suc, ◌-◌, ◌≤◌, true, false, ◌&&◌, List, [], ◌∷◌, ◌++◌, ◌≡◌, refl, arith, ltb,
  if◌then◌else◌, All, Bool-cases, inl, inr, length, lt→ltb,
}
use hfw.Base.Text.{
  Text, text_eq, to_lower, has_prefix, split_at, split_text, cons_head, last_part, trim_suffix,
}
use hfw.Base.Text.Laws.{trim_suffix-append, to_lower_idem, text_eq_iff}
use hfw.Encoding.Case.{to_lower-snake}
use hfw.Route.{methods, is_one_of, for_text, spellings, get_actions_and_method}

abbrev EndsWith : Text → List Text → Type 0
EndsWith m parts = (last_part parts ≡ m) × (2 ≤ length parts)

EndsWith-cons : (m p : Text) (ps : List Text) → EndsWith m ps → EndsWith m (p ∷ ps)
EndsWith-cons m p [] (e, h) = absurd (omega arith)
EndsWith-cons m p (q ∷ ps) (e, h) = (e, omega arith)

EndsWith-cons_head :
    (m : Text) (c : ℕ) (ps : List Text) → EndsWith m ps → EndsWith m (cons_head c ps)
EndsWith-cons_head m c [] (e, h) = absurd (omega arith)
EndsWith-cons_head m c (p ∷ []) (e, h) = absurd (omega arith)
EndsWith-cons_head m c (p ∷ q ∷ ps) (e, h) = (e, omega arith)

-- An occurrence of "For" that begins inside `a` ends inside it.
prefix_inside :
    (c : ℕ) (a rest : Text)
    → has_prefix (c ∷ (a ++ (for_text ++ rest))) for_text ≡ true
    → 2 ≤ length a
unfolding has_prefix
prefix_inside c [] rest h = ground arith
prefix_inside c (d ∷ []) rest h = ground arith
prefix_inside c (d ∷ e ∷ a) rest h = omega arith

split_at_step :
    (c : ℕ) (s sep : Text)
    → split_at zero (c ∷ s) sep ≡ (
        if has_prefix (c ∷ s) sep
        then [] ∷ split_at (length sep - 1) s sep
        else cons_head c (split_at zero s sep))
unfolding split_at
split_at_step c s sep = refl

split_at_skip : (skip c : ℕ) (s sep : Text) → split_at (suc skip) (c ∷ s) sep ≡ split_at skip s sep
unfolding split_at
split_at_skip skip c s sep = refl

EndsWith-here :
    (m : Text)
    → split_at zero m for_text ≡ m ∷ []
    → EndsWith m (split_at zero (for_text ++ m) for_text)
unfolding split_at
EndsWith-here m plain = rw plain (refl, omega arith)

EndsWith-split_at :
    (m : Text)
    → split_at zero m for_text ≡ m ∷ []
    → (skip : ℕ) (a : Text) → skip ≤ length a
    → EndsWith m (split_at skip (a ++ (for_text ++ m)) for_text)
EndsWith-split_at m plain zero [] h = EndsWith-here m plain
EndsWith-split_at m plain (suc skip) [] h = absurd (omega arith)
EndsWith-split_at m plain (suc skip) (c ∷ a) h =
    rw (split_at_skip skip c (a ++ (for_text ++ m)) for_text)
      (EndsWith-split_at m plain skip a (omega arith))
EndsWith-split_at m plain zero (c ∷ a) h =
    rw (split_at_step c (a ++ (for_text ++ m)) for_text)
      (elim (Bool-cases (has_prefix (c ∷ (a ++ (for_text ++ m))) for_text)) [
        | inl e ↦
            rw e (EndsWith-cons m [] _ (EndsWith-split_at m plain 2 a (prefix_inside c a m e)))
        | inr e ↦ rw e (EndsWith-cons_head m c _ (EndsWith-split_at m plain zero a (omega arith)))
      ])

-- A property of every text of a list holds of a text that is one of them.
pub All-is_one_of {ℓ} :
    (P : Text → Type ℓ) (s : Text) (ts : List Text) → All P ts → is_one_of s ts ≡ true → P s
unfolding is_one_of
All-is_one_of P s [] _ h = absurd (cc h)
All-is_one_of P s (t ∷ ts) (p, ps) h = elim (Bool-cases (text_eq s t)) [
  | inl e ↦ rw ((text_eq_iff s t).0 e) p
  | inr e ↦ All-is_one_of P s ts ps (rw e at h)
]

pub method_plain : (m : Text) → is_one_of m methods ≡ true → split_at zero m for_text ≡ m ∷ []
method_plain m h =
    All-is_one_of (λ t. split_at zero t for_text ≡ t ∷ []) m methods
      (unfold split_at in (refl, (refl, (refl, (refl, (refl, (refl, (refl, (refl, tt))))))))) h

get_actions_cons :
    (c : ℕ) (name : Text)
    → get_actions_and_method (c ∷ name) ≡ (
        if ltb 1 (length (split_text (c ∷ name) for_text))
          && is_one_of (last_part (split_text (c ∷ name) for_text)) methods
        then (
          spellings
              (trim_suffix (c ∷ name) (for_text ++ last_part (split_text (c ∷ name) for_text))),
          last_part (split_text (c ∷ name) for_text),
          true,
        )
        else (spellings (c ∷ name), [], false))
unfolding get_actions_and_method
get_actions_cons c name = refl

get_actions_of_EndsWith :
    (c : ℕ) (name a m : Text)
    → c ∷ name ≡ a ++ (for_text ++ m)
    → EndsWith m (split_text (c ∷ name) for_text)
    → is_one_of m methods ≡ true
    → get_actions_and_method (c ∷ name) ≡ (spellings a, m, true)
get_actions_of_EndsWith c name a m shape (last, two) h =
    rw (get_actions_cons c name, last, h, lt→ltb 1 _ two)
      (rw (shape, trim_suffix-append a (for_text ++ m)))

-- A method named a ++ "For" ++ V, for an HTTP verb V, serves the action a under the verb V.
get_actions_for :
    (a m : Text)
    → is_one_of m methods ≡ true
    → get_actions_and_method (a ++ (for_text ++ m)) ≡ (spellings a, m, true)
get_actions_for [] m h =
    get_actions_of_EndsWith _ _ [] m refl
      (unfold split_text in EndsWith-split_at m (method_plain m h) zero [] (omega arith)) h
get_actions_for (c ∷ a) m h =
    get_actions_of_EndsWith c (a ++ (for_text ++ m)) (c ∷ a) m refl
      (unfold split_text in EndsWith-split_at m (method_plain m h) zero (c ∷ a) (omega arith)) h

-- Whatever the name, a verb that is reported is one of the eight.
pub get_actions_verb :
    (name : Text)
    → (get_actions_and_method name).2 ≡ true
    → is_one_of (get_actions_and_method name).1 methods ≡ true
get_actions_verb [] h = unfold get_actions_and_method in absurd (cc h)
get_actions_verb (c ∷ name) h = rw get_actions_cons (ground (arith, get_actions_cons c name))

spellings-lower : (a : Text) → All (λ s. to_lower s ≡ s) (spellings a)
unfolding spellings
spellings-lower a = ground (arith, to_lower_idem a, to_lower-snake a)

-- Every action under which a method is registered is written in lower case, as the paths that are
-- looked up are.
pub get_actions-lower : (name : Text) → All (λ s. to_lower s ≡ s) (get_actions_and_method name).0
get_actions-lower [] = unfold get_actions_and_method in tt
get_actions-lower (c ∷ name) = rw get_actions_cons (
    ground (
      arith,
      spellings-lower (c ∷ name),
      spellings-lower
          (trim_suffix (c ∷ name) (for_text ++ last_part (split_text (c ∷ name) for_text))),
    ))

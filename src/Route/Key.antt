-- ===== src/Route/Key.antt =====
-- The keys of routeMapMethod: a path, "for" and a verb, joined with no separator.
use hfw.Base.{ℕ, true, false, [], ◌∷◌, ◌++◌, ◌≡◌, ◌≢◌, sym, arith, subst, All}
use hfw.Base.Text.{Text, codes, is_lower}
use hfw.Route.{methods, is_one_of, method_key}
use hfw.Route.Actions.{All-is_one_of}

-- No lower-case letter, as in every verb of HTTP.
abbrev pub NoLower : Text → Type 0
NoLower = All (λ c. is_lower c ≡ false)

pub method-NoLower : (m : Text) → is_one_of m methods ≡ true → NoLower m
method-NoLower m h = All-is_one_of NoLower m methods (ground arith) h

not-NoLower : (p m : Text) → ¬ NoLower (method_key p m)
not-NoLower [] m (h, _) = cc h
not-NoLower (c ∷ p) m (_, h) = not-NoLower p m h

for-ne-cons : (d : ℕ) (p m m' : Text) → NoLower m → codes "for" ++ m ≢ d ∷ method_key p m'
for-ne-cons d [] m m' h e = ground arith
for-ne-cons d (x ∷ []) m m' h e = ground arith
for-ne-cons d (x ∷ y ∷ p) m m' h e =
    let tails : m ≡ method_key p m' = ground arith in not-NoLower p m' (subst NoLower tails h)

-- Where the verbs hold no lower-case letter, a key determines its path and its verb.
pub method_key_injective :
    (p p' m m' : Text)
    → NoLower m
    → NoLower m'
    → method_key p m ≡ method_key p' m'
    → (p ≡ p') × (m ≡ m')
method_key_injective [] [] m m' h h' e = ground arith
method_key_injective [] (d ∷ p') m m' h h' e = absurd (for-ne-cons d p' m m' h e)
method_key_injective (c ∷ p) [] m m' h h' e = absurd (for-ne-cons c p m' m h' (sym e))
method_key_injective (c ∷ p) (d ∷ p') m m' h h' e =
    let tails : method_key p m ≡ method_key p' m' = cc in
    let (same_p, same_m) = method_key_injective p p' m m' h h' tails in (cc, same_m)

-- ===== src/Encoding/Case.antt =====
-- What `Snake` does to the letters and the underscores of a name.
use hfw.Base.{
  ℕ, ◌+◌, Bool, true, false, [], ◌∷◌, ◌++◌, ◌≡◌, refl, ap, ◌∙◌, ◌<◌, ◌-◌, ◌≢◌, arith, ◌==◌,
  if◌then◌else◌, All,
}
use hfw.Base.Text.{Text, is_upper, is_lower, to_lower}
use hfw.Encoding.{snake, snake_from, snake_char}

snake_char-lower :
    (idx c : ℕ) (s : Text) → to_lower (snake_char idx c ++ s) ≡ snake_char idx c ++ to_lower s
unfolding snake_char to_lower
snake_char-lower idx c s = ground arith

snake_from-lower : (idx : ℕ) (name : Text) → to_lower (snake_from idx name) ≡ snake_from idx name
unfolding snake_from
snake_from-lower idx [] = unfold to_lower in refl
snake_from-lower idx (c ∷ name) =
    rw (snake_char-lower idx c (snake_from (idx + 1) name), snake_from-lower (idx + 1) name)

-- A snake spelling has no capital.
pub to_lower-snake : (name : Text) → to_lower (snake name) ≡ snake name
unfolding snake
to_lower-snake name = snake_from-lower 0 name

-- The way back: a letter behind an underscore, or the first one, is written in upper case.
abbrev pub upper : ℕ → ℕ
upper c = if is_lower c then c - 32 else c

abbrev pub camel : Bool → Text → Text
camel begin [] = []
camel true (c ∷ s) = upper c ∷ camel false s
camel false (c ∷ s) = if c == b'_' then camel true s else c ∷ camel false s

camel-snake_char :
    (idx c : ℕ) (s : Text)
    → 0 < idx
    → c ≢ b'_'
    → camel false (snake_char idx c ++ s) ≡ c ∷ camel false s
unfolding snake_char
camel-snake_char idx c s h k = ground arith

camel-snake_from :
    (idx : ℕ) (name : Text)
    → 0 < idx
    → All (λ c. c ≢ b'_') name
    → camel false (snake_from idx name) ≡ name
unfolding snake_from
camel-snake_from idx [] h k = refl
camel-snake_from idx (c ∷ name) h (k, ks) =
    camel-snake_char idx c (snake_from (idx + 1) name) h k
    ∙ ap (λ r. c ∷ r) (camel-snake_from (idx + 1) name (omega arith) ks)

-- An identifier that another package can call: it begins with a capital.
abbrev pub IsExported : Text → Type 0
IsExported [] = ⊥
IsExported (c ∷ name) = (is_upper c ≡ true) × All (λ d. d ≢ b'_') name

-- No two exported names without underscores share a snake spelling: each is read back from it.
pub camel-snake : (name : Text) → IsExported name → camel true (snake name) ≡ name
unfolding snake snake_from snake_char
camel-snake [] h = absurd h
camel-snake (c ∷ name) (h, k) = rw h (ground (arith, camel-snake_from (0 + 1) name (omega arith) k))

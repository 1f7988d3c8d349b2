-- ===== src/Encoding.antt =====
-- encoding/cased.go: the change from camel case to snake case.
pub mod Case
use hfw.Base.{ℕ, ◌+◌, [], ◌∷◌, ◌++◌, ltb, if◌then◌else◌}
use hfw.Base.Text.{Text, is_upper}

-- What one round of the loop appends; `idx` is the offset of the character.
snake_char : ℕ → ℕ → Text
snake_char idx chr =
    if is_upper chr
    then (if ltb 0 idx then b'_' ∷ (chr + 32) ∷ [] else (chr + 32) ∷ [])
    else chr ∷ []

snake_from : ℕ → Text → Text
snake_from idx [] = []
snake_from idx (chr ∷ name) = snake_char idx chr ++ snake_from (idx + 1) name

-- `Snake`
unfoldable pub snake : Text → Text
unfolding snake_from snake_char
snake name = snake_from 0 name

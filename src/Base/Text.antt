-- ===== src/Base/Text.antt =====
-- The functions of Go's package strings that the repository calls, over lists of code points. A text
-- is ASCII where letters change case.
pub mod Laws
pub mod Parts
use Prim.Native.Char.{code}
use Prim.Native.String.{String}
use Prim.Native.Nat.{ℕ, zero, suc, ◌+◌, ◌-◌}
use mathlib.Core.Bool.{Bool, true, false, ◌&&◌, ◌||◌}
use mathlib.Core.List.{List, [], ◌∷◌, ◌++◌, map, reverse}
use hfw.Base.Tests.{leb, ◌==◌, if◌then◌else◌}
use hfw.Base.Lists.{length, take}

abbrev pub Text : Type 0
Text = List ℕ

-- The code points of a literal.
abbrev pub codes : String → Text
codes String.[] = []
codes (String.◌∷◌ c s) = code c ∷ codes s

-- The built-in `==` on strings.
unfoldable pub text_eq : Text → Text → Bool
text_eq [] [] = true
text_eq [] (_ ∷ _) = false
text_eq (_ ∷ _) [] = false
text_eq (c ∷ s) (d ∷ t) = (c == d) && text_eq s t

abbrev pub is_nil : Text → Bool
is_nil [] = true
is_nil (_ ∷ _) = false

abbrev pub is_upper : ℕ → Bool
is_upper c = leb b'A' c && leb c b'Z'

abbrev pub is_lower : ℕ → Bool
is_lower c = leb b'a' c && leb c b'z'

unfoldable pub lower : ℕ → ℕ
lower c = if is_upper c then c + 32 else c

-- `strings.ToLower`
unfoldable pub to_lower : Text → Text
unfolding lower
to_lower s = map lower s

-- `strings.HasPrefix`
unfoldable pub has_prefix : Text → Text → Bool
has_prefix s [] = true
has_prefix [] (_ ∷ _) = false
has_prefix (c ∷ s) (d ∷ p) = (c == d) && has_prefix s p

-- `strings.Contains`
unfoldable pub contains : Text → Text → Bool
unfolding has_prefix
contains [] p = has_prefix [] p
contains (c ∷ s) p = has_prefix (c ∷ s) p || contains s p

-- `strings.TrimLeft` and `strings.Trim` at a cutset of one byte.
unfoldable pub trim_left : ℕ → Text → Text
trim_left cut [] = []
trim_left cut (c ∷ s) = let shorter = trim_left cut s in if c == cut then shorter else c ∷ s

unfoldable pub trim : ℕ → Text → Text
unfolding trim_left
trim cut s = reverse (trim_left cut (reverse (trim_left cut s)))

-- `strings.TrimSuffix`, `strings.HasSuffix`
unfoldable pub has_suffix : Text → Text → Bool
unfolding has_prefix
has_suffix s p = has_prefix (reverse s) (reverse p)

unfoldable pub trim_suffix : Text → Text → Text
unfolding has_suffix
trim_suffix s p = if has_suffix s p then take (length s - length p) s else s

abbrev pub cons_head : ℕ → List Text → List Text
cons_head c [] = (c ∷ []) ∷ []
cons_head c (p ∷ ps) = (c ∷ p) ∷ ps

-- `strings.Split` at a separator of one byte.
unfoldable pub split : Text → ℕ → List Text
split [] sep = [] ∷ []
split (c ∷ s) sep = let parts = split s sep in if c == sep then [] ∷ parts else cons_head c parts

-- `strings.Split` at a longer separator: `skip` bytes of the separator just found are passed over.
unfoldable pub split_at : ℕ → Text → Text → List Text
unfolding has_prefix
split_at skip [] sep = [] ∷ []
split_at (suc skip) (c ∷ s) sep = split_at skip s sep
split_at zero (c ∷ s) sep =
    let after = split_at (length sep - 1) s sep in
    let inside = split_at zero s sep in
    if has_prefix (c ∷ s) sep then [] ∷ after else cons_head c inside

unfoldable pub split_text : Text → Text → List Text
unfolding split_at
split_text s sep = split_at zero s sep

-- `strings.Join`
unfoldable pub join : List Text → Text → Text
join [] sep = []
join (p ∷ []) sep = p
join (p ∷ q ∷ ps) sep = p ++ (sep ++ join (q ∷ ps) sep)

-- `tmp[len(tmp)-1]` and `tmp[:len(tmp)-1]`
abbrev pub last_part : List Text → Text
last_part [] = []
last_part (p ∷ []) = p
last_part (p ∷ q ∷ ps) = last_part (q ∷ ps)

abbrev pub init_parts : List Text → List Text
init_parts [] = []
init_parts (p ∷ []) = []
init_parts (p ∷ q ∷ ps) = p ∷ init_parts (q ∷ ps)

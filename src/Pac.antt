-- ===== src/Pac.antt =====
-- pac/common.go and pac/pac.go: which hosts go through the proxy.
pub mod Longest
mod Tests
use hfw.Base.{
  ℕ, Bool, true, false, ◌==◌, List, [], ◌∷◌, ◌++◌, Option, none, some, if◌then◌else◌, length,
  get_or,
}
use hfw.Base.Text.{Text, codes, text_eq, split, join}
use hfw.Base.Dict.{lookup, insert}

-- The package variables `pac` and `isLoad`; in `pac` every host stands once.
pub record Pac : Type 0 where
  pub pac : List (Text × Bool)
  pub is_load : Bool

-- `Add`
unfoldable pub add : Text → Bool → Pac → Pac
add key val t = record t { pac = insert key val t.pac }

-- The loop of Check over the suffixes of the host, by its labels.
unfoldable pub check_from : List (Text × Bool) → List Text → Bool
check_from table [] = false
check_from table (label ∷ labels) = elim (lookup (join (label ∷ labels) (b'.' ∷ [])) table) [
  | some is_allow ↦ is_allow
  | none ↦ check_from table labels
]

abbrev pub labels_of : Text → List Text
labels_of addr = split (get_or (split addr b':') 0 []) b'.'

-- `Check`
unfoldable pub check : Pac → Text → Bool
unfolding check_from
check t addr = if length t.pac == 0 then false else check_from t.pac (labels_of addr)

-- The body of the loop of parsePac.
unfoldable pub parse_line : Text → Pac → Pac
unfolding add
parse_line line t = elim (split line b':') [
  | [] ↦ t
  | host ∷ rest ↦ elim rest [
    | [] ↦ t
    | flag ∷ more ↦ elim more [ [] ↦ add host (text_eq flag (codes "1")) t | _ ∷ _ ↦ t ]
  ]
]

unfoldable pub parse_lines : List Text → Pac → Pac
unfolding parse_line
parse_lines [] t = t
parse_lines (line ∷ lines) t = parse_lines lines (parse_line line t)

-- `parsePac`
unfoldable pub parse_pac : Text → Pac → Pac
unfolding parse_lines
parse_pac body t = parse_lines (split body 10) t

-- What updatePacFile writes of `pac`, in the order in which the map is read.
unfoldable pub pac_file : List (Text × Bool) → Text
pac_file [] = []
pac_file ((host, true) ∷ table) = host ++ (codes ":1" ++ (10 ∷ pac_file table))
pac_file ((host, false) ∷ table) = host ++ (codes ":0" ++ (10 ∷ pac_file table))

-- `LoadDefault`: the first call loads, by `load`, which stands for LoadFromPac.
unfoldable pub load_default : (Pac → Option Text × Pac) → Pac → Option Text × Pac
load_default load t = if t.is_load then (none, t) else load (record t { is_load = true })

-- `Reset`
unfoldable pub reset : (Pac → Option Text × Pac) → Pac → Option Text × Pac
unfolding load_default
reset load t = load_default load (record { pac = []; is_load = false })

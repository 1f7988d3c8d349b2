-- ===== src/Pac/Tests.antt =====
-- A table with a domain and one of its hosts.
use hfw.Base.{ℕ, ◌<◌, true, false, [], ◌∷◌, none, ◌≡◌, refl, ◌⊎◌, length}
use hfw.Base.Text.{codes, text_eq, split, join}
use hfw.Base.Dict.{lookup, insert}
use hfw.Pac.{Pac, check, check_from, labels_of, parse_pac, parse_lines, parse_line, add, pac_file}
use hfw.Pac.Longest.{IsLongest, entry_at, check-IsLongest}

pac_steps : Unit {0}
unfolding check check_from lookup insert text_eq split join parse_pac parse_lines parse_line add
    pac_file
pac_steps = tt

abbrev table : Pac
table = record {
  pac = (codes "example.com", true) ∷ (codes "cdn.example.com", false) ∷ [];
  is_load = true;
}

check_host : check table (codes "www.example.com:443") ≡ true
unfolding pac_steps
check_host = refl

check_cdn : check table (codes "a.cdn.example.com") ≡ false
unfolding pac_steps
check_cdn = refl

-- The file that is written of the table is read back as the table.
read_back : parse_pac (pac_file table.pac) (record { pac = []; is_load = true }) ≡ table
unfolding pac_steps
read_back = refl

check-IsLongest_example :
    ((i : ℕ) × IsLongest table.pac
        (labels_of (codes "www.example.com:443"))
        i
        (check table (codes "www.example.com:443")))
    ⊎ ((check table (codes "www.example.com:443") ≡ false)
        × ((i : ℕ)
            → i < length (labels_of (codes "www.example.com:443"))
            → entry_at table.pac (labels_of (codes "www.example.com:443")) i ≡ none))
check-IsLongest_example = check-IsLongest table (codes "www.example.com:443")

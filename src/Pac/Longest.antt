-- ===== src/Pac/Longest.antt =====
-- Check, and its description by the longest suffix of the host.
use hfw.Base.{
  ℕ, zero, suc, ◌<◌, ◌==◌, Bool, true, false, List, [], ◌∷◌, Option, none, some, ◌≡◌, refl, sym, ap,
  subst, arith, ◌⊎◌, inl, inr, Option-cases, Bool-cases, if◌then◌else◌, length, drop,
}
use hfw.Base.Text.{Text, join}
use hfw.Base.Dict.{lookup}
use hfw.Pac.{Pac, check_from, check, labels_of}

-- The entry of the host from its i-th label on.
abbrev pub entry_at : List (Text × Bool) → List Text → ℕ → Option Bool
entry_at table labels i = lookup (join (drop i labels) (b'.' ∷ [])) table

-- The suffix from the i-th label on is the longest that has an entry.
pub record IsLongest (table : List (Text × Bool)) (labels : List Text) (i : ℕ) (val : Bool)
    : Type 0 where
  pub within : i < length labels
  pub entry : entry_at table labels i ≡ some val
  pub longer : (j : ℕ) → j < i → entry_at table labels j ≡ none

next-IsLongest :
    (table : List (Text × Bool)) (label : Text) (labels : List Text) (i : ℕ) (val : Bool)
    → entry_at table (label ∷ labels) 0 ≡ none
    → IsLongest table labels i val
    → IsLongest table (label ∷ labels) (suc i) val
next-IsLongest table label labels i val h l = record {
  within = omega (arith, l.within);
  entry = l.entry;
  longer = longer;
}
  where
    longer : (j : ℕ) → j < suc i → entry_at table (label ∷ labels) j ≡ none
    longer zero k = h
    longer (suc j) k = l.longer j (omega (arith, k))

-- Either no suffix has an entry, or the longest that has one decides.
Decided : List (Text × Bool) → List Text → Bool → Type 0
Decided table labels val =
    ((i : ℕ) × IsLongest table labels i val)
    ⊎ ((val ≡ false) × ((i : ℕ) → i < length labels → entry_at table labels i ≡ none))

check_from-Decided :
    (table : List (Text × Bool)) (labels : List Text)
    → Decided table labels (check_from table labels)
unfolding check_from Decided
check_from-Decided table [] = inr (refl, λ i h. absurd (omega (arith, h)))
check_from-Decided table (label ∷ labels) =
    elim (Option-cases (entry_at table (label ∷ labels) 0)) [
      | inl missing ↦
          subst (Decided table (label ∷ labels)) (sym (step_none missing))
            (elim (check_from-Decided table labels) [
              | inl (i, l) ↦ inl (suc i, next-IsLongest table label labels i _ missing l)
              | inr (val, all) ↦ inr (val, none_at missing all)
            ])
      | inr (val, found) ↦ subst (Decided table (label ∷ labels)) (sym (step_some val found)) (
          inl (
            0,
            record {
              within = omega arith;
              entry = found;
              longer = λ j h. absurd (omega (arith, h));
            },
          ))
    ]
  where
    step_none :
        entry_at table (label ∷ labels) 0 ≡ none
        → check_from table (label ∷ labels) ≡ check_from table labels
    step_none e = rw (e, check_from) refl

    step_some :
        (val : Bool)
        → entry_at table (label ∷ labels) 0 ≡ some val
        → check_from table (label ∷ labels) ≡ val
    step_some val e = rw (e, check_from) refl

    none_at :
        entry_at table (label ∷ labels) 0 ≡ none
        → ((i : ℕ) → i < length labels → entry_at table labels i ≡ none)
        → (i : ℕ) → i < length (label ∷ labels)
        → entry_at table (label ∷ labels) i ≡ none
    none_at e all zero h = e
    none_at e all (suc i) h = all i (omega (arith, h))

empty_table :
    (table : List (Text × Bool)) (labels : List Text) (i : ℕ)
    → (length table == 0) ≡ true
    → entry_at table labels i ≡ none
unfolding lookup
empty_table [] labels i h = refl
empty_table (x ∷ table) labels i h = ground arith

-- What Check says of an address is the entry of the longest suffix of its host, cut between labels,
-- that has one, and false if none has.
pub check-IsLongest :
    (t : Pac) (addr : Text)
    → ((i : ℕ) × IsLongest t.pac (labels_of addr) i (check t addr))
      ⊎ ((check t addr ≡ false)
          × ((i : ℕ) → i < length (labels_of addr) → entry_at t.pac (labels_of addr) i ≡ none))
unfolding check Decided
check-IsLongest t addr = elim (Bool-cases (length t.pac == 0)) [
  | inl e ↦ inr (
    ap (λ b. if b then false else check_from t.pac (labels_of addr)) e,
    λ i h. empty_table t.pac _ i e,
  )
  | inr e ↦
      subst (Decided t.pac (labels_of addr))
        (sym (ap (λ b. if b then false else check_from t.pac (labels_of addr)) e))
        (check_from-Decided t.pac (labels_of addr))
]

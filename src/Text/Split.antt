-- ===== src/Text/Split.antt =====
-- strings.Fields, strings.Split and strings.Cut at a byte, and strings.Contains.
use ngd_ngg_scheduling.Base.{
  ℕ, zero, suc, Bool, ◌||◌, List, [], ◌∷◌, reverse, Option, none, some, nat_eq, if◌then◌else◌,
}
use ngd_ngg_scheduling.Text.{Text, has_prefix, is_empty, space_at}

abbrev flush : Text → List Text → List Text
flush word rest = if is_empty word then rest else reverse word ∷ rest

-- The words of a text behind `k` bytes to drop, where `word` holds the current one backwards.
unfoldable pub fields_from : ℕ → Text → Text → List Text
unfolding space_at
fields_from k word [] = flush word []
fields_from (suc k) word (b ∷ s) = fields_from k word s
fields_from zero word (b ∷ s) = elim (space_at (b ∷ s)) [
  | none ↦ fields_from 0 (b ∷ word) s
  | some k ↦ flush word (fields_from k [] s)
]

-- strings.Fields
unfoldable pub fields : Text → List Text
unfolding fields_from
fields s = fields_from 0 [] s

abbrev extend : ℕ → List Text → List Text
extend b [] = (b ∷ []) ∷ []
extend b (line ∷ lines) = (b ∷ line) ∷ lines

-- strings.Split at one byte
unfoldable pub split : ℕ → Text → List Text
split at [] = [] ∷ []
split at (b ∷ s) = let rest = split at s in if nat_eq b at then [] ∷ rest else extend b rest

-- strings.Cut at a byte; `none`: it is not there.
unfoldable pub cut : ℕ → Text → Option (Text × Text)
cut b [] = none
cut b (x ∷ s) =
    let rest = cut b s in
    if nat_eq x b then some ([], s) else elim rest [ none ↦ none | some (p, q) ↦ some (x ∷ p, q) ]

-- strings.Contains
unfoldable pub contains_text : Text → Text → Bool
unfolding has_prefix
contains_text [] sub = has_prefix [] sub
contains_text (b ∷ s) sub = has_prefix (b ∷ s) sub || contains_text s sub

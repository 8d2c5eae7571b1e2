-- ===== src/Sets.antt =====
-- Sets of strings as the program builds them: a map with the strings as keys, listed and sorted.
-- prc/pkg/controller/snapshot.go canonicalStrings, algorithm_server/go/topology/helpers.go
-- uniqueSorted and equalSet, and the end of staticNodeLeafIDs, nodeLeafIDs and LeafSetID have this
-- shape. A map is a list without repetition here; sort.Strings is an insertion sort.
pub mod Sorting
pub mod Insertion
pub mod Canonical
use ngd_ngg_scheduling.Base.{Bool, true, false, ◌||◌, List, [], ◌∷◌, ◌==◌, if◌then◌else◌, list_Eq}
use ngd_ngg_scheduling.Text.{Text, text_lt, is_empty, trim_space, text_Eq}

-- `_, ok := set[v]`
unfoldable pub has_text : Text → List Text → Bool
has_text v [] = false
has_text v (x ∷ xs) = (v == x) || has_text v xs

-- `set[v] = struct{}{}`
unfoldable pub add_text : Text → List Text → List Text
unfolding has_text
add_text v set = if has_text v set then set else v ∷ set

-- The loop that trims each value and keeps what is not empty.
unfoldable pub trimmed_set : List Text → List Text
unfolding add_text
trimmed_set [] = []
trimmed_set (x ∷ xs) =
    let rest = trimmed_set xs in
    let v = trim_space x in if is_empty v then rest else add_text v rest

unfoldable pub place : Text → List Text → List Text
place x [] = x ∷ []
place x (y ∷ ys) = if text_lt y x then y ∷ place x ys else x ∷ y ∷ ys

-- sort.Strings
unfoldable pub sort_strings : List Text → List Text
unfolding place
sort_strings [] = []
sort_strings (x ∷ xs) = place x (sort_strings xs)

unfoldable pub unique_sorted : List Text → List Text
unfolding trimmed_set sort_strings
unique_sorted values = sort_strings (trimmed_set values)

unfoldable pub equal_set : List Text → List Text → Bool
equal_set left right = (list_Eq ⦃e = text_Eq⦄).beq (unique_sorted left) (unique_sorted right)

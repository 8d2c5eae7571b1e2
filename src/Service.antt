-- ===== src/Service.antt =====
-- algorithm_server/go/algorithm/service.go ignoredNGDWarnings: the fields of a demand that are kept
-- and not evaluated.
pub mod Usage
pub mod Reported
pub mod Allocation
use ngd_ngg_scheduling.Base.{
  Bool, true, false, ◌&&◌, List, [], ◌∷◌, none, some, if◌then◌else◌, ◌==◌,
}
use ngd_ngg_scheduling.Text.{Text, text_Eq, lit, is_empty}
use ngd_ngg_scheduling.Json.{Json, object, array, Fields, end, nil, member, as_object}
use ngd_ngg_scheduling.StaticCache.{Encoding, printed}

abbrev pub ignored_fields : List Text
ignored_fields =
    lit "minThroughput"
    ∷ lit "crossClusterAffinity"
    ∷ lit "intraClusterAffinity"
    ∷ lit "networkReachability"
    ∷ lit "preferredSubnet"
    ∷ []

-- `object, ok := value.(map[string]any); !ok || len(object) == 0`
abbrev pub no_object : Json → Bool
no_object (object end) = true
no_object (object _) = false
no_object _ = true

-- `items, ok := value.([]any); !ok || len(items) == 0`
abbrev pub no_array : Json → Bool
no_array (array nil) = true
no_array (array _) = false
no_array _ = true

module _ (E : Encoding) where
  -- The field has no warning: a value that is nil prints as the empty string.
  unfoldable pub is_left_out : Json → Bool
  unfolding printed
  is_left_out value = is_empty (printed E value) && (no_object value && no_array value)

  -- The fields that have a warning, in their order.
  unfoldable pub warned_fields : Fields → List Text → List Text
  unfolding is_left_out member
  warned_fields ngd [] = []
  warned_fields ngd (name ∷ rest) =
      let others = warned_fields ngd rest in
      if is_left_out (member name ngd) then others else name ∷ others

  unfoldable pub ignored_ngd_warnings : Fields → List Text
  unfolding warned_fields printed member as_object
  ignored_ngd_warnings request =
      if printed E (member (lit "requestMode") request) == lit "resourcePool"
      then elim (as_object (member (lit "ngd") request)) [
        | none ↦ []
        | some ngd ↦ warned_fields ngd ignored_fields
      ]
      else []

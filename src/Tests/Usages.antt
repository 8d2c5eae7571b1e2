-- ===== src/Tests/Usages.antt =====
-- The usage states of requests for two Nodes.
use ngd_ngg_scheduling.Base.{
  ◌≡◌, refl, true, [], ◌∷◌, Option, none, some, err, All, contains, lookup, insert, list_eq, ℤ, pos,
}
use ngd_ngg_scheduling.Text.{Text, text_Eq, lit, space_at, space_back, trim_front, trim_space}
use ngd_ngg_scheduling.Json.{
  Json, bool, text, array, object, nil, cons, Fields, end, field, member, has_member, as_object,
  as_array, as_bool, elements,
}
use ngd_ngg_scheduling.StaticCache.{Encoding, printed}
use ngd_ngg_scheduling.Service.Usage.{
  UsageState, duplicate_entry, parse_quantity_value, full_from, resources_full, read_states,
  states_by_uid, derived_state, derived_states, normalize_usage_states,
}
use ngd_ngg_scheduling.Service.Reported.{Distinct, normalize_usage_states_uids}

program : Unit {0}
unfolding list_eq lookup insert contains space_at space_back trim_front trim_space member has_member
    as_object as_array as_bool elements printed parse_quantity_value full_from resources_full
    read_states states_by_uid derived_state derived_states normalize_usage_states
program = tt

abbrev no_digest : Encoding
no_digest = record { digest = λ v. []; print = λ v. [] }

-- Every quantity is one.
abbrev one : Text → Text → Option ℤ
one raw name = some (pos 1)

abbrev node : Text → Fields
node uid =
    field (lit "nodeUID") (text uid)
      (field (lit "allocatable") (object (field (lit "cpu") (text (lit "1")) end)) end)

abbrev entry : Text → Json
entry uid = object (field (lit "nodeUID") (text uid) (field (lit "inUse") (bool true) end))

abbrev usage_request : Fields
usage_request =
    field (lit "nodeUsageStates") (array (cons (entry (lit "i2")) (cons (entry (lit "i1")) nil)))
      end

abbrev used : Text → UsageState
used uid = record { node_uid = uid; in_use = true; requested_resources = none }

-- A Node that stands twice is refused, and a full Node is in use.
refused_and_full :
    (normalize_usage_states no_digest one
        (field
          (lit "nodeUsageStates")
          (array (cons (entry (lit "i1")) (cons (entry (lit "i1")) nil)))
          end)
        (node (lit "i1") ∷ [])
      ≡ err (duplicate_entry (lit "i1")))
    × (resources_full no_digest one
          (object (field (lit "cpu") (text (lit "1")) end))
          (object (field (lit "cpu") (text (lit "1")) end))
        ≡ true)
unfolding program
refused_and_full = (refl, refl)

normalize_usage_states_uids_example :
    All
      (λ (s : UsageState). contains s.node_uid (lit "i1" ∷ lit "i2" ∷ []) ≡ true)
      (used (lit "i2") ∷ used (lit "i1") ∷ [])
    × (has_member (lit "nodeUsageStates") usage_request ≡ true
        → Distinct (used (lit "i2") ∷ used (lit "i1") ∷ []))
unfolding program
normalize_usage_states_uids_example =
    normalize_usage_states_uids no_digest one usage_request (node (lit "i1") ∷ node (lit "i2") ∷ [])
      (used (lit "i2") ∷ used (lit "i1") ∷ []) refl

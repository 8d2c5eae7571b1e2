-- ===== src/Service/Usage.antt =====
-- algorithm_server/go/algorithm/service.go normalizeUsageStates and resourcesFull, and
-- parseQuantityValue of algorithm_server/go/algorithm/quantity.go: which Nodes are in use, as the
-- request says or as its schedulerState lets the server derive.
-- resource.ParseQuantity of k8s.io/apimachinery, with MilliValue for cpu and Value for the rest, is a
-- parameter.
use ngd_ngg_scheduling.Base.{
  Bool, true, false, not, ◌||◌, List, [], ◌∷◌, map, Option, none, some, if◌then◌else◌, lookup,
  insert, contains, Result, ok, err, ◌>>=◌, ◌>>◌, reject_if, ℤ, pos, ltb_ℤ,
}
use ngd_ngg_scheduling.Text.{Text, text_Eq, lit, is_empty, trim_space}
use ngd_ngg_scheduling.Json.{
  Json, Fields, end, field, member, has_member, as_object, as_array, as_bool, elements,
}
use ngd_ngg_scheduling.StaticCache.{Encoding, printed}

-- A normalized entry of nodeUsageStates.
pub record UsageState : Type 0 where
  pub node_uid : Text
  pub in_use : Bool
  pub requested_resources : Option Fields

pub data UsageError : Type 0 where
  not_array malformed_entry : UsageError
  unknown_uid duplicate_entry not_boolean : Text → UsageError

-- `value, _ := raw.(bool)`
abbrev pub or_false : Option Bool → Bool
or_false none = false
or_false (some b) = b

module _ (E : Encoding) (parse_quantity : Text → Text → Option ℤ) where
  -- parseQuantityValue
  unfoldable pub parse_quantity_value : Text → Text → Option ℤ
  parse_quantity_value raw name =
      if is_empty (trim_space raw) then some (pos 0) else parse_quantity raw name

  -- `err != nil || consumed < limit`
  abbrev pub is_below : ℤ → Option ℤ → Bool
  is_below limit none = true
  is_below limit (some consumed) = ltb_ℤ consumed limit

  -- The loop of resourcesFull over the capacity; the flag is hasPositive.
  unfoldable pub full_from : Fields → Bool → Fields → Bool
  full_from used positive end = positive
  full_from used positive (field name raw rest) = elim (parse_quantity_value (printed E raw) name) [
    | none ↦ full_from used positive rest
    | some limit ↦
        if not (ltb_ℤ (pos 0) limit)
        then full_from used positive rest
        else if is_below limit (parse_quantity_value (printed E (member name used)) name)
        then false
        else full_from used true rest
  ]

  -- resourcesFull
  unfoldable pub resources_full : Json → Json → Bool
  resources_full allocatable requested = elim (as_object allocatable) [
    | none ↦ false
    | some capacity ↦ elim (as_object requested) [
      | none ↦ false
      | some used ↦ full_from used false capacity
    ]
  ]

  abbrev pub uid_of : Fields → Text
  uid_of node = printed E (member (lit "nodeUID") node)

  -- The loop over nodeUsageStates, with the known and the seen UIDs.
  unfoldable pub read_states :
      List Text → List Text → List Json → Result UsageError (List UsageState)
  read_states known seen [] = ok []
  read_states known seen (raw ∷ rest) = elim (as_object raw) [
    | none ↦ err malformed_entry
    | some item ↦
        let uid = uid_of item in
        reject_if (not (contains uid known)) (unknown_uid uid)
        >> reject_if (contains uid seen) (duplicate_entry uid)
        >> elim (as_bool (member (lit "inUse") item)) [
          | none ↦ err (not_boolean uid)
          | some in_use ↦ read_states known (uid ∷ seen) rest >>= λ later. ok (
              record {
                node_uid = uid;
                in_use = in_use;
                requested_resources = as_object (member (lit "requestedResources") item);
              }
              ∷ later)
        ]
  ]

  -- stateByUID from schedulerState; the last entry of a UID counts.
  unfoldable pub states_by_uid : List Json → List (Text × Fields) → List (Text × Fields)
  states_by_uid [] states = states
  states_by_uid (raw ∷ rest) states =
      states_by_uid rest
        (elim (as_object raw) [ none ↦ states | some item ↦ insert (uid_of item) item states ])

  -- The state of a Node from its entry in schedulerState: in use where there is none.
  unfoldable pub derived_state : Fields → Option Fields → UsageState
  derived_state node none = record {
    node_uid = uid_of node;
    in_use = true;
    requested_resources = none;
  }
  derived_state node (some state) = record {
    node_uid = uid_of node;
    in_use =
        not (or_false (as_bool (member (lit "ready") state)))
        || (or_false (as_bool (member (lit "unschedulable") state))
            || resources_full (member (lit "allocatable") node)
                (member (lit "requestedResources") state));
    requested_resources = as_object (member (lit "requestedResources") state);
  }

  abbrev pub listed : Json → List Json
  listed value = elim (as_array value) [ none ↦ [] | some items ↦ elements items ]

  -- The compatible branch.
  unfoldable pub derived_states : List (Text × Fields) → List Fields → List UsageState
  derived_states states [] = []
  derived_states states (node ∷ rest) =
      derived_state node (lookup (uid_of node) states) ∷ derived_states states rest

  -- normalizeUsageStates
  unfoldable pub normalize_usage_states : Fields → List Fields → Result UsageError (List UsageState)
  normalize_usage_states request nodes =
      if has_member (lit "nodeUsageStates") request
      then elim (as_array (member (lit "nodeUsageStates") request)) [
        | none ↦ err not_array
        | some items ↦ read_states (map uid_of nodes) [] (elements items)
      ]
      else ok
          (derived_states (states_by_uid (listed (member (lit "schedulerState") request)) []) nodes)

-- ===== src/Quantity.antt =====
-- algorithm_server/go/algorithm/quantity.go: the quantities of a request and of the Nodes as decimal
-- base units for the worker, and the texts that are made of its answers.
-- resource.ParseQuantity of k8s.io/apimachinery, with MilliValue for cpu and Value for the rest, is a
-- parameter. The messages of errors are left out; a map is an association list in some order.
pub mod Units
pub mod Computed
pub mod Decimals
pub mod Printed
use ngd_ngg_scheduling.Base.{
  ℕ, ◌/◌, Bool, true, false, not, ◌&&◌, ◌||◌, List, [], ◌∷◌, ◌++◌, map, Option, none, some,
  if◌then◌else◌, ◌==◌, Result, ok, err, ◌>>=◌, ◌>>◌, reject_if, ℤ, pos, negsuc, ltb_ℤ,
}
use ngd_ngg_scheduling.Text.{Text, text_Eq, lit, is_empty, trim_space}
use ngd_ngg_scheduling.Text.Decimal.{format_int, parse_int}
use ngd_ngg_scheduling.Json.{
  Json, null, text, array, object, Items, nil, cons, Fields, end, field, member, has_member,
  set_member, as_object, as_array, elements,
}
use ngd_ngg_scheduling.StaticCache.{Encoding, printed}
use ngd_ngg_scheduling.Service.Usage.{parse_quantity_value}
use ngd_ngg_scheduling.Worker.{ApiError, format_uint}

abbrev pub bytes_per_mi : ℕ
bytes_per_mi = 1048576

-- An apiError of a request that is not to be tried again.
abbrev pub rejected : Text → ℕ → ApiError
rejected code status = record { request_id = []; code = code; retryable = false; status = status }

abbrev pub invalid_request : ApiError
invalid_request = rejected (lit "INVALID_REQUEST") 400

abbrev pub invalid_quantity : ApiError
invalid_quantity = rejected (lit "INVALID_RESOURCE_QUANTITY") 400

abbrev pub minimum_exceeds_quota : ApiError
minimum_exceeds_quota = rejected (lit "MIN_RESOURCES_EXCEEDS_QUOTA") 422

abbrev pub protocol_error : ApiError
protocol_error = record {
  request_id = [];
  code = lit "ALGORITHM_WORKER_PROTOCOL_ERROR";
  retryable = true;
  status = 500;
}

-- `err.RequestID = …`
unfoldable pub of_request : {A : Type 0} → Text → Result ApiError A → Result ApiError A
of_request id (ok a) = ok a
of_request id (err e) = err (record e { request_id = id })

-- A slice of objects as a JSON array.
unfoldable pub object_items : List Fields → Items
object_items [] = nil
object_items (f ∷ rest) = cons (object f) (object_items rest)

-- The loop of resourceStateMaps.
unfoldable pub all_objects : Items → Option (List Fields)
all_objects nil = some []
all_objects (cons v rest) = elim (as_object v) [
  | none ↦ none
  | some state ↦ elim (all_objects rest) [ none ↦ none | some states ↦ some (state ∷ states) ]
]

-- resourceStateMaps
unfoldable pub resource_state_maps : Json → Option (List Fields)
resource_state_maps (array items) = all_objects items
resource_state_maps _ = none

module _ (E : Encoding) (parse_quantity : Text → Text → Option ℤ) where
  -- What the loop of normalizeResourceMap makes of a parsed value.
  unfoldable pub base_units : Option ℤ → Result ApiError Text
  base_units none = err invalid_quantity
  base_units (some (negsuc n)) = err invalid_quantity
  base_units (some (pos n)) = ok (format_int (pos n))

  -- The loop of normalizeResourceMap.
  unfoldable pub normalize_values : Fields → Result ApiError Fields
  normalize_values end = ok end
  normalize_values (field name raw rest) =
      base_units (parse_quantity_value E parse_quantity (trim_space (printed E raw)) name)
      >>= λ units. normalize_values rest >>= λ others. ok (field name (text units) others)

  -- normalizeResourceMap
  unfoldable pub normalize_resource_map : Json → Result ApiError Fields
  normalize_resource_map null = ok end
  normalize_resource_map (object values) = normalize_values values
  normalize_resource_map _ = err invalid_quantity

  -- The loop over the minimum of normalizeWorkerResources.
  unfoldable pub check_minimum : Fields → Fields → Result ApiError (Unit {0})
  check_minimum quota end = ok tt
  check_minimum quota (field name minimum rest) =
      let value = (parse_int (printed E minimum)).0 in
      let limit = (parse_int (printed E (member name quota))).0 in
      reject_if (has_member name quota && ltb_ℤ limit value) minimum_exceeds_quota
      >> check_minimum quota rest

  -- The loops over the states and over the Nodes: each gets the normalized values of one of its
  -- fields as another field.
  unfoldable pub normalize_items : Text → Text → List Fields → Result ApiError (List Fields)
  normalize_items source target [] = ok []
  normalize_items source target (item ∷ rest) =
      normalize_resource_map (member source item) >>= λ values.
      normalize_items source target rest >>= λ others.
      ok (set_member target (object values) item ∷ others)

  abbrev pub resource_sets : Fields → Fields → Fields
  resource_sets minimum quota =
      field (lit "minResources") (object minimum) (field (lit "quota") (object quota) end)

  -- The two resource sets of a demand, checked.
  unfoldable pub normalize_demand : Fields → Result ApiError Fields
  normalize_demand ngd = normalize_resource_map (member (lit "minResources") ngd) >>= λ minimum.
      normalize_resource_map (member (lit "quota") ngd) >>= λ quota.
      check_minimum quota minimum >> ok (resource_sets minimum quota)

  abbrev pub object_or_invalid : Option Fields → Result ApiError Fields
  object_or_invalid none = err invalid_request
  object_or_invalid (some fields) = ok fields

  abbrev pub objects_or_invalid : Option (List Fields) → Result ApiError (List Fields)
  objects_or_invalid none = err invalid_request
  objects_or_invalid (some states) = ok states

  -- normalizeWorkerResources: the request and the Nodes of the snapshot.
  unfoldable pub normalize_worker_resources :
      Fields → List Fields → Result ApiError (Fields × List Fields)
  normalize_worker_resources request nodes =
      of_request (printed E (member (lit "requestId") request)) (
        object_or_invalid (as_object (member (lit "ngd") request)) >>= λ ngd.
        normalize_demand ngd >>= λ sets.
        objects_or_invalid (resource_state_maps (member (lit "nodeUsageStates") request))
        >>= λ states.
            normalize_items (lit "requestedResources") (lit "normalizedRequestedResources") states
            >>= λ normalized_states.
                normalize_items (lit "allocatable") (lit "normalizedAllocatableResources") nodes
                >>= λ normalized_nodes. ok (
                  set_member (lit "nodeUsageStates") (array (object_items normalized_states)) (
                      set_member (lit "ngd")
                        (object (set_member (lit "normalizedResources") (object sets) ngd))
                        request),
                  normalized_nodes,
                ))

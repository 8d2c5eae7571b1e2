-- ===== src/Tests/Allocations.antt =====
-- A run of the allocation of the Algorithm server for one Node, and its quantities.
use ngd_ngg_scheduling.Base.{
  ℕ, ◌≡◌, refl, true, false, List, [], ◌∷◌, Option, none, some, Result, ok, err, list_eq, lookup,
  insert, contains, length, ltb, nat_eq, ℤ, pos, arith, reject_if, ◌>>◌,
}
use ngd_ngg_scheduling.Text.{
  Text, text_Eq, text_lt, has_prefix, lit, space_at, space_back, trim_front, trim_space,
}
use ngd_ngg_scheduling.Text.Decimal.{format_int, digits_value, signed, parse_int}
use ngd_ngg_scheduling.Json.{
  Json, number, text, array, object, cons, nil, Fields, end, field, member, has_member, set_member,
  delete_member, elements, text_items, as_object, as_array, as_bool,
}
use ngd_ngg_scheduling.Sets.{has_text, add_text, trimmed_set, place, sort_strings, unique_sorted}
use ngd_ngg_scheduling.StaticCache.{
  Encoding, CachedSnapshot, get, printed, listed_leaves, single_leaf, static_node_leaf_ids,
}
use ngd_ngg_scheduling.Topology.{
  ResolvedLeaf, TopologyCache, required_same, mode_layered, read_labels, resolve_scope,
  resolve_domain, resolve_uplink, resolve_compatible_uplink, value_fits, leaf_matches,
  has_matching_leaf, resolve_upper, resolve_requested, resolve_labels, resolve_demand_labels,
  find_leaves, check_shared, shared_leaf, resolve_node, sort_out, resolve_nodes,
}
use ngd_ngg_scheduling.Service.{is_left_out, warned_fields, ignored_ngd_warnings}
use ngd_ngg_scheduling.Service.Usage.{
  parse_quantity_value, full_from, resources_full, read_states, states_by_uid, derived_state,
  derived_states, normalize_usage_states,
}
use ngd_ngg_scheduling.Worker.{ApiError, digits, format_uint}
use ngd_ngg_scheduling.Quantity.{
  of_request, object_items, all_objects, resource_state_maps, base_units, normalize_values,
  normalize_resource_map, check_minimum, normalize_items, normalize_demand,
  normalize_worker_resources, minimum_exceeds_quota,
}
use ngd_ngg_scheduling.Quantity.Units.{IsInt64}
use ngd_ngg_scheduling.Quantity.Decimals.{
  IsForWorker, KeepsOthers, normalize_worker_resources-IsForWorker,
}
use ngd_ngg_scheduling.Quantity.Computed.{IsComputed}
use ngd_ngg_scheduling.Quantity.Printed.{
  format_memory_mi, names_of, joined, resource_part, format_resource_set, failure_message,
  format_worker_failure, printed_resources, format_node, format_nodes, format_group,
  format_candidate_resources,
}
use ngd_ngg_scheduling.Metrics.{Floats, configured_definitions, enabled, resolve, disabled}
use ngd_ngg_scheduling.Metrics.Binding.{bind_metric_snapshot_to_nodes}
use ngd_ngg_scheduling.Response.{
  Float64, AlgorithmResponse, CandidateGroup, SchedulerNodeState, Expected, too_many_groups,
  check_groups, known_nodes, validate_response,
}
use ngd_ngg_scheduling.Service.Allocation.{
  metric_warning, node_topology, node_fields, state_fields, with_constraints, WorkerPayload,
  WorkerResult, AllocationService, AllocationResponse,
}
use ngd_ngg_scheduling.Service.Allocation.Run.{
  check_required, constrained_request, payload_of, prepare, respond, allocate,
}
use ngd_ngg_scheduling.Service.Allocation.Asked.{AreMeant, prepare-AreMeant}
use ngd_ngg_scheduling.Service.Allocation.Accepted.{allocate-validate_response}

program : Unit {0}
unfolding list_eq lookup insert contains text_lt has_prefix space_at space_back trim_front
    trim_space format_int digits_value signed parse_int member has_member set_member delete_member
    elements text_items as_object as_array as_bool has_text add_text trimmed_set place sort_strings
    unique_sorted get printed listed_leaves single_leaf static_node_leaf_ids read_labels
    resolve_scope resolve_domain resolve_uplink resolve_compatible_uplink value_fits leaf_matches
    has_matching_leaf resolve_upper resolve_requested resolve_labels resolve_demand_labels
    find_leaves check_shared shared_leaf resolve_node sort_out resolve_nodes is_left_out
    warned_fields ignored_ngd_warnings parse_quantity_value full_from resources_full read_states
    states_by_uid derived_state derived_states normalize_usage_states digits format_uint of_request
    object_items all_objects resource_state_maps base_units normalize_values normalize_resource_map
    check_minimum normalize_items normalize_demand normalize_worker_resources format_memory_mi
    names_of joined resource_part format_resource_set failure_message format_worker_failure
    printed_resources format_node format_nodes format_group format_candidate_resources
    configured_definitions enabled resolve bind_metric_snapshot_to_nodes node_topology node_fields
    state_fields with_constraints check_required constrained_request payload_of prepare respond
    allocate
program = tt

abbrev no_digest : Encoding
no_digest = record { digest = λ v. []; print = λ v. [] }

-- Every quantity is one.
abbrev one : Text → Text → Option ℤ
one raw name = some (pos 1)

abbrev no_floats : Floats
no_floats = record {
  Value = ℕ;
  parse = λ s. none;
  is_nan = λ v. false;
  is_infinite = λ v. false;
  at_least_zero = λ v. v;
  at_most_one = λ v. v;
  to_unix = λ t. t;
  from_unix = λ v. v;
}

abbrev scores : Float64
scores = record { Score = ℕ; gt = λ a b. ltb b a; eq = nat_eq }

abbrev leaf : ResolvedLeaf
leaf = record {
  region_id = lit "r";
  location_id = lit "l";
  data_center_id = lit "dc1";
  room_id = lit "room1";
  leaf_switch_id = lit "leaf-1";
  leaf_domain_id = lit "ld1";
  leaf_domain_leaves = lit "leaf-1" ∷ [];
  spine_domain_id = lit "sd1";
  border_domain_id = lit "bd1";
  spine_switch_ids = [];
  border_switch_ids = [];
  uplink_domain_id = lit "sd1";
  uplink_kind = lit "spine";
  peer_leaf_ids = [];
  bandwidth_gbps = lit "100";
  latency_millis = lit "1";
}

abbrev topology : TopologyCache
topology = record {
  mode = mode_layered;
  by_leaf = (lit "leaf-1", leaf) ∷ [];
  data_centers = lit "dc1" ∷ [];
  rooms = lit "room1" ∷ [];
  border_aliases = [];
  spine_aliases = [];
  leaf_aliases = [];
}

abbrev cpu_of : Text → Json
cpu_of n = object (field (lit "cpu") (text n) end)

abbrev node : Fields
node = field (lit "nodeUID") (text (lit "u1")) (
    field (lit "nodeName") (text (lit "n1")) (
      field (lit "allocatable") (cpu_of (lit "1")) (
        field (lit "topology")
          (object (field (lit "leafSwitchIds") (array (cons (text (lit "leaf-1")) nil)) end)) end)))

abbrev static : CachedSnapshot
static = record {
  snapshot_id = lit "s1";
  cluster_id = lit "c";
  topology_version = lit "v";
  nodes = node ∷ [];
}

abbrev service : AllocationService ℕ
service = record {
  boot_id = lit "b1";
  static = record { current = some static; previous = none };
  topology = topology;
  topology_version = lit "v2";
  topology_snapshot_id = lit "t9";
  metrics = record {
    base_url = [];
    definitions = [];
    catalogue_version = [];
    node_label = lit "node";
    stale_after = 60;
    current = none;
    previous = none;
    last_error = none;
    last_warnings = [];
    last_query = none;
    cpu_query = [];
    memory_query = [];
  };
}

abbrev ngd : Fields
ngd = field (lit "minResources") (cpu_of (lit "1")) (
    field (lit "quota") (cpu_of (lit "1")) (
      field (lit "topologyLabels")
        (object (field (lit "topology.kubernetes.io/room") (text required_same) end)) end))

-- The request writes constraints of its own.
abbrev request : Fields
request = field (lit "requestId") (text (lit "r1")) (
    field (lit "taskUID") (text (lit "t1")) (
      field (lit "ngdUID") (text (lit "d1")) (
        field (lit "ngdGeneration") (number (lit "3")) (
          field (lit "nodeStaticSnapshotId") (text (lit "s1")) (
            field (lit "schedulerStateSnapshotId") (text (lit "st1")) (
              field (lit "topologyConstraints") (cpu_of (lit "9"))
                (field (lit "ngd") (object ngd) end)))))))

abbrev group_with : Json → Fields
group_with resources =
    field (lit "groupId") (text (lit "g1"))
      (field (lit "nodes") (array (cons (object (field (lit "resources") resources end)) nil)) end)

abbrev answered : WorkerResult
answered = record {
  candidate_node_groups =
      group_with (
        object (
          field (lit "cpuMilli") (text (lit "5"))
            (field (lit "memoryBytes") (text (lit "3145728")) end)))
      ∷ [];
  failure = none;
  pipeline_trace = [];
}

abbrev calculate : WorkerPayload ℕ → Result ApiError WorkerResult
calculate p = ok answered

abbrev response : AllocationResponse
response = record {
  request_id = lit "r1";
  task_uid = lit "t1";
  ngd_uid = lit "d1";
  ngd_generation = number (lit "3");
  algorithm_boot_id = lit "b1";
  node_static_snapshot_id = lit "s1";
  metric_snapshot_id = lit "metrics-disabled";
  topology_snapshot_id = lit "t9";
  metric_snapshot_captured_at = none;
  degraded = true;
  warnings = metric_warning disabled ∷ [];
  status = lit "SUCCESS";
  candidate_node_groups =
      group_with (
        object (
          field (lit "cpuAvailable") (text (lit "5m"))
            (field (lit "memoryAvailable") (text (lit "3Mi")) end)))
      ∷ [];
  pipeline_trace = none;
  scheduler_state_snapshot_id = some (lit "st1");
  failure = none;
}

answered_request : allocate no_digest one no_floats calculate service 7 request ≡ ok response
unfolding program
answered_request = refl

small : IsInt64 no_digest one
small raw name n h = ground arith

abbrev payload_or : WorkerPayload ℕ → Result ApiError (WorkerPayload ℕ) → WorkerPayload ℕ
payload_or p (ok q) = q
payload_or p (err e) = p

abbrev payload : WorkerPayload ℕ
payload =
    payload_or
      (record {
        request = end;
        static_snapshot = static;
        metric_snapshot = none;
        metrics_degraded = true;
        warnings = [];
      })
      (prepare no_digest one no_floats service 7 request)

-- The constraints of the worker are those of the label, and not those that the request has.
meant_constraints :
    member (lit "topologyConstraints") payload.request
    ≡ object (field (lit "room") (text required_same) end)
unfolding program
meant_constraints = refl

prepare-AreMeant_example :
    AreMeant topology request payload.request
    × IsForWorker no_digest one (payload.request, payload.static_snapshot.nodes)
unfolding program
prepare-AreMeant_example =
    prepare-AreMeant no_digest one no_floats service 7 request payload small refl

abbrev with_states : Fields
with_states =
    field (lit "nodeUsageStates")
      (array (cons (object (field (lit "nodeUID") (text (lit "u1")) end)) nil)) request

abbrev fields_or :
    Fields × List Fields → Result ApiError (Fields × List Fields) → Fields × List Fields
fields_or other (ok done) = done
fields_or other (err e) = other

abbrev normalized_request : Fields × List Fields
normalized_request =
    fields_or (end, []) (normalize_worker_resources no_digest one with_states (node ∷ []))

normalize_worker_resources-IsForWorker_example :
    IsForWorker no_digest one normalized_request
    × KeepsOthers no_digest one with_states normalized_request
    × IsComputed no_digest one with_states (node ∷ []) normalized_request
unfolding program
normalize_worker_resources-IsForWorker_example =
    normalize_worker_resources-IsForWorker no_digest one with_states (node ∷ []) normalized_request
      small refl

-- A minimum above its quota is refused.
above_quota :
    check_minimum no_digest one
      (field (lit "cpu") (text (lit "1000")) end)
      (field (lit "cpu") (text (lit "1500")) end)
    ≡ err minimum_exceeds_quota
unfolding program
above_quota = refl

abbrev read_number : Json → ℕ
read_number (number s) = length s
read_number _ = 0

abbrev sent : Expected
sent = record {
  request_id = lit "r1";
  task_uid = lit "t1";
  ngd_uid = lit "d1";
  ngd_generation = 1;
  static_id = lit "s1";
  state_id = lit "st1";
  boot_id = lit "b1";
}

abbrev read_group : CandidateGroup ℕ
read_group = record {
  rank = pos 1;
  group_id = lit "g1";
  topology_level = lit "leaf";
  group_score = 9;
  nodes =
      record {
        node_uid = lit "u1";
        node_name = lit "n1";
        score = pos 9;
        resources = [];
        topology = end;
      }
      ∷ [];
}

abbrev read_response : AlgorithmResponse ℕ
read_response = record {
  request_id = lit "r1";
  task_uid = lit "t1";
  ngd_uid = lit "d1";
  ngd_generation = 1;
  algorithm_boot_id = lit "b1";
  node_static_snapshot_id = lit "s1";
  scheduler_state_snapshot_id = lit "st1";
  metric_snapshot_id = lit "metrics-disabled";
  metric_snapshot_captured_at = [];
  topology_snapshot_id = lit "t9";
  degraded = true;
  warnings = [];
  status = lit "SUCCESS";
  failure = none;
  candidate_node_groups = read_group ∷ [];
  pipeline_trace = [];
}

abbrev states : List SchedulerNodeState
states =
    record {
      node_name = lit "n1";
      node_uid = lit "u1";
      ready = true;
      unschedulable = false;
      requested_resources = [];
    }
    ∷ []

allocate-validate_response_example : validate_response scores read_response sent states ≡ (
    reject_if (ltb 3 1) too_many_groups
    >> check_groups scores (known_nodes states) 1 none [] (read_group ∷ []))
unfolding program
allocate-validate_response_example =
    allocate-validate_response no_digest one no_floats scores read_number calculate service 7
      request response sent read_response states (refl, refl, refl, refl, refl, refl, refl) refl
      refl (refl, refl, refl, refl, refl, refl, refl, refl, refl)

-- ===== src/Tests/Calculations.antt =====
-- Runs of the check of a response and of a calculation.
use ngd_ngg_scheduling.Base.{
  ℕ, ◌≡◌, refl, ◌↔◌, true, false, [], ◌∷◌, map, Option, none, some, list_eq, lookup, insert,
  contains, All, pos, nat_eq, ok, ltb,
}
use ngd_ngg_scheduling.Text.{Text, text_Eq, lit, text_lt, has_prefix}
use ngd_ngg_scheduling.Json.{text, end, field, member, as_text}
use ngd_ngg_scheduling.Naming.{trim_prefix, short_hash}
use ngd_ngg_scheduling.Sets.{has_text, add_text}
use ngd_ngg_scheduling.Refresh.{found, not_found}
use ngd_ngg_scheduling.Response.{
  Float64, CandidateNode, CandidateGroup, AlgorithmResponse, Expected, SchedulerNodeState,
  known_from, known_nodes, out_of_range, name_mismatch, check_nodes, node_out_of_order,
  check_node_order, group_out_of_order, check_groups, validate_response,
}
use ngd_ngg_scheduling.Response.Spec.{IsValidResponse}
use ngd_ngg_scheduling.Response.Sound.{validate_response_iff}
use ngd_ngg_scheduling.StaticSnapshot.{no_status, current}
use ngd_ngg_scheduling.Calculation.{
  Answers, answered, request_id, fail_demand, demand_still_current, fulfil, activate, publish_group,
  give_up, select_group, accept, check_current, read_reply, call_algorithm, with_state, with_static,
  with_nodes, with_spec, reconcile_demand,
}
use ngd_ngg_scheduling.Calculation.Demands.{
  PlatformDemand, Apimachinery, string_value, map_value, check_quantity, check_topology_labels,
  validate_spec,
}
use ngd_ngg_scheduling.Calculation.Grant.{build_grant_spec}
use ngd_ngg_scheduling.Calculation.Published.{
  written_grants, Writes, IsGranted, grant_written_justified,
}
use ngd_ngg_scheduling.Calculation.Concluded.{IsReported, reconcile_demand-IsReported}
use ngd_ngg_scheduling.Calculation.Scores.{IsScore, grant_scores_valid}

program : Unit {0}
unfolding list_eq lookup insert contains text_lt has_text add_text known_from known_nodes
    out_of_range name_mismatch check_nodes node_out_of_order check_node_order group_out_of_order
    check_groups validate_response trim_prefix has_prefix short_hash current member as_text
    string_value map_value check_quantity check_topology_labels validate_spec fail_demand
    demand_still_current fulfil activate publish_group give_up select_group accept check_current
    read_reply call_algorithm with_state with_static with_nodes with_spec reconcile_demand
program = tt

-- Whole numbers as scores.
abbrev whole : Float64
whole = record { Score = ℕ; gt = λ a b. ltb b a; eq = nat_eq }

-- A text with one character is a quantity, its code.
abbrev one_digit : Text → Option ℕ
one_digit (c ∷ []) = some c
one_digit _ = none

abbrev machinery : Apimachinery
machinery = record {
  Quantity = ℕ;
  parse = one_digit;
  milli_value = λ q. q;
  value = λ q. q;
  nested_int64 = λ fields key. pos 0;
}

abbrev plain : ℕ → Text
plain n = n ∷ []

abbrev demand : PlatformDemand
demand = record {
  name = lit "gpu";
  uid = lit "u1";
  generation = 1;
  spec = field (lit "schedulerName") (text (lit "volcano")) end;
}

abbrev node_state : SchedulerNodeState
node_state = record {
  node_name = lit "n1";
  node_uid = lit "i1";
  ready = true;
  unschedulable = false;
  requested_resources = [];
}

abbrev candidate : CandidateNode
candidate = record {
  node_uid = lit "i1";
  node_name = lit "n1";
  score = pos 70;
  resources = [];
  topology = end;
}

abbrev group : CandidateGroup ℕ
group = record {
  rank = pos 1;
  group_id = lit "g1";
  topology_level = lit "leaf";
  group_score = 70;
  nodes = candidate ∷ [];
}

abbrev identity : Text
unfolding trim_prefix has_prefix short_hash
identity = request_id whole machinery plain demand (lit "t1")

abbrev goal : Expected
goal = record {
  request_id = identity;
  task_uid = lit "u1";
  ngd_uid = lit "u1";
  ngd_generation = 1;
  static_id = lit "s1";
  state_id = lit "t1";
  boot_id = lit "b1";
}

abbrev response : AlgorithmResponse ℕ
response = record {
  request_id = identity;
  task_uid = lit "u1";
  ngd_uid = lit "u1";
  ngd_generation = 1;
  algorithm_boot_id = lit "b1";
  node_static_snapshot_id = lit "s1";
  scheduler_state_snapshot_id = lit "t1";
  metric_snapshot_id = lit "m1";
  metric_snapshot_captured_at = [];
  topology_snapshot_id = [];
  degraded = false;
  warnings = [];
  status = lit "SUCCESS";
  failure = none;
  candidate_node_groups = group ∷ [];
  pipeline_trace = [];
}

accepted : validate_response whole response goal (node_state ∷ []) ≡ ok tt
unfolding program
accepted = refl

validate_response_iff_example :
    (validate_response whole response goal (node_state ∷ []) ≡ ok tt)
    ↔ IsValidResponse whole response goal (node_state ∷ [])
validate_response_iff_example = validate_response_iff whole response goal (node_state ∷ [])

response-IsValid : IsValidResponse whole response goal (node_state ∷ [])
response-IsValid = (validate_response_iff whole response goal (node_state ∷ [])).0 accepted

grant_scores_valid_example :
    (map (λ g. g.name) (build_grant_spec demand response group (lit "now")).nodes ≡ lit "n1" ∷ [])
    × All IsScore (build_grant_spec demand response group (lit "now")).nodes
grant_scores_valid_example =
    grant_scores_valid whole response goal (node_state ∷ []) demand (lit "now") group []
      response-IsValid refl

abbrev answers : Answers ℕ
answers = record {
  nodes = some [];
  pods_listed = true;
  static = some (record {
    status = record no_status { snapshot_id = lit "s1"; algorithm_boot_id = lit "b1" };
    ready = true;
  });
  state = some (record { id = lit "t1"; captured_at = []; state = node_state ∷ [] });
  existing = not_found;
  reply = answered response;
  latest = found (lit "u1", 1);
  status_written = true;
  returned_written = true;
  grant_applied = true;
  grant_read = some (lit "ngg-gpu");
  active_written = true;
}

publishes :
    written_grants (reconcile_demand whole machinery plain (lit "now") false demand answers).effects
    ≡ build_grant_spec demand response group (lit "now") ∷ []
unfolding program
publishes = refl

grant_written_justified_example :
    Writes
      (IsGranted whole machinery plain (lit "now") false demand answers)
      (reconcile_demand whole machinery plain (lit "now") false demand answers)
grant_written_justified_example =
    grant_written_justified whole machinery plain (lit "now") false demand answers

reconcile_demand-IsReported_example :
    IsReported whole machinery plain
      (lit "now")
      false
      demand
      answers
      (reconcile_demand whole machinery plain (lit "now") false demand answers)
reconcile_demand-IsReported_example =
    reconcile_demand-IsReported whole machinery plain (lit "now") false demand answers

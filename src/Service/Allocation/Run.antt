-- ===== src/Service/Allocation/Run.antt =====
-- algorithm_server/go/algorithm/service.go allocate, as a chain: `prepare` up to the call of the
-- worker, and `respond` from its result on.
use ngd_ngg_scheduling.Base.{
  ℕ, Bool, true, false, not, ◌&&◌, ◌||◌, List, [], ◌∷◌, ◌++◌, map, Option, none, some,
  if◌then◌else◌, Result, ok, ◌>>=◌, ◌>>◌, reject_if, ℤ,
}
use ngd_ngg_scheduling.Text.{Text, text_Eq, lit, is_empty}
use ngd_ngg_scheduling.Json.{
  delete_member, Json, bool, text, array, Fields, member, has_member, set_member,
}
use ngd_ngg_scheduling.StaticCache.{Encoding, CachedSnapshot, get, printed}
use ngd_ngg_scheduling.Topology.{resolve_nodes, resolve_demand_labels}
use ngd_ngg_scheduling.Service.{ignored_ngd_warnings}
use ngd_ngg_scheduling.Service.Usage.{normalize_usage_states}
use ngd_ngg_scheduling.Worker.{ApiError}
use ngd_ngg_scheduling.Quantity.{
  invalid_request, of_request, object_items, normalize_worker_resources,
}
use ngd_ngg_scheduling.Quantity.Printed.{
  AllocationFailure, format_candidate_resources, format_worker_failure,
}
use ngd_ngg_scheduling.Metrics.{Floats, MetricSnapshot, MetricsCache, enabled, resolve}
use ngd_ngg_scheduling.Metrics.Binding.{bind_metric_snapshot_to_nodes}
use ngd_ngg_scheduling.Service.Allocation.{
  static_not_found, topology_failed, invalid_labels, ServiceWarning, metric_warning,
  mapping_warning, node_left_out, not_evaluated, node_fields, state_fields, with_constraints,
  WorkerPayload, WorkerResult, AllocationService, AllocationResponse, required_fields, no_group,
  found_or, instead,
}

module _ (E : Encoding) (parse_quantity : Text → Text → Option ℤ) (F : Floats) where
  open F use {Value}

  abbrev pub value_of : Text → Fields → Text
  value_of name request = printed E (member name request)

  -- The first loop.
  unfoldable pub check_required : Fields → List Text → Result ApiError (Unit {0})
  check_required request [] = ok tt
  check_required request (name ∷ rest) =
      reject_if (is_empty (value_of name request)) invalid_request >> check_required request rest

  -- The copy of the request with the states, the mode, and the constraints that its labels mean.
  unfoldable pub constrained_request :
      AllocationService Value → CachedSnapshot → Fields → Result ApiError Fields
  constrained_request s static request =
      instead invalid_request (normalize_usage_states E parse_quantity request static.nodes)
      >>= λ states.
          let with_states =
            set_member (lit "nodeUsageStates") (array (object_items (map state_fields states)))
              request in
          let copy =
            delete_member (lit "topologyConstraints")
              (set_member (lit "topologyMode") (text s.topology.mode) with_states) in
          instead invalid_labels (resolve_demand_labels s.topology copy) >>= λ constraints.
          ok (with_constraints constraints copy)

  -- What the worker is asked, from the normalized request and Nodes; the warnings of the resolver come with it.
  unfoldable pub payload_of :
      AllocationService Value
      → ℕ
      → CachedSnapshot
      → List ServiceWarning
      → Fields × List Fields
      → WorkerPayload Value
  payload_of s now static left_out (request, nodes) =
      let metric = resolve F now s.metrics in
      let bound = bind_metric_snapshot_to_nodes E F metric.snapshot nodes s.metrics.node_label in
      record {
        request = request;
        static_snapshot = record static { topology_version = s.topology_version; nodes = nodes };
        metric_snapshot = bound.0;
        metrics_degraded = metric.degraded || bound.1;
        warnings =
            map metric_warning metric.warnings
            ++ (map mapping_warning bound.2
                ++ (left_out ++ map not_evaluated (ignored_ngd_warnings E request)));
      }

  -- allocate up to the call of the worker
  unfoldable pub prepare :
      AllocationService Value → ℕ → Fields → Result ApiError (WorkerPayload Value)
  prepare s now request = of_request (value_of (lit "requestId") request) (
      check_required request required_fields
      >> found_or static_not_found (get (value_of (lit "nodeStaticSnapshotId") request) s.static)
      >>= λ static.
          let resolved = resolve_nodes E s.topology static.nodes in
          found_or topology_failed resolved.0 >>= λ nodes.
          constrained_request s static request >>= λ copy.
          normalize_worker_resources E parse_quantity copy (map node_fields nodes) >>= λ normalized.
          ok (
            payload_of s now static (map (λ left. node_left_out left.0 left.1) resolved.1)
              normalized))

  abbrev pub no_groups : List Fields → Bool
  no_groups [] = true
  no_groups (g ∷ gs) = false

  abbrev pub metric_id : MetricsCache Value → Option (MetricSnapshot Value) → Text
  metric_id c none = if enabled c then lit "metrics-unavailable" else lit "metrics-disabled"
  metric_id c (some s) = s.snapshot_id

  abbrev pub captured : Option (MetricSnapshot Value) → Option ℕ
  captured none = none
  captured (some s) = some s.captured_at

  abbrev pub is_true : Json → Bool
  is_true (bool b) = b
  is_true _ = false

  abbrev pub failure_or : Option AllocationFailure → AllocationFailure
  failure_or none = no_group
  failure_or (some failure) = failure

  -- allocate from the result of the worker on
  unfoldable pub respond :
      AllocationService Value
      → Fields
      → WorkerPayload Value
      → WorkerResult
      → Result ApiError AllocationResponse
  respond s request p result = of_request (value_of (lit "requestId") request) (
      format_candidate_resources E result.candidate_node_groups >>= λ groups. ok (record {
        request_id = value_of (lit "requestId") request;
        task_uid = value_of (lit "taskUID") request;
        ngd_uid = value_of (lit "ngdUID") request;
        ngd_generation = member (lit "ngdGeneration") request;
        algorithm_boot_id = s.boot_id;
        node_static_snapshot_id = p.static_snapshot.snapshot_id;
        metric_snapshot_id = metric_id s.metrics p.metric_snapshot;
        topology_snapshot_id = s.topology_snapshot_id;
        metric_snapshot_captured_at = captured p.metric_snapshot;
        degraded = p.metrics_degraded;
        warnings = p.warnings;
        status = if no_groups groups then lit "UNSATISFIABLE" else lit "SUCCESS";
        candidate_node_groups = groups;
        pipeline_trace =
            if is_true (member (lit "debugTrace") request) && not (no_groups result.pipeline_trace)
            then some result.pipeline_trace
            else none;
        scheduler_state_snapshot_id =
            if has_member (lit "schedulerStateSnapshotId") request
            then some (value_of (lit "schedulerStateSnapshotId") request)
            else none;
        failure =
            if no_groups groups
            then some (failure_or (format_worker_failure E result.failure))
            else none;
      }))

  -- allocate
  unfoldable pub allocate :
      (WorkerPayload Value → Result ApiError WorkerResult)
      → AllocationService Value
      → ℕ
      → Fields
      → Result ApiError AllocationResponse
  allocate calculate s now request =
      prepare s now request >>= λ p. calculate p >>= λ result. respond s request p result

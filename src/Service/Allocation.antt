-- ===== src/Service/Allocation.antt =====
-- algorithm_server/go/algorithm/service.go allocate: one calculation for a demand, from the request
-- of the controller to the response. It is a chain of three parts: what the worker is asked, its
-- answer, and the response. The worker is the interface `calculator`, a parameter. Warnings are values, and
-- logging is left out.
pub mod Run
pub mod Echoed
pub mod Asked
pub mod Accepted
use ngd_ngg_scheduling.Base.{
  ℕ, Bool, true, false, not, ◌&&◌, ◌||◌, List, [], ◌∷◌, ◌++◌, map, Option, none, some,
  if◌then◌else◌, ◌==◌, Result, ok, err, ◌>>=◌, ◌>>◌, reject_if, ℤ,
}
use ngd_ngg_scheduling.Text.{Text, text_Eq, lit, is_empty}
use ngd_ngg_scheduling.Json.{
  Json, bool, number, text, array, object, Fields, end, field, member, has_member, set_member,
  text_items,
}
use ngd_ngg_scheduling.StaticCache.{Encoding, CachedSnapshot, StaticCache, get, printed}
use ngd_ngg_scheduling.Topology.{
  TopologyCache, TopologyError, Warning, Constraints, ResolvedNode, resolve_nodes,
  resolve_demand_labels,
}
use ngd_ngg_scheduling.Service.{ignored_ngd_warnings}
use ngd_ngg_scheduling.Service.Usage.{UsageState, UsageError, normalize_usage_states}
use ngd_ngg_scheduling.Worker.{ApiError}
use ngd_ngg_scheduling.Quantity.{
  rejected, invalid_request, of_request, object_items, normalize_worker_resources,
}
use ngd_ngg_scheduling.Quantity.Printed.{
  WorkerFailure, AllocationFailure, format_candidate_resources, format_worker_failure,
}
use ngd_ngg_scheduling.Metrics.{
  Floats, MetricSnapshot, MetricsCache, MetricWarning, enabled, resolve,
}
use ngd_ngg_scheduling.Metrics.Binding.{MappingWarning, bind_metric_snapshot_to_nodes}

-- An apiError that is to be tried again.
abbrev pub conflict : Text → ApiError
conflict code = record { request_id = []; code = code; retryable = true; status = 409 }

abbrev pub static_not_found : ApiError
static_not_found = conflict (lit "STATIC_SNAPSHOT_NOT_FOUND")

abbrev pub topology_failed : ApiError
topology_failed = conflict (lit "TOPOLOGY_RESOLUTION_FAILED")

abbrev pub invalid_labels : ApiError
invalid_labels = rejected (lit "INVALID_TOPOLOGY_LABELS") 400

-- The warnings of a response, in the order of allocate.
pub data ServiceWarning : Type 0 where
  metric_warning : MetricWarning → ServiceWarning
  mapping_warning : MappingWarning → ServiceWarning
  node_left_out : Fields → Warning → ServiceWarning
  not_evaluated : Text → ServiceWarning

abbrev pub texts : List Text → Json
texts values = array (text_items values)

-- The topology that ResolveNodes writes into a Node.
unfoldable pub node_topology : ResolvedNode → Text → Fields
node_topology r first = field (lit "topologyMode") (text r.mode) (
    field (lit "regionId") (text r.leaf.region_id) (
      field (lit "locationId") (text r.leaf.location_id) (
        field (lit "dataCenterId") (text r.leaf.data_center_id) (
          field (lit "roomId") (text r.leaf.room_id) (
            field (lit "leafSwitchId") (text first) (
              field (lit "leafSwitchIds") (texts r.leaf_ids) (
                field (lit "switchId") (text first) (
                  field (lit "leafDomainId") (text r.leaf.leaf_domain_id) (
                    field (lit "leafDomainSwitchIds") (texts r.leaf.leaf_domain_leaves) (
                      field (lit "spineDomainId") (text r.leaf.spine_domain_id) (
                        field (lit "spineSwitchIds") (texts r.leaf.spine_switch_ids) (
                          field (lit "borderDomainId") (text r.leaf.border_domain_id) (
                            field (lit "borderSwitchIds") (texts r.leaf.border_switch_ids) (
                              field (lit "uplinkDomainId") (text r.leaf.uplink_domain_id) (
                                field (lit "uplinkKind") (text r.leaf.uplink_kind) (
                                  field (lit "peerLeafSwitchIds") (texts r.leaf.peer_leaf_ids) (
                                    field (lit "bandwidthGbps") (number r.leaf.bandwidth_gbps) (
                                      field (lit "latencyMillis") (number r.leaf.latency_millis)
                                        end))))))))))))))))))

abbrev first_of : List Text → Text
first_of [] = []
first_of (s ∷ rest) = s

-- The Node that ResolveNodes returns.
unfoldable pub node_fields : ResolvedNode → Fields
unfolding node_topology
node_fields r = set_member (lit "topology") (object (node_topology r (first_of r.leaf_ids))) r.node

-- A state of normalizeUsageStates as a map.
unfoldable pub state_fields : UsageState → Fields
state_fields s = field (lit "nodeUID") (text s.node_uid) (
    field (lit "inUse") (bool s.in_use) (elim s.requested_resources [
      | none ↦ end
      | some resources ↦ field (lit "requestedResources") (object resources) end
    ]))

abbrev pub constraint_fields : Constraints → Fields
constraint_fields [] = end
constraint_fields ((level, value) ∷ rest) = field level (text value) (constraint_fields rest)

-- `if len(topologyConstraints) > 0`
unfoldable pub with_constraints : Option Constraints → Fields → Fields
with_constraints none request = request
with_constraints (some []) request = request
with_constraints (some (c ∷ cs)) request =
    set_member (lit "topologyConstraints") (object (constraint_fields (c ∷ cs))) request

-- workerPayload
pub record WorkerPayload (V : Type 0) : Type 0 where
  pub request : Fields
  pub static_snapshot : CachedSnapshot
  pub metric_snapshot : Option (MetricSnapshot V)
  pub metrics_degraded : Bool
  pub warnings : List ServiceWarning

-- workerResult
pub record WorkerResult : Type 0 where
  pub candidate_node_groups : List Fields
  pub failure : Option WorkerFailure
  pub pipeline_trace : List Fields

-- service, without the worker and the logger, with the identity and the version of its topology.
pub record AllocationService (V : Type 0) : Type 0 where
  pub boot_id : Text
  pub static : StaticCache
  pub topology : TopologyCache
  pub topology_version : Text
  pub topology_snapshot_id : Text
  pub metrics : MetricsCache V

-- The map that allocate returns.
pub record AllocationResponse : Type 0 where
  pub request_id : Text
  pub task_uid : Text
  pub ngd_uid : Text
  pub ngd_generation : Json
  pub algorithm_boot_id : Text
  pub node_static_snapshot_id : Text
  pub metric_snapshot_id : Text
  pub topology_snapshot_id : Text
  pub metric_snapshot_captured_at : Option ℕ
  pub degraded : Bool
  pub warnings : List ServiceWarning
  pub status : Text
  pub candidate_node_groups : List Fields
  pub pipeline_trace : Option (List Fields)
  pub scheduler_state_snapshot_id : Option Text
  pub failure : Option AllocationFailure

abbrev pub required_fields : List Text
required_fields = lit "requestId" ∷ lit "taskUID" ∷ lit "ngdUID" ∷ lit "nodeStaticSnapshotId" ∷ []

abbrev pub no_group : AllocationFailure
no_group = record {
  code = lit "NO_FEASIBLE_NODE_GROUP";
  message = lit "Algorithm returned no feasible node group";
  details = end;
}

-- `found` or an error.
abbrev pub found_or : {A : Type 0} → ApiError → Option A → Result ApiError A
found_or why none = err why
found_or why (some a) = ok a

abbrev pub instead : {W A : Type 0} → ApiError → Result W A → Result ApiError A
instead why (err e) = err why
instead why (ok a) = ok a

-- ===== src/Calculation/Grant.antt =====
-- The NodeGroupGrant that is written: buildPlatformGrantSpec, platformCandidateTopology and the
-- capacity that setPlatformGrantStatus computes, of prc/pkg/controller/prc_controller.go.
use ngd_ngg_scheduling.Base.{
  ℕ, ◌+◌, ◌%◌, ◌||◌, List, [], ◌∷◌, map, Option, none, some, if◌then◌else◌, ◌==◌, lookup, insert,
  length, ℤ, pos,
}
use ngd_ngg_scheduling.Text.{Text, text_Eq, lit, is_empty}
use ngd_ngg_scheduling.Json.{Fields}
use ngd_ngg_scheduling.Naming.{grant_name, short_hash}
use ngd_ngg_scheduling.Sets.{add_text}
use ngd_ngg_scheduling.Response.{CandidateNode, CandidateGroup, AlgorithmResponse}
use ngd_ngg_scheduling.Calculation.Demands.{PlatformDemand, Apimachinery, string_value}

pub record GrantNode : Type 0 where
  pub name : Text
  pub score : ℤ
  pub resources : List (Text × Text)
  pub topology : List (Text × Text)

-- The grant that upsertGrant applies: its name, the labels, annotation and owner that name the
-- demand, and its spec.
pub record GrantSpec : Type 0 where
  pub grant : Text
  pub demand_uid : Text
  pub owner : Text × Text
  pub scheduler_name : Text
  pub version : Text
  pub timestamp : Text
  pub source : Text
  pub demand_ref : Text
  pub nodes : List GrantNode

pub record PlatformNode : Type 0 where
  pub name : Text
  pub cpu_milli : ℕ
  pub memory_bytes : ℕ

-- The numbers of `resolvedCapacity` as int64 bits; memory is still in bytes.
pub record Capacity : Type 0 where
  pub nodes : ℕ
  pub cpu_milli : ℕ
  pub memory_bytes : ℕ

-- The source of the load data.
unfoldable pub load_source : {S : Type 0} → AlgorithmResponse S → Text
load_source r =
    if r.metric_snapshot_id == lit "metrics-disabled"
    then lit "disabled"
    else if is_empty r.metric_snapshot_id || r.degraded
    then lit "degraded"
    else lit "normal"

unfoldable pub topology_item : Fields → Text → Text → List (Text × Text) → List (Text × Text)
unfolding string_value
topology_item topology target source rest =
    let item = string_value topology source in if is_empty item then rest else (target, item) ∷ rest

-- platformCandidateTopology, with its keys in one order
unfoldable pub candidate_topology : Fields → List (Text × Text)
unfolding topology_item
candidate_topology topology = topology_item topology (lit "dataCenter") (lit "dataCenterId") (
    topology_item topology (lit "room") (lit "roomId") (
      topology_item topology (lit "borderSwitch") (lit "borderDomainId") (
        topology_item topology (lit "spineSwitch") (lit "spineDomainId")
          (topology_item topology (lit "leafSwitch") (lit "leafDomainId") []))))

-- The entry of a candidate; an empty map of resources or topology is an absent one.
unfoldable pub grant_node : Text → CandidateNode → GrantNode
unfolding candidate_topology
grant_node source candidate = record {
  name = candidate.node_name;
  score = if source == lit "normal" then candidate.score else pos 50;
  resources = candidate.resources;
  topology = candidate_topology candidate.topology;
}

-- buildPlatformGrantSpec of the selected group, and the metadata that upsertGrant adds. `now` is
-- the printed time.
unfoldable pub build_grant_spec :
    {S : Type 0} → PlatformDemand → AlgorithmResponse S → CandidateGroup S → Text → GrantSpec
unfolding load_source grant_node string_value grant_name short_hash
build_grant_spec demand response selected now = record {
  grant = grant_name demand.name;
  demand_uid = short_hash demand.uid;
  owner = (demand.name, demand.uid);
  scheduler_name = string_value demand.spec (lit "schedulerName");
  version = lit "v1";
  timestamp =
      if is_empty response.metric_snapshot_captured_at
      then now
      else response.metric_snapshot_captured_at;
  source = load_source response;
  demand_ref = demand.name;
  nodes = map (grant_node (load_source response)) selected.nodes;
}

-- `allowed`: the names of the nodes, each once.
unfoldable pub allowed : List CandidateNode → List Text
unfolding add_text
allowed [] = []
allowed (n ∷ ns) = add_text n.node_name (allowed ns)

-- `byName`: the last node of a name counts.
unfoldable pub by_name : List (Text × PlatformNode) → List PlatformNode → List (Text × PlatformNode)
by_name known [] = known
by_name known (n ∷ ns) = by_name (insert n.name n known) ns

-- The sum of two int64.
abbrev pub add_int64 : ℕ → ℕ → ℕ
add_int64 a b = (a + b) % 18446744073709551616

module _ (K : Apimachinery) where
  open K use {Quantity, parse, milli_value, value}

  -- The parsed number, or nothing to add.
  abbrev pub parsed_or_zero : (Quantity → ℕ) → Text → ℕ
  parsed_or_zero measure raw = elim (parse raw) [ none ↦ 0 | some q ↦ measure q ]

  abbrev pub live_share : Option PlatformNode → ℕ × ℕ
  live_share none = (0, 0)
  live_share (some node) = (node.cpu_milli, node.memory_bytes)

  -- What one candidate adds to cpu and memory.
  abbrev pub share : Option Text → Option Text → Option PlatformNode → ℕ × ℕ
  share (some cpu) (some memory) live =
      (parsed_or_zero milli_value cpu, parsed_or_zero value memory)
  share cpu memory live = live_share live

  abbrev pub share_of : List (Text × PlatformNode) → CandidateNode → ℕ × ℕ
  share_of known n =
      share (lookup (lit "cpuAvailable") n.resources) (lookup (lit "memoryAvailable") n.resources)
        (lookup n.node_name known)

  unfoldable pub sum_shares : List (Text × PlatformNode) → ℕ × ℕ → List CandidateNode → ℕ × ℕ
  sum_shares known total [] = total
  sum_shares known total (n ∷ ns) =
      let s = share_of known n in sum_shares known (add_int64 total.0 s.0, add_int64 total.1 s.1) ns

  unfoldable pub capacity : List CandidateNode → List PlatformNode → Capacity
  unfolding allowed by_name sum_shares
  capacity selected live =
      let total = sum_shares (by_name [] live) (0, 0) selected in
      record { nodes = length (allowed selected); cpu_milli = total.0; memory_bytes = total.1 }

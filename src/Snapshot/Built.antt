-- ===== src/Snapshot/Built.antt =====
-- prc/pkg/controller/snapshot.go buildStaticSnapshot and buildSchedulerState: the snapshots that are
-- made of the Nodes and Pods that the API server lists. contentHash, the quantities of
-- k8s.io/apimachinery and the time are parameters; a quantity that is only copied is its text. A map
-- is an association list.
use ngd_ngg_scheduling.Base.{
  Bool, ◌||◌, List, [], ◌∷◌, map, Option, none, some, if◌then◌else◌, ◌==◌, lookup, insert, Result,
  ok, err, ◌>>=◌,
}
use ngd_ngg_scheduling.Text.{Text, text_Eq, text_lt, lit, is_empty}
use ngd_ngg_scheduling.Sets.Insertion.{sort_by}
use ngd_ngg_scheduling.Response.{SchedulerNodeState}
use ngd_ngg_scheduling.Snapshot.{
  NodeTopology, KubeNode, Fault, Decoder, topology_from_node, node_ready, node_internal_ip,
}

-- What the snapshots read of a Node beside KubeNode.
pub record ListedNode : Type 0 where
  pub node : KubeNode
  pub created_at : Text
  pub allocatable : List (Text × Text)
  pub unschedulable : Bool

-- staticNode
pub record StaticNode : Type 0 where
  pub node_name : Text
  pub node_uid : Text
  pub node_ip : Text
  pub created_at : Text
  pub allocatable : List (Text × Text)
  pub labels : List (Text × Text)
  pub topology : NodeTopology

-- staticSnapshot
pub record StaticContent : Type 0 where
  pub cluster_id : Text
  pub topology_version : Text
  pub nodes : List StaticNode

pub data BuildError : Type 0 where
  bad_topology : Text → Fault → BuildError
  no_usable_node : BuildError

unfoldable pub static_node : ListedNode → NodeTopology → StaticNode
static_node l topology = record {
  node_name = l.node.name;
  node_uid = l.node.uid;
  node_ip = node_internal_ip l.node.addresses;
  created_at = l.created_at;
  allocatable = l.allocatable;
  labels = l.node.labels;
  topology = topology;
}

abbrev pub static_before : StaticNode → StaticNode → Bool
static_before a b =
    if a.node_uid == b.node_uid
    then text_lt a.node_name b.node_name
    else text_lt a.node_uid b.node_uid

-- The turn of the loop for a topology that was found.
unfoldable pub with_found : Option StaticNode → List StaticNode → List StaticNode
with_found none nodes = nodes
with_found (some n) nodes = n ∷ nodes

unfoldable pub found_topology :
    ListedNode → Result Fault (Option NodeTopology) → Result BuildError (Option StaticNode)
found_topology l (err why) = err (bad_topology l.node.name why)
found_topology l (ok none) = ok none
found_topology l (ok (some topology)) = ok (some (static_node l topology))

module _ (D : Decoder) where
  unfoldable pub read_node : ListedNode → Result BuildError (Option StaticNode)
  read_node l = found_topology l (topology_from_node D l.node)

  -- The loop of buildStaticSnapshot: a topology that cannot be read ends it.
  unfoldable pub read_nodes : List ListedNode → Result BuildError (List StaticNode)
  read_nodes [] = ok []
  read_nodes (l ∷ rest) =
      read_node l >>= λ found. read_nodes rest >>= λ others. ok (with_found found others)

  abbrev pub named :
      (StaticContent → Text) → StaticContent → Result BuildError (Text × StaticContent)
  named hash content = elim content.nodes [
    | [] ↦ err no_usable_node
    | n ∷ ns ↦ ok (hash content, content)
  ]

  -- buildStaticSnapshot
  unfoldable pub build_static_snapshot :
      (StaticContent → Text) → Text → List ListedNode → Result BuildError (Text × StaticContent)
  build_static_snapshot hash cluster_id nodes = read_nodes nodes >>= λ found. named hash (record {
    cluster_id = cluster_id;
    topology_version = lit "node-leaf-set-v2";
    nodes = sort_by static_before found;
  })

-- resource.Quantity: its zero, Add and String.
pub record Quantities : Type 1 where
  pub Quantity : Type 0
  pub zero_quantity : Quantity
  pub add : Quantity → Quantity → Quantity
  pub print : Quantity → Text

-- What the sums read of a Pod: the requests of each container.
pub record Pod (Q : Type 0) : Type 0 where
  pub phase : Text
  pub node_name : Text
  pub containers : List (List (Text × Q))

module _ (K : Quantities) where
  open K use {Quantity, zero_quantity, add, print}

  abbrev pub Requests : Type 0
  Requests = List (Text × Quantity)

  -- A Pod that has ended or has no Node is passed over.
  unfoldable pub is_skipped : Pod Quantity → Bool
  is_skipped p = (p.phase == lit "Succeeded") || ((p.phase == lit "Failed") || is_empty p.node_name)

  abbrev pub or_zero : Option Quantity → Quantity
  or_zero none = zero_quantity
  or_zero (some q) = q

  -- The requests of a container.
  unfoldable pub add_requests : List (Text × Quantity) → Requests → Requests
  add_requests [] total = total
  add_requests ((name, q) ∷ rest) total =
      add_requests rest (insert name (add (or_zero (lookup name total)) q) total)

  unfoldable pub add_containers : List (List (Text × Quantity)) → Requests → Requests
  add_containers [] total = total
  add_containers (c ∷ rest) total = add_containers rest (add_requests c total)

  abbrev pub requests_at : Text → List (Text × Requests) → Requests
  requests_at name requested = elim (lookup name requested) [ none ↦ [] | some total ↦ total ]

  -- The loop over the Pods.
  unfoldable pub sum_pods : List (Pod Quantity) → List (Text × Requests) → List (Text × Requests)
  sum_pods [] requested = requested
  sum_pods (p ∷ rest) requested = sum_pods rest (
      if is_skipped p
      then requested
      else insert p.node_name (add_containers p.containers (requests_at p.node_name requested))
          requested)

  -- The state of a Node.
  unfoldable pub node_state : List (Text × Requests) → ListedNode → SchedulerNodeState
  node_state requested l = record {
    node_name = l.node.name;
    node_uid = l.node.uid;
    ready = node_ready l.node.conditions;
    unschedulable = l.unschedulable;
    requested_resources = map (λ e. (e.0, print e.1)) (requests_at l.node.name requested);
  }

  abbrev pub state_before : SchedulerNodeState → SchedulerNodeState → Bool
  state_before a b = text_lt a.node_uid b.node_uid

  -- buildSchedulerState, without the time
  unfoldable pub build_scheduler_state :
      (List SchedulerNodeState → Text)
      → List ListedNode
      → List (Pod Quantity)
      → Text × List SchedulerNodeState
  build_scheduler_state hash nodes pods =
      let state = sort_by state_before (map (node_state (sum_pods pods [])) nodes) in
      (hash state, state)

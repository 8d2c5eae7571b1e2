-- ===== src/Topology.antt =====
-- algorithm_server/go/topology/constraints.go and resolver.go: the constraints that the labels of a
-- demand mean in a topology, and the leaves of a Node in it. A float64 of a leaf that is only copied
-- is kept as printed text. A map is an association list in some order.
pub mod Labels
pub mod Nodes
use ngd_ngg_scheduling.Base.{
  ℕ, Bool, true, false, not, ◌&&◌, ◌||◌, List, [], ◌∷◌, map, Option, none, some, if◌then◌else◌,
  ◌==◌, lookup, insert, contains, Result, ok, err, ◌>>=◌, ◌>>◌, reject_if,
}
use ngd_ngg_scheduling.Text.{Text, text_Eq, lit, is_empty, trim_space}
use ngd_ngg_scheduling.Json.{Json, null, text, object, Fields, end, field, member, as_object}
use ngd_ngg_scheduling.StaticCache.{Encoding, PutError, static_node_leaf_ids}

abbrev pub required_same : Text
required_same = lit "requiredSame"

abbrev pub mode_layered : Text
mode_layered = lit "layered"

abbrev pub mode_uplink_compatible : Text
mode_uplink_compatible = lit "uplink-compatible"

pub record ResolvedLeaf : Type 0 where
  pub region_id : Text
  pub location_id : Text
  pub data_center_id : Text
  pub room_id : Text
  pub leaf_switch_id : Text
  pub leaf_domain_id : Text
  pub leaf_domain_leaves : List Text
  pub spine_domain_id : Text
  pub border_domain_id : Text
  pub spine_switch_ids : List Text
  pub border_switch_ids : List Text
  pub uplink_domain_id : Text
  pub uplink_kind : Text
  pub peer_leaf_ids : List Text
  pub bandwidth_gbps : Text
  pub latency_millis : Text

-- The fields of Cache that are read here.
pub record TopologyCache : Type 0 where
  pub mode : Text
  pub by_leaf : List (Text × ResolvedLeaf)
  pub data_centers : List Text
  pub rooms : List Text
  pub border_aliases : List (Text × Text)
  pub spine_aliases : List (Text × Text)
  pub leaf_aliases : List (Text × Text)

pub data TopologyError : Type 0 where
  labels_not_object : TopologyError
  unsupported_key : Text → TopologyError
  empty_value : Text → TopologyError
  unknown_scope : Text → Text → TopologyError
  switch_not_found : Text → Text → TopologyError
  constraint_conflict : TopologyError

abbrev pub Constraints : Type 0
Constraints = List (Text × Text)

-- demandKeys
abbrev pub demand_keys : List (Text × Text)
demand_keys =
    (lit "topology.kubernetes.io/data-center", lit "dataCenter")
    ∷ (lit "topology.kubernetes.io/room", lit "room")
    ∷ (lit "topology.kubernetes.io/border-switch", lit "borderDomain")
    ∷ (lit "topology.kubernetes.io/spine-switch", lit "spineDomain")
    ∷ (lit "topology.kubernetes.io/leaf-switch", lit "leafDomain")
    ∷ []

abbrev pub label_value : Json → Text
label_value (text s) = trim_space s
label_value _ = []

-- The loop over the labels, in the order in which they are listed.
unfoldable pub read_labels : List (Text × Text) → Fields → Result TopologyError (List (Text × Text))
read_labels requested end = ok requested
read_labels requested (field key value rest) = elim (lookup key demand_keys) [
  | none ↦ err (unsupported_key key)
  | some level ↦
      if is_empty (label_value value)
      then err (empty_value key)
      else read_labels (insert level (label_value value) requested) rest
]

unfoldable pub resolve_scope :
    Constraints → List (Text × Text) → Text → List Text → Result TopologyError Constraints
resolve_scope constraints requested level known = elim (lookup level requested) [
  | none ↦ ok constraints
  | some value ↦
      if not (value == required_same) && not (contains value known)
      then err (unknown_scope level value)
      else ok (insert level value constraints)
]

-- A domain of the aliases, or an error.
abbrev pub domain_of : Text → Text → List (Text × Text) → Result TopologyError Text
domain_of level value aliases = elim (lookup value aliases) [
  | none ↦ err (switch_not_found level value)
  | some domain ↦ ok domain
]

unfoldable pub resolve_domain :
    Constraints → List (Text × Text) → Text → List (Text × Text) → Result TopologyError Constraints
resolve_domain constraints requested level aliases = elim (lookup level requested) [
  | none ↦ ok constraints
  | some value ↦
      if value == required_same
      then ok (insert level value constraints)
      else domain_of level value aliases >>= λ domain. ok (insert level domain constraints)
]

-- One half of resolveCompatibleUplink: the level also asks for one uplink domain.
unfoldable pub resolve_uplink :
    Constraints → List (Text × Text) → Text → List (Text × Text) → Result TopologyError Constraints
resolve_uplink constraints requested level aliases = elim (lookup level requested) [
  | none ↦ ok constraints
  | some value ↦
      if value == required_same
      then ok (insert (lit "uplinkDomain") required_same constraints)
      else domain_of level value aliases >>= λ domain.
          ok (insert (lit "uplinkDomain") required_same (insert level domain constraints))
]

unfoldable pub resolve_compatible_uplink :
    TopologyCache → Constraints → List (Text × Text) → Result TopologyError Constraints
unfolding resolve_uplink
resolve_compatible_uplink c constraints requested = do
  with_spine ← resolve_uplink constraints requested (lit "spineDomain") c.spine_aliases
  resolve_uplink with_spine requested (lit "borderDomain") c.border_aliases

-- `values` of leafMatches
abbrev pub leaf_values : ResolvedLeaf → List (Text × Text)
leaf_values leaf =
    (lit "dataCenter", leaf.data_center_id)
    ∷ (lit "room", leaf.room_id)
    ∷ (lit "leafDomain", leaf.leaf_domain_id)
    ∷ (lit "spineDomain", leaf.spine_domain_id)
    ∷ (lit "borderDomain", leaf.border_domain_id)
    ∷ (lit "uplinkDomain", leaf.uplink_domain_id)
    ∷ []

-- One turn of the loop of leafMatches: the value of the leaf fits the expected one.
unfoldable pub value_fits : Option Text → Text → Bool
value_fits none expected = true
value_fits (some actual) expected =
    if expected == required_same then not (is_empty actual) else actual == expected

unfoldable pub leaf_matches : ResolvedLeaf → Constraints → Bool
unfolding value_fits
leaf_matches leaf [] = true
leaf_matches leaf ((level, expected) ∷ rest) =
    value_fits (lookup level (leaf_values leaf)) expected && leaf_matches leaf rest

unfoldable pub has_matching_leaf : List (Text × ResolvedLeaf) → Constraints → Bool
unfolding leaf_matches
has_matching_leaf [] constraints = false
has_matching_leaf ((id, leaf) ∷ rest) constraints =
    leaf_matches leaf constraints || has_matching_leaf rest constraints

-- The levels above the leaf domain, by the mode of the topology.
unfoldable pub resolve_upper :
    TopologyCache → Constraints → List (Text × Text) → Result TopologyError Constraints
unfolding resolve_compatible_uplink resolve_domain
resolve_upper c constraints requested =
    if c.mode == mode_uplink_compatible
    then resolve_compatible_uplink c constraints requested
    else (resolve_domain constraints requested (lit "spineDomain") c.spine_aliases >>= λ with_spine.
        resolve_domain with_spine requested (lit "borderDomain") c.border_aliases)

-- The constraints of the requested levels.
unfoldable pub resolve_requested :
    TopologyCache → List (Text × Text) → Result TopologyError Constraints
unfolding resolve_scope resolve_domain resolve_upper has_matching_leaf
resolve_requested c requested = do
  centers ← resolve_scope [] requested (lit "dataCenter") c.data_centers
  rooms ← resolve_scope centers requested (lit "room") c.rooms
  leaves ← resolve_domain rooms requested (lit "leafDomain") c.leaf_aliases
  constraints ← resolve_upper c leaves requested
  reject_if (not (has_matching_leaf c.by_leaf constraints)) constraint_conflict
  ok constraints

-- ResolveDemandTopologyLabels from the value of topologyLabels on: none is a nil map.
unfoldable pub resolve_labels : TopologyCache → Json → Result TopologyError (Option Constraints)
unfolding read_labels resolve_requested
resolve_labels c null = ok none
resolve_labels c (object labels) = read_labels [] labels >>= λ requested.
    (resolve_requested c requested >>= λ constraints. ok (some constraints))
resolve_labels c _ = err labels_not_object

-- ResolveDemandTopologyLabels
unfoldable pub resolve_demand_labels :
    TopologyCache → Fields → Result TopologyError (Option Constraints)
unfolding resolve_labels member as_object
resolve_demand_labels c request = elim (as_object (member (lit "ngd") request)) [
  | none ↦ ok none
  | some ngd ↦ resolve_labels c (member (lit "topologyLabels") ngd)
]

-- Why ResolveNodes leaves a Node out, with a warning.
pub data Warning : Type 0 where
  invalid_leaves : PutError → Warning
  unknown_leaf : Text → Warning
  leaf_domain_conflict uplink_domain_conflict : Warning

-- The leaves of the identifiers, up to the first that is missing.
unfoldable pub find_leaves :
    List (Text × ResolvedLeaf) → List Text → Result Warning (List ResolvedLeaf)
find_leaves by_leaf [] = ok []
find_leaves by_leaf (id ∷ rest) = elim (lookup id by_leaf) [
  | none ↦ err (unknown_leaf id)
  | some leaf ↦ find_leaves by_leaf rest >>= λ leaves. ok (leaf ∷ leaves)
]

-- The loop over the other leaves of a Node.
unfoldable pub check_shared : Text → ResolvedLeaf → List ResolvedLeaf → Result Warning (Unit {0})
check_shared mode leaf [] = ok tt
check_shared mode leaf (candidate ∷ rest) = do
  reject_if (not (candidate.leaf_domain_id == leaf.leaf_domain_id)) leaf_domain_conflict
  reject_if
      (mode == mode_uplink_compatible && not (candidate.uplink_domain_id == leaf.uplink_domain_id))
      uplink_domain_conflict
  reject_if
      (mode == mode_layered
        && (not (candidate.spine_domain_id == leaf.spine_domain_id)
            || not (candidate.border_domain_id == leaf.border_domain_id)))
      uplink_domain_conflict
  check_shared mode leaf rest

-- The leaf whose data the Node gets, from its leaf identifiers.
unfoldable pub shared_leaf : TopologyCache → List Text → Result Warning (Option ResolvedLeaf)
unfolding find_leaves check_shared
shared_leaf c ids = find_leaves c.by_leaf ids >>= λ leaves. elim leaves [
  | [] ↦ ok none
  | leaf ∷ others ↦ check_shared c.mode leaf others >>= λ _. ok (some leaf)
]

-- What ResolveNodes makes of a Node: its data with a new topology, that of the leaf in the mode.
pub record ResolvedNode : Type 0 where
  pub node : Fields
  pub mode : Text
  pub leaf_ids : List Text
  pub leaf : ResolvedLeaf

-- The loop of ResolveNodes has resolved nodes and warnings, each with the Node it is about.
abbrev pub Sorted : Type 0
Sorted = List ResolvedNode × List (Fields × Warning)

module _ (E : Encoding) where
  -- `nodeTopology, _ := original["topology"].(map[string]any)`
  abbrev pub topology_of : Fields → Fields
  topology_of node = elim (as_object (member (lit "topology") node)) [ none ↦ end | some t ↦ t ]

  -- nodeLeafIDs, which is staticNodeLeafIDs of the other package
  abbrev pub node_leaf_ids : Fields → Result PutError (List Text)
  node_leaf_ids = static_node_leaf_ids E

  abbrev pub leaf_ids_of : Fields → Result Warning (List Text)
  leaf_ids_of node = elim (node_leaf_ids (topology_of node)) [
    | ok ids ↦ ok ids
    | err why ↦ err (invalid_leaves why)
  ]

  -- The body of the loop for one Node. nodeLeafIDs never returns an empty list: the case without a leaf has no warning of its own.
  unfoldable pub resolve_node : TopologyCache → Fields → Result Warning ResolvedNode
  unfolding shared_leaf
  resolve_node c node = leaf_ids_of node >>= λ ids.
      (shared_leaf c ids >>= λ leaf. elim leaf [
        | none ↦ err (unknown_leaf [])
        | some shared ↦ ok (record { node = node; mode = c.mode; leaf_ids = ids; leaf = shared })
      ])

  abbrev pub add_resolved : Fields → Result Warning ResolvedNode → Sorted → Sorted
  add_resolved node (ok r) (resolved, warnings) = (r ∷ resolved, warnings)
  add_resolved node (err why) (resolved, warnings) = (resolved, (node, why) ∷ warnings)

  unfoldable pub sort_out : TopologyCache → List Fields → Sorted
  unfolding resolve_node
  sort_out c [] = ([], [])
  sort_out c (node ∷ rest) = add_resolved node (resolve_node c node) (sort_out c rest)

  -- ResolveNodes: the nodes or an error, and the warnings.
  unfoldable pub resolve_nodes :
      TopologyCache → List Fields → Option (List ResolvedNode) × List (Fields × Warning)
  unfolding sort_out
  resolve_nodes c nodes =
      let r = sort_out c nodes in elim r.0 [ [] ↦ (none, r.1) | n ∷ ns ↦ (some r.0, r.1) ]

-- ===== src/Tests/Topologies.antt =====
-- Runs of the topology of the Algorithm server.
use ngd_ngg_scheduling.Base.{
  ◌≡◌, refl, List, [], ◌∷◌, list_eq, length, lookup, insert, contains, All,
}
use ngd_ngg_scheduling.Text.{
  Text, lit, text_lt, has_prefix, space_at, space_back, trim_front, trim_space,
}
use ngd_ngg_scheduling.Json.{
  text, array, object, cons, nil, Fields, end, field, member, elements, as_object,
}
use ngd_ngg_scheduling.Sets.{has_text, add_text, trimmed_set, place, sort_strings, unique_sorted}
use ngd_ngg_scheduling.StaticCache.{
  Encoding, printed, listed_leaves, single_leaf, static_node_leaf_ids,
}
use ngd_ngg_scheduling.Topology.{
  ResolvedLeaf, TopologyCache, Constraints, required_same, mode_layered, resolve_scope,
  resolve_domain, resolve_uplink, resolve_compatible_uplink, value_fits, leaf_matches,
  has_matching_leaf, resolve_upper, resolve_requested, find_leaves, check_shared, shared_leaf,
  resolve_node, sort_out,
}
use ngd_ngg_scheduling.Topology.Nodes.{IsResolved, sort_out-IsResolved}

program : Unit {0}
unfolding list_eq lookup insert contains text_lt has_prefix space_at space_back trim_front
    trim_space member elements as_object has_text add_text trimmed_set place sort_strings
    unique_sorted printed listed_leaves single_leaf static_node_leaf_ids resolve_scope
    resolve_domain resolve_uplink resolve_compatible_uplink value_fits leaf_matches
    has_matching_leaf resolve_upper resolve_requested find_leaves check_shared shared_leaf
    resolve_node sort_out
program = tt

abbrev leaf_of : Text → ResolvedLeaf
leaf_of id = record {
  region_id = lit "r";
  location_id = lit "l";
  data_center_id = lit "dc1";
  room_id = lit "room1";
  leaf_switch_id = id;
  leaf_domain_id = lit "ld1";
  leaf_domain_leaves = lit "leaf-1" ∷ lit "leaf-2" ∷ [];
  spine_domain_id = lit "sd1";
  border_domain_id = lit "bd1";
  spine_switch_ids = lit "spine-1" ∷ [];
  border_switch_ids = lit "border-1" ∷ [];
  uplink_domain_id = lit "sd1";
  uplink_kind = lit "spine";
  peer_leaf_ids = [];
  bandwidth_gbps = lit "100";
  latency_millis = lit "1";
}

abbrev cache : TopologyCache
cache = record {
  mode = mode_layered;
  by_leaf = (lit "leaf-1", leaf_of (lit "leaf-1")) ∷ (lit "leaf-2", leaf_of (lit "leaf-2")) ∷ [];
  data_centers = lit "dc1" ∷ [];
  rooms = lit "room1" ∷ [];
  border_aliases = (lit "border-1", lit "bd1") ∷ [];
  spine_aliases = (lit "spine-1", lit "sd1") ∷ [];
  leaf_aliases = (lit "leaf-1", lit "ld1") ∷ [];
}

abbrev requested : List (Text × Text)
requested = (lit "room", required_same) ∷ (lit "leafDomain", lit "leaf-1") ∷ []

abbrev constraints : Constraints
constraints = (lit "room", required_same) ∷ (lit "leafDomain", lit "ld1") ∷ []

abbrev no_digest : Encoding
no_digest = record { digest = λ v. []; print = λ v. [] }

-- A Node with a known leaf, and one with an unknown leaf.
abbrev node_with : Text → Fields
node_with leaf =
    field (lit "topology") (object (field (lit "leafSwitchIds") (array (cons (text leaf) nil)) end))
      end

abbrev nodes : List Fields
nodes = node_with (lit "leaf-1") ∷ node_with (lit "leaf-9") ∷ []

one_resolved : length (sort_out no_digest cache nodes).0 ≡ 1
unfolding program
one_resolved = refl

sort_out-IsResolved_example : All (IsResolved no_digest cache) (sort_out no_digest cache nodes).0
sort_out-IsResolved_example = sort_out-IsResolved no_digest cache nodes

-- ===== src/Snapshot.antt =====
-- prc/pkg/controller/snapshot.go: the topology that the controller reads from the annotations and
-- labels of a Node. The JSON decoders of the two annotations are parameters.
pub mod Leaves
pub mod Built
pub mod Before
pub mod Ordered
use ngd_ngg_scheduling.Base.{
  ℕ, Bool, true, false, not, ◌&&◌, ◌||◌, List, [], ◌∷◌, ◌++◌, map, Option, none, some,
  if◌then◌else◌, ◌==◌, lookup, ltb, length, Result, ok, err, ◌>>=◌, ◌>>◌, reject_if,
}
use ngd_ngg_scheduling.Text.{Text, text_Eq, text_lt, lit, is_empty, trim_space}
use ngd_ngg_scheduling.Sets.{unique_sorted}

pub record TopologyLink : Type 0 where
  pub bond_name : Text
  pub bond_mode : Text
  pub interface : Text
  pub leaf_switch_id : Text
  pub remote_port_id : Text
  pub active : Bool

pub record NodeTopology : Type 0 where
  pub switch_id : Text
  pub leaf_switch_id : Text
  pub leaf_switch_ids : List Text
  pub links : List TopologyLink

-- What snapshot.go reads of a Node: a condition and an address are a type and a value.
pub record KubeNode : Type 0 where
  pub name : Text
  pub uid : Text
  pub labels : List (Text × Text)
  pub annotations : List (Text × Text)
  pub conditions : List (Text × Text)
  pub addresses : List (Text × Text)

pub data Fault : Type 0 where
  undecoded_leaves undecoded_links too_many_leaves incomplete_link : Fault

-- json.Unmarshal into the two slices
pub record Decoder : Type 0 where
  pub leaves : Text → Option (List Text)
  pub links : Text → Option (List TopologyLink)

-- canonicalStrings
abbrev pub canonical_strings : List Text → List Text
canonical_strings = unique_sorted

-- A map at a key, where an absent one reads as the empty string.
unfoldable pub at_key : Text → List (Text × Text) → Text
at_key key m = elim (lookup key m) [ none ↦ [] | some value ↦ value ]

-- The annotation as a slice: empty where it is absent.
unfoldable pub decoded :
    {A : Type 0} → (Text → Option (List A)) → Fault → Text → Result Fault (List A)
decoded decode why raw =
    if is_empty raw then ok [] else elim (decode raw) [ none ↦ err why | some items ↦ ok items ]

-- The label that stands in for the annotations.
unfoldable pub label_leaf : KubeNode → Text
unfolding at_key
label_leaf node =
    let leaf = at_key (lit "topology.demo.ngg.io/leaf-switch") node.labels in
    if is_empty leaf then at_key (lit "topology.demo.ngg.io/switch") node.labels else leaf

-- `if len(leaves) == 0 && leaf != ""`
unfoldable pub or_label : Text → List Text → List Text
or_label leaf [] = if is_empty leaf then [] else leaf ∷ []
or_label leaf (x ∷ xs) = x ∷ xs

unfoldable pub trim_link : TopologyLink → TopologyLink
trim_link l = record l {
  interface = trim_space l.interface;
  leaf_switch_id = trim_space l.leaf_switch_id;
}

-- The loop that trims the links and wants both of their names.
unfoldable pub trim_links : List TopologyLink → Result Fault (List TopologyLink)
unfolding trim_link
trim_links [] = ok []
trim_links (l ∷ rest) = do
  reject_if (is_empty (trim_link l).interface || is_empty (trim_link l).leaf_switch_id)
      incomplete_link
  others ← trim_links rest
  ok (trim_link l ∷ others)

abbrev pub link_before : TopologyLink → TopologyLink → Bool
link_before a b =
    if a.interface == b.interface
    then text_lt a.leaf_switch_id b.leaf_switch_id
    else text_lt a.interface b.interface

unfoldable pub place_link : TopologyLink → List TopologyLink → List TopologyLink
place_link l [] = l ∷ []
place_link l (m ∷ ms) =
    let rest = place_link l ms in if link_before m l then m ∷ rest else l ∷ m ∷ ms

-- sort.Slice
unfoldable pub sort_links : List TopologyLink → List TopologyLink
unfolding place_link
sort_links [] = []
sort_links (l ∷ ls) = place_link l (sort_links ls)

-- The end of topologyFromNode, from the leaves in order on; none is `found == false`.
unfoldable pub with_links : List Text → List TopologyLink → Result Fault (Option NodeTopology)
unfolding trim_links sort_links
with_links [] links = ok none
with_links (first ∷ others) links = do
  reject_if (ltb 2 (length (first ∷ others))) too_many_leaves
  trimmed ← trim_links links
  ok (
      some (record {
        switch_id = first;
        leaf_switch_id = first;
        leaf_switch_ids = first ∷ others;
        links = sort_links trimmed;
      }))

-- The leaves before they are trimmed and sorted.
abbrev pub gathered_leaves : KubeNode → List Text → List TopologyLink → List Text
gathered_leaves node leaves links =
    or_label (label_leaf node) (leaves ++ map (λ l. l.leaf_switch_id) links)

module _ (D : Decoder) where
  -- topologyFromNode
  unfoldable pub topology_from_node : KubeNode → Result Fault (Option NodeTopology)
  unfolding decoded label_leaf or_label with_links at_key
  topology_from_node node = do
    leaves ←
        decoded D.leaves undecoded_leaves
          (at_key (lit "topology.demo.ngg.io/leaf-switch-ids") node.annotations)
    links ←
        decoded D.links undecoded_links
          (at_key (lit "topology.demo.ngg.io/leaf-links") node.annotations)
    with_links (canonical_strings (gathered_leaves node leaves links)) links

-- nodeReady: the first condition of the type counts.
unfoldable pub node_ready : List (Text × Text) → Bool
node_ready [] = false
node_ready ((kind, value) ∷ rest) =
    if kind == lit "Ready" then value == lit "True" else node_ready rest

-- nodeInternalIP
unfoldable pub node_internal_ip : List (Text × Text) → Text
node_internal_ip [] = []
node_internal_ip ((kind, value) ∷ rest) =
    if kind == lit "InternalIP" then trim_space value else node_internal_ip rest

-- ===== src/Tests/Snapshots.antt =====
-- Runs of the topology that is read from a Node.
use ngd_ngg_scheduling.Base.{◌≡◌, refl, true, List, [], ◌∷◌, some, list_eq, lookup}
use ngd_ngg_scheduling.Text.{Text, lit, text_lt, space_at, space_back, trim_front, trim_space}
use ngd_ngg_scheduling.Sets.{has_text, add_text, trimmed_set, place, sort_strings, unique_sorted}
use ngd_ngg_scheduling.Snapshot.{
  TopologyLink, NodeTopology, KubeNode, Decoder, at_key, decoded, label_leaf, or_label, trim_link,
  trim_links, place_link, sort_links, with_links, topology_from_node, node_ready, node_internal_ip,
}
use ngd_ngg_scheduling.StaticSnapshot.{WatchedNode}

program : Unit {0}
unfolding list_eq lookup text_lt space_at space_back trim_front trim_space has_text add_text
    trimmed_set place sort_strings unique_sorted at_key decoded label_leaf or_label trim_link
    trim_links place_link sort_links with_links topology_from_node node_ready node_internal_ip
program = tt

abbrev link : Text → Text → TopologyLink
link interface leaf = record {
  bond_name = lit "bond0";
  bond_mode = [];
  interface = interface;
  leaf_switch_id = leaf;
  remote_port_id = [];
  active = true;
}

abbrev two_links : List TopologyLink
two_links = link (lit "eth1") (lit "leaf-2 ") ∷ link (lit "eth0") (lit "leaf-1") ∷ []

-- Every annotation decodes to the leaf leaf-1 or to the two links.
abbrev decoder : Decoder
decoder = record { leaves = λ raw. some (lit "leaf-1" ∷ []); links = λ raw. some two_links }

abbrev node : KubeNode
node = record {
  name = lit "n1";
  uid = lit "i1";
  labels = [];
  annotations =
      (lit "topology.demo.ngg.io/leaf-switch-ids", lit "leaves")
      ∷ (lit "topology.demo.ngg.io/leaf-links", lit "links")
      ∷ [];
  conditions = (lit "Ready", lit "True") ∷ [];
  addresses = (lit "InternalIP", lit "10.0.0.1 ") ∷ [];
}

abbrev topology : NodeTopology
topology = record {
  switch_id = lit "leaf-1";
  leaf_switch_id = lit "leaf-1";
  leaf_switch_ids = lit "leaf-1" ∷ lit "leaf-2" ∷ [];
  links = link (lit "eth0") (lit "leaf-1") ∷ link (lit "eth1") (lit "leaf-2") ∷ [];
}

ready : node_ready node.conditions ≡ true
unfolding program
ready = refl

address : node_internal_ip node.addresses ≡ lit "10.0.0.1"
unfolding program
address = refl

abbrev same_digest : Text → Text
same_digest s = s

abbrev two_leaves : List Text
two_leaves = lit "leaf-2" ∷ lit "leaf-1" ∷ []

abbrev reordered : List Text
reordered = lit "leaf-1 " ∷ lit "leaf-2" ∷ []

abbrev watched : WatchedNode
watched = record {
  uid = lit "i1";
  labels = (lit "rack", lit "1") ∷ [];
  leaf_switch_ids = lit "leaves";
  leaf_links = [];
  allocatable = [];
}

abbrev relabelled : WatchedNode
relabelled = record watched { labels = (lit "rack", lit "2") ∷ [] }

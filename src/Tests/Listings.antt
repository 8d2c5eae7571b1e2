-- ===== src/Tests/Listings.antt =====
-- Two Nodes that are listed in both orders, and a Pod on one of them.
use mathlib.Core.List.{Permᴰ}
use ngd_ngg_scheduling.Base.{
  ◌==◌, ℕ, ◌+◌, ◌≡◌, refl, ap, ◌≢◌, true, false, List, [], ◌∷◌, ◌++◌, none, list_eq, lookup, insert,
  length, Result, ok, err,
}
use ngd_ngg_scheduling.Text.{
  Text, text_Eq, lit, text_lt, space_at, space_back, trim_front, trim_space,
}
use ngd_ngg_scheduling.Sets.{has_text, add_text, trimmed_set, place, sort_strings, unique_sorted}
use ngd_ngg_scheduling.Sets.Insertion.{place_by, sort_by, Pairwise}
use ngd_ngg_scheduling.Response.{SchedulerNodeState}
use ngd_ngg_scheduling.Snapshot.{
  Decoder, at_key, decoded, label_leaf, or_label, trim_link, trim_links, sort_links, with_links,
  topology_from_node, node_ready, node_internal_ip,
}
use ngd_ngg_scheduling.Snapshot.Built.{
  ListedNode, StaticContent, BuildError, static_node, with_found, found_topology, read_node,
  read_nodes, build_static_snapshot, Quantities, Pod, is_skipped, add_requests, add_containers,
  sum_pods, node_state, build_scheduler_state,
}
use ngd_ngg_scheduling.Snapshot.Ordered.{
  HasOtherUid, build_static_snapshot_any_order, build_scheduler_state_any_order,
}

program : Unit {0}
unfolding list_eq lookup insert text_lt space_at space_back trim_front trim_space has_text add_text
    trimmed_set place sort_strings unique_sorted place_by sort_by at_key decoded label_leaf or_label
    trim_link trim_links sort_links with_links topology_from_node node_ready node_internal_ip
    static_node with_found found_topology read_node read_nodes build_static_snapshot is_skipped
    add_requests add_containers sum_pods node_state build_scheduler_state
program = tt

abbrev labelled : Text → Text → ListedNode
labelled uid leaf = record {
  node = record {
    name = lit "n" ++ uid;
    uid = uid;
    labels = (lit "topology.demo.ngg.io/leaf-switch", leaf) ∷ [];
    annotations = [];
    conditions = (lit "Ready", lit "True") ∷ [];
    addresses = [];
  };
  created_at = lit "now";
  allocatable = [];
  unschedulable = false;
}

abbrev first : ListedNode
first = labelled (lit "1") (lit "l1")

abbrev second : ListedNode
second = labelled (lit "2") (lit "l2")

abbrev no_decoder : Decoder
no_decoder = record { leaves = λ s. none; links = λ s. none }

abbrev no_hash : StaticContent → Text
no_hash c = lit "h"

abbrev content_or :
    Text × StaticContent → Result BuildError (Text × StaticContent) → Text × StaticContent
content_or other (ok r) = r
content_or other (err why) = other

abbrev built : Text × StaticContent
built =
    content_or (lit "none", record { cluster_id = []; topology_version = []; nodes = [] })
      (build_static_snapshot no_decoder no_hash (lit "c") (second ∷ first ∷ []))

two_nodes : length built.1.nodes ≡ 2
unfolding program
two_nodes = refl

two_differs : lit "2" ≢ lit "1"
unfolding program
two_differs e = let h : false ≡ true = ap (λ s. s == lit "1") e in cc h

other_uids : Pairwise HasOtherUid (second ∷ first ∷ [])
other_uids = ((two_differs, tt), (tt, tt))

swapped : Permᴰ (second ∷ first ∷ []) (first ∷ second ∷ [])
swapped = Permᴰ.swap refl refl

build_static_snapshot_any_order_example :
    build_static_snapshot no_decoder no_hash (lit "c") (first ∷ second ∷ []) ≡ ok built
unfolding program
build_static_snapshot_any_order_example =
    build_static_snapshot_any_order no_decoder no_hash (lit "c") built swapped other_uids refl

abbrev numbers : Quantities
numbers = record { Quantity = ℕ; zero_quantity = 0; add = λ a b. a + b; print = λ n. n ∷ [] }

abbrev pod : Text → ℕ → Pod ℕ
pod phase n = record {
  phase = phase;
  node_name = lit "n1";
  containers = ((lit "cpu", n) ∷ []) ∷ ((lit "cpu", 2) ∷ []) ∷ [];
}

abbrev pods : List (Pod ℕ)
pods = pod (lit "Running") 3 ∷ pod (lit "Failed") 7 ∷ pod (lit "Pending") 1 ∷ []

-- The containers of the Pods that have not ended are summed.
summed : sum_pods numbers pods [] ≡ (lit "n1", (lit "cpu", 8) ∷ []) ∷ []
unfolding program
summed = refl

abbrev no_state_hash : List SchedulerNodeState → Text
no_state_hash s = lit "h"

build_scheduler_state_any_order_example :
    build_scheduler_state numbers no_state_hash (second ∷ first ∷ []) pods
    ≡ build_scheduler_state numbers no_state_hash (first ∷ second ∷ []) pods
build_scheduler_state_any_order_example =
    build_scheduler_state_any_order numbers no_state_hash pods swapped other_uids

-- ===== src/Tests/Caches.antt =====
-- Runs of the cache of static snapshots.
use ngd_ngg_scheduling.Base.{ℕ, zero, suc, ◌≡◌, refl, List, [], ◌∷◌, ◌++◌, none, some, list_eq}
use ngd_ngg_scheduling.Text.{
  Text, lit, text_lt, has_prefix, space_at, space_back, trim_front, trim_space,
}
use ngd_ngg_scheduling.Json.{
  Json, text, array, object, cons, nil, Fields, end, field, member, set_member, elements,
  text_items, as_object,
}
use ngd_ngg_scheduling.Sets.{has_text, add_text, trimmed_set, place, sort_strings, unique_sorted}
use ngd_ngg_scheduling.StaticCache.{
  CachedSnapshot, Encoding, get, store, canonical_hash, printed, listed_leaves, single_leaf,
  static_node_leaf_ids, with_leaves, check_node, check_all, place_node, sort_nodes, content,
  raw_nodes, build, put,
}
use ngd_ngg_scheduling.StaticCache.Versions.{IsAuthentic, get-IsAuthentic, get-store}

program : Unit {0}
unfolding list_eq text_lt has_prefix space_at space_back trim_front trim_space member set_member
    elements text_items as_object has_text add_text trimmed_set place sort_strings unique_sorted get
    store canonical_hash printed listed_leaves single_leaf static_node_leaf_ids with_leaves
    check_node check_all place_node sort_nodes content raw_nodes build put
program = tt

-- 64 zeros
abbrev zeros : ℕ → Text
zeros zero = []
zeros (suc n) = 48 ∷ zeros n

abbrev same_digest : Encoding
same_digest = record { digest = λ v. zeros 64; print = λ v. [] }

abbrev topology : Fields
topology =
    field (lit "leafSwitchIds")
      (array (cons (text (lit "leaf-2 ")) (cons (text (lit "leaf-1")) nil))) end

abbrev node_of : Text → Json
node_of uid = object (
    field (lit "nodeName") (text (lit "n"))
      (field (lit "nodeUID") (text uid) (field (lit "topology") (object topology) end)))

abbrev body : Fields
body =
    field (lit "clusterId") (text (lit "c1"))
      (field (lit "nodes") (array (cons (node_of (lit "i2")) (cons (node_of (lit "i1")) nil))) end)

abbrev identity : Text
identity = lit "sha256:" ++ zeros 64

abbrev two_leaves : List Text
two_leaves = lit "leaf-1" ∷ lit "leaf-2" ∷ []

abbrev stored : Text → Fields
unfolding program
stored uid = field (lit "nodeName") (text (lit "n")) (
    field (lit "nodeUID") (text uid)
      (field (lit "topology") (object (with_leaves same_digest two_leaves topology)) end))

abbrev snapshot : CachedSnapshot
unfolding program
snapshot = record {
  snapshot_id = identity;
  cluster_id = lit "c1";
  topology_version = [];
  nodes = stored (lit "i1") ∷ stored (lit "i2") ∷ [];
}

get-IsAuthentic_example : (identity ≡ identity) × IsAuthentic same_digest snapshot
unfolding program
get-IsAuthentic_example =
    get-IsAuthentic same_digest ((identity, body) ∷ (lit "sha256:0", body) ∷ []) identity snapshot
      refl

abbrev older : CachedSnapshot
older = record { snapshot_id = lit "old"; cluster_id = lit "c1"; topology_version = []; nodes = [] }

get-store_example :
    (get identity (store snapshot (record { current = some older; previous = none })).1
      ≡ some (store snapshot (record { current = some older; previous = none })).0)
    × (get (lit "old") (store snapshot (record { current = some older; previous = none })).1
        ≡ some older)
unfolding program snapshot
get-store_example = get-store snapshot older none

abbrev raw_leaves : List Text
raw_leaves = lit "leaf-2 " ∷ lit "leaf-1" ∷ []

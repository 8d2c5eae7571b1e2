-- ===== src/StaticCache.antt =====
-- algorithm_server/go/algorithm/cache.go: the check of a static Node snapshot that is put, and the
-- cache of its last two versions. The SHA-256 of the JSON encoding, in hexadecimal, and fmt.Sprint
-- are parameters. A mutex guards each operation, so that each is one function.
pub mod Versions
pub mod Checked
use ngd_ngg_scheduling.Base.{
  ℕ, Bool, true, false, not, ◌&&◌, ◌||◌, List, [], ◌∷◌, ◌++◌, map, Option, none, some,
  if◌then◌else◌, ◌==◌, nat_eq, ltb, length, Result, ok, err, ◌>>=◌, ◌>>◌, reject_if,
}
use ngd_ngg_scheduling.Text.{Text, text_Eq, text_lt, lit, is_empty, has_prefix}
use ngd_ngg_scheduling.Sets.{has_text, unique_sorted}
use ngd_ngg_scheduling.Json.{
  Json, null, bool, number, text, array, object, Items, Fields, end, field, member, set_member,
  elements, text_items, as_object,
}

-- staticSnapshot of algorithm_server/go/algorithm/types.go
pub record CachedSnapshot : Type 0 where
  pub snapshot_id : Text
  pub cluster_id : Text
  pub topology_version : Text
  pub nodes : List Fields

pub record StaticCache : Type 0 where
  pub current : Option CachedSnapshot
  pub previous : Option CachedSnapshot

abbrev pub empty_cache : StaticCache
empty_cache = record { current = none; previous = none }

pub data PutError : Type 0 where
  wrong_format checksum_mismatch no_nodes malformed_node malformed_topology : PutError
  leaves_not_array no_leaf too_many_leaves incomplete_node duplicate_uid : PutError

-- The functions that the cache calls.
pub record Encoding : Type 0 where
  pub digest : Json → Text
  pub print : Json → Text

-- `item != nil && item.SnapshotID == id`
abbrev pub is_version : Text → Option CachedSnapshot → Bool
is_version id none = false
is_version id (some item) = item.snapshot_id == id

unfoldable pub get : Text → StaticCache → Option CachedSnapshot
get id c =
    if is_version id c.current
    then c.current
    else if is_version id c.previous
    then c.previous
    else none

-- The end of put: the snapshot that is returned and the new cache.
unfoldable pub store : CachedSnapshot → StaticCache → CachedSnapshot × StaticCache
store snapshot c = elim c.current [
  | none ↦ (snapshot, record c { current = some snapshot })
  | some latest ↦
      if latest.snapshot_id == snapshot.snapshot_id
      then (latest, c)
      else (snapshot, record { current = some snapshot; previous = some latest })
]

abbrev pub version_id : Option CachedSnapshot → Text
version_id none = []
version_id (some item) = item.snapshot_id

-- status: ready, currentSnapshotId, previousSnapshotId and nodeCount
unfoldable pub status : StaticCache → Bool × Text × Text × ℕ
status c = elim c.current [
  | none ↦ (false, [], version_id c.previous, 0)
  | some s ↦ (true, s.snapshot_id, version_id c.previous, length s.nodes)
]

module _ (E : Encoding) where
  open E use {digest, print}

  unfoldable pub canonical_hash : Json → Text
  canonical_hash value = lit "sha256:" ++ digest value

  -- stringValue
  unfoldable pub printed : Json → Text
  printed null = []
  printed (text s) = s
  printed v = print v

  -- The `switch` over leafSwitchIds.
  unfoldable pub listed_leaves : Json → Result PutError (List Text)
  unfolding printed elements
  listed_leaves (array items) = ok (map printed (elements items))
  listed_leaves null = ok []
  listed_leaves _ = err leaves_not_array

  -- The single leaf of a topology without a list.
  unfoldable pub single_leaf : Fields → Text
  unfolding printed member
  single_leaf topology =
      let leaf = printed (member (lit "leafSwitchId") topology) in
      if is_empty leaf then printed (member (lit "switchId") topology) else leaf

  abbrev pub or_single : Fields → List Text → List Text
  or_single topology [] = single_leaf topology ∷ []
  or_single topology (x ∷ xs) = x ∷ xs

  abbrev pub no_texts : List Text → Bool
  no_texts [] = true
  no_texts (x ∷ xs) = false

  -- staticNodeLeafIDs
  unfoldable pub static_node_leaf_ids : Fields → Result PutError (List Text)
  unfolding listed_leaves single_leaf
  static_node_leaf_ids topology = do
    values ← listed_leaves (member (lit "leafSwitchIds") topology)
    let result = unique_sorted (or_single topology values)
    reject_if (no_texts result) no_leaf
    reject_if (ltb 2 (length result)) too_many_leaves
    ok result

  abbrev pub first_text : List Text → Text
  first_text [] = []
  first_text (x ∷ xs) = x

  -- The three assignments to the topology.
  unfoldable pub with_leaves : List Text → Fields → Fields
  unfolding set_member text_items
  with_leaves leaves topology = set_member (lit "switchId") (text (first_text leaves)) (
      set_member (lit "leafSwitchId") (text (first_text leaves))
        (set_member (lit "leafSwitchIds") (array (text_items leaves)) topology))

  abbrev pub object_or : PutError → Json → Result PutError Fields
  object_or why v = elim (as_object v) [ none ↦ err why | some fields ↦ ok fields ]

  abbrev pub node_uid : Fields → Text
  node_uid node = printed (member (lit "nodeUID") node)

  abbrev pub node_name : Fields → Text
  node_name node = printed (member (lit "nodeName") node)

  -- The body of the loop over the nodes up to the test of the UID.
  unfoldable pub check_node : Json → Result PutError Fields
  unfolding static_node_leaf_ids with_leaves
  check_node raw = do
    node ← object_or malformed_node raw
    topology ← object_or malformed_topology (member (lit "topology") node)
    leaves ← static_node_leaf_ids topology
    reject_if (is_empty (node_name node) || is_empty (node_uid node)) incomplete_node
    ok (set_member (lit "topology") (object (with_leaves leaves topology)) node)

  -- The loop over the nodes; `seen` holds the UIDs so far.
  unfoldable pub check_all : List Text → List Json → Result PutError (List Fields)
  unfolding check_node
  check_all seen [] = ok []
  check_all seen (raw ∷ rest) = do
    node ← check_node raw
    reject_if (has_text (node_uid node) seen) duplicate_uid
    nodes ← check_all (node_uid node ∷ seen) rest
    ok (node ∷ nodes)

  abbrev pub node_before : Fields → Fields → Bool
  node_before a b =
      if node_uid a == node_uid b
      then text_lt (node_name a) (node_name b)
      else text_lt (node_uid a) (node_uid b)

  unfoldable pub place_node : Fields → List Fields → List Fields
  place_node n [] = n ∷ []
  place_node n (m ∷ ms) =
      let rest = place_node n ms in if node_before m n then m ∷ rest else n ∷ m ∷ ms

  -- sort.Slice; the UIDs differ, so that there is only one order.
  unfoldable pub sort_nodes : List Fields → List Fields
  unfolding place_node
  sort_nodes [] = []
  sort_nodes (n ∷ ns) = place_node n (sort_nodes ns)

  -- The content whose hash is the identity.
  unfoldable pub content : Fields → Json
  unfolding printed member
  content body = object (
      field (lit "clusterId") (text (printed (member (lit "clusterId") body))) (
        field (lit "topologyVersion") (text (printed (member (lit "topologyVersion") body)))
          (field (lit "nodes") (member (lit "nodes") body) end)))

  -- `rawNodes, ok := body["nodes"].([]any); !ok || len(rawNodes) == 0`
  unfoldable pub raw_nodes : Json → Result PutError (List Json)
  unfolding elements
  raw_nodes (array Items.nil) = err no_nodes
  raw_nodes (array items) = ok (elements items)
  raw_nodes _ = err no_nodes

  -- The snapshot that put builds.
  unfoldable pub build : Text → Fields → Result PutError CachedSnapshot
  unfolding canonical_hash content raw_nodes check_all sort_nodes
  build id body = do
    reject_if (not (has_prefix id (lit "sha256:")) || not (nat_eq (length id) 71)) wrong_format
    reject_if (not (canonical_hash (content body) == id)) checksum_mismatch
    raw ← raw_nodes (member (lit "nodes") body)
    nodes ← check_all [] raw
    ok (record {
      snapshot_id = id;
      cluster_id = printed (member (lit "clusterId") body);
      topology_version = printed (member (lit "topologyVersion") body);
      nodes = sort_nodes nodes;
    })

  -- put
  unfoldable pub put : Text → Fields → StaticCache → Result PutError (CachedSnapshot × StaticCache)
  unfolding build store
  put id body c = build id body >>= λ snapshot. ok (store snapshot c)

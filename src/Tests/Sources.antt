-- ===== src/Tests/Sources.antt =====
-- A topology of one room with a pair of leaves, built and then asked for a leaf.
use ngd_ngg_scheduling.Base.{
  ◌≤◌, ◌≡◌, ◌≢◌, refl, ◌↔◌, Elem, false, [], ◌∷◌, Option, none, some, lookup, insert, contains,
  remove_all, list_eq, All, Result, ok, err, ◌>>=◌,
}
use ngd_ngg_scheduling.Text.{
  Text, text_Eq, lit, text_lt, has_prefix, space_at, space_back, trim_front, trim_space,
}
use ngd_ngg_scheduling.Text.Split.{split}
use ngd_ngg_scheduling.Sets.{
  has_text, add_text, trimmed_set, place, sort_strings, unique_sorted, equal_set,
}
use ngd_ngg_scheduling.Topology.{
  ResolvedLeaf, TopologyCache, mode_layered, resolve_scope, resolve_domain, resolve_uplink,
  resolve_compatible_uplink, value_fits, leaf_matches, has_matching_leaf, resolve_upper,
  resolve_requested,
}
use ngd_ngg_scheduling.Source.{
  LinkConfig, LeafAdjacency, RawSource, Hashing, SourceError, sorted_keys, join_dash, add_room,
  add_rooms, scope_at, scope_values, raw_to_normalized, index_from, index_scopes, check_parents,
  count_uplinks, bare_leaf, add_leaves, add_topology,
}
use ngd_ngg_scheduling.Source.Domains.{
  Leaves, matching_domains, configured_border_domain, same_uplinks, check_member, check_members,
  set_member, set_domain, pair_domain, assign_domain, assign_from, assign_leaf_domains,
  spine_domain_of, border_domain_of, with_uplink, with_domains, place_leaves,
}
use ngd_ngg_scheduling.Source.Aliases.{
  Aliases, leaf_kind, add_alias, add_aliases, kind_calls, all_calls, build_aliases,
}
use ngd_ngg_scheduling.Source.Build.{
  BuiltCache, domains_of, mode_of, build_places, build_leaves, cache_of, build_cache,
}
use ngd_ngg_scheduling.Source.Aliased.{SomeLeafNames, build_aliases_iff}
use ngd_ngg_scheduling.Source.Looked.{one_leaf, resolve_requested-build_aliases}
use ngd_ngg_scheduling.Sets.Canonical.{IsTrimmedOf}
use ngd_ngg_scheduling.Source.Paired.{IsSettled, assign_domain-IsSettled}

program : Unit {0}
unfolding list_eq lookup insert contains remove_all text_lt has_prefix space_at space_back
    trim_front trim_space split has_text add_text trimmed_set place sort_strings unique_sorted
    equal_set resolve_scope resolve_domain resolve_uplink resolve_compatible_uplink value_fits
    leaf_matches has_matching_leaf resolve_upper resolve_requested sorted_keys join_dash add_room
    add_rooms scope_at scope_values raw_to_normalized index_from index_scopes check_parents
    count_uplinks bare_leaf add_leaves add_topology matching_domains configured_border_domain
    same_uplinks check_member check_members set_member set_domain pair_domain assign_domain
    assign_from assign_leaf_domains spine_domain_of border_domain_of with_uplink with_domains
    place_leaves add_alias add_aliases kind_calls all_calls build_aliases domains_of mode_of
    build_places build_leaves cache_of build_cache
program = tt

abbrev plain_hash : Hashing
plain_hash = record { short_hash = λ ids. lit "h"; identity_hash = λ version mode source. version }

abbrev port : LinkConfig
port = record { local_port = []; peer_port = [] }

abbrev adjacency : Text → LeafAdjacency
adjacency peer = record {
  spines = (lit "spine-1", port) ∷ [];
  borders = (lit "border-1", port) ∷ [];
  leaves = (peer, port) ∷ [];
}

abbrev room : RawSource
room =
    (
      lit "r-l-d-1",
      (lit "leaf-2", adjacency (lit "leaf-1")) ∷ (lit "leaf-1", adjacency (lit "leaf-2")) ∷ [],
    )
    ∷ []

abbrev bare : Text → Text → ResolvedLeaf
bare id peer = record {
  region_id = lit "r";
  location_id = lit "r-l";
  data_center_id = lit "r-l-d";
  room_id = lit "r-l-d-1";
  leaf_switch_id = id;
  leaf_domain_id = [];
  leaf_domain_leaves = [];
  spine_domain_id = lit "spine-domain:h";
  border_domain_id = lit "border-domain:h";
  spine_switch_ids = lit "spine-1" ∷ [];
  border_switch_ids = lit "border-1" ∷ [];
  uplink_domain_id = [];
  uplink_kind = [];
  peer_leaf_ids = peer ∷ [];
  bandwidth_gbps = lit "0";
  latency_millis = lit "0";
}

abbrev paired : Text → Text → ResolvedLeaf
paired id peer = record (bare id peer) {
  leaf_domain_id = lit "pair-h";
  leaf_domain_leaves = lit "leaf-1" ∷ lit "leaf-2" ∷ [];
}

abbrev bare_leaves : Leaves
bare_leaves =
    (lit "leaf-1", bare (lit "leaf-1") (lit "leaf-2"))
    ∷ (lit "leaf-2", bare (lit "leaf-2") (lit "leaf-1"))
    ∷ []

abbrev leaves : Leaves
leaves =
    (lit "leaf-1", paired (lit "leaf-1") (lit "leaf-2"))
    ∷ (lit "leaf-2", paired (lit "leaf-2") (lit "leaf-1"))
    ∷ []

abbrev aliases : Aliases
aliases = record {
  leaf_aliases =
      (lit "pair-h", lit "pair-h")
      ∷ (lit "leaf-1", lit "pair-h")
      ∷ (lit "leaf-2", lit "pair-h")
      ∷ [];
  spine_aliases =
      (lit "spine-domain:h", lit "spine-domain:h") ∷ (lit "spine-1", lit "spine-domain:h") ∷ [];
  border_aliases =
      (lit "border-domain:h", lit "border-domain:h") ∷ (lit "border-1", lit "border-domain:h") ∷ [];
}

abbrev cache : TopologyCache
cache = record {
  mode = mode_layered;
  by_leaf = leaves;
  data_centers = lit "r-l-d" ∷ [];
  rooms = lit "r-l-d-1" ∷ [];
  border_aliases = aliases.border_aliases;
  spine_aliases = aliases.spine_aliases;
  leaf_aliases = aliases.leaf_aliases;
}

abbrev cache_in : Result SourceError BuiltCache → Option TopologyCache
cache_in (ok b) = some b.cache
cache_in (err why) = none

room_built :
    cache_in
      (raw_to_normalized room (lit "v1") >>= λ config. build_cache plain_hash config (lit "raw"))
    ≡ some cache
unfolding program
room_built = refl

build_aliases_iff_example :
    (some (lit "pair-h") ≡ some (lit "pair-h"))
    ↔ SomeLeafNames leaf_kind (lit "leaf-2") (lit "pair-h") leaves
unfolding program
build_aliases_iff_example =
    build_aliases_iff leaves aliases leaf_kind (lit "leaf-2") (lit "pair-h") refl

resolve_requested-build_aliases_example :
    resolve_requested cache (one_leaf (lit "leaf-2")) ≡ ok (one_leaf (lit "pair-h"))
unfolding program
resolve_requested-build_aliases_example =
    resolve_requested-build_aliases cache aliases (lit "leaf-2") (lit "pair-h") refl refl refl
      (λ e. cc) (λ e. cc)

assign_domain-IsSettled_example :
    ((v : Text)
      → Elem v (lit "leaf-1" ∷ lit "leaf-2" ∷ [])
        ↔ ((v ≢ []) × IsTrimmedOf v (lit "leaf-1" ∷ lit "leaf-2" ∷ [])))
    × (2 ≤ 2)
    × All
        (IsSettled mode_layered bare_leaves
          (lit "leaf-1")
          (bare (lit "leaf-1") (lit "leaf-2"))
          (lit "leaf-1" ∷ lit "leaf-2" ∷ [])
          (lit "pair-h")
          leaves)
        (lit "leaf-1" ∷ lit "leaf-2" ∷ [])
    × ((j : Text)
        → contains j (lit "leaf-1" ∷ lit "leaf-2" ∷ []) ≡ false
        → lookup j leaves ≡ lookup j bare_leaves)
unfolding program
assign_domain-IsSettled_example =
    assign_domain-IsSettled plain_hash mode_layered (lit "leaf-1")
      (bare (lit "leaf-1") (lit "leaf-2")) bare_leaves leaves refl

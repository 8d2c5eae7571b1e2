-- ===== src/Source/Build.antt =====
-- buildCache of algorithm_server/go/topology/source.go as a chain of its parts, and Status of
-- algorithm_server/go/topology/status.go.
use ngd_ngg_scheduling.Base.{
  ℕ, Bool, false, not, ◌||◌, List, [], ◌∷◌, Option, none, some, nat_eq, ltb, if◌then◌else◌, length,
  Result, ok, err, ◌>>=◌, ◌>>◌, reject_if,
}
use ngd_ngg_scheduling.Text.{Text, lit, is_empty, trim_space}
use ngd_ngg_scheduling.Sets.{add_text}
use ngd_ngg_scheduling.Topology.{ResolvedLeaf, TopologyCache, mode_layered, mode_uplink_compatible}
use ngd_ngg_scheduling.Source.{
  RawSource, NormalizedConfig, Hashing, SourceError, version_required, missing_scopes, no_path,
  unreadable, undecodable, no_room, raw_to_normalized, no_leaf, sorted_keys, index_scopes,
  check_parents, LeafTable, Places, add_topology,
}
use ngd_ngg_scheduling.Source.Domains.{Leaves, place_leaves, assign_leaf_domains}
use ngd_ngg_scheduling.Source.Aliases.{Aliases, build_aliases}

-- Cache: what the resolver reads of it, and what status reports besides.
pub record BuiltCache : Type 0 where
  pub cache : TopologyCache
  pub snapshot_id : Text
  pub version : Text
  pub source_format : Text
  pub room_count : ℕ
  pub leaf_domain_count : ℕ
  pub spine_domain_count : ℕ
  pub border_domain_count : ℕ
  pub spine_only_leaf_count : ℕ
  pub border_only_leaf_count : ℕ
  pub layered_leaf_count : ℕ

-- The keys of a map that the loops fill with domains, empty ones left out.
unfoldable pub domains_of : (ResolvedLeaf → Text) → Leaves → List Text
domains_of domain [] = []
domains_of domain ((id, leaf) ∷ rest) =
    let more = domains_of domain rest in
    if is_empty (domain leaf) then more else add_text (domain leaf) more

-- The mode of the topology: layered where every leaf has both uplinks.
unfoldable pub mode_of : LeafTable → Text
mode_of t =
    if ltb 0 t.spine_only || ltb 0 t.border_only then mode_uplink_compatible else mode_layered

module _ (H : Hashing) where
  -- The scopes of buildCache, each with its parent.
  unfoldable pub build_places : NormalizedConfig → Result SourceError Places
  build_places config = do
    regions ← index_scopes config.scopes.regions
    locations ← index_scopes config.scopes.locations
    dcs ← index_scopes config.scopes.data_centers
    rooms ← index_scopes config.scopes.rooms
    reject_if
        (nat_eq (length regions) 0
          || (nat_eq (length locations) 0 || (nat_eq (length dcs) 0 || nat_eq (length rooms) 0)))
        missing_scopes
    check_parents (λ s. s.region_id) regions locations
    check_parents (λ s. s.location_id) locations dcs
    check_parents (λ s. s.data_center_id) dcs rooms
    ok (record { locations = locations; data_centers = dcs; rooms = rooms })

  -- The leaves with all their domains.
  unfoldable pub build_leaves : NormalizedConfig → LeafTable → Result SourceError Leaves
  build_leaves config t =
      assign_leaf_domains H (mode_of t) (place_leaves H (mode_of t) config.border_domains t.by_leaf)

  -- The cache of the leaves and their aliases.
  unfoldable pub cache_of :
      NormalizedConfig → Text → Places → LeafTable → Leaves → Aliases → BuiltCache
  cache_of config source_format places t by_leaf aliases = record {
    cache = record {
      mode = mode_of t;
      by_leaf = by_leaf;
      data_centers = sorted_keys places.data_centers;
      rooms = sorted_keys places.rooms;
      border_aliases = aliases.border_aliases;
      spine_aliases = aliases.spine_aliases;
      leaf_aliases = aliases.leaf_aliases;
    };
    snapshot_id = H.identity_hash config.version (mode_of t) config.topology;
    version = config.version;
    source_format = source_format;
    room_count = length places.rooms;
    leaf_domain_count = length (domains_of (λ leaf. leaf.leaf_domain_id) by_leaf);
    spine_domain_count = length (domains_of (λ leaf. leaf.spine_domain_id) by_leaf);
    border_domain_count = length (domains_of (λ leaf. leaf.border_domain_id) by_leaf);
    spine_only_leaf_count = t.spine_only;
    border_only_leaf_count = t.border_only;
    layered_leaf_count = t.layered;
  }

  -- buildCache
  unfoldable pub build_cache : NormalizedConfig → Text → Result SourceError BuiltCache
  build_cache config source_format = do
    reject_if (is_empty (trim_space config.version)) (version_required config.version)
    places ← build_places config
    t ←
        add_topology config places (sorted_keys config.topology)
          (record { by_leaf = []; spine_only = 0; border_only = 0; layered = 0 })
    reject_if (nat_eq (length t.by_leaf) 0) no_leaf
    by_leaf ← build_leaves config t
    aliases ← build_aliases by_leaf
    ok (cache_of config source_format places t by_leaf aliases)

-- What LoadSource and LoadConfig call: os.ReadFile, the YAML decoder for either type, with known
-- fields only, and canonicalHash of a source.
pub record Loading : Type 0 where
  pub read_file : Text → Option Text
  pub decode_source : Text → Option RawSource
  pub decode_config : Text → Option NormalizedConfig
  pub source_hash : RawSource → Text

abbrev pub or_error : {A : Type 0} → SourceError → Option A → Result SourceError A
or_error why none = err why
or_error why (some a) = ok a

module _ (H : Hashing) (L : Loading) where
  -- The bytes that are given, or those of the file.
  unfoldable pub source_bytes : Text → Text → Result SourceError Text
  source_bytes path given =
      if not (is_empty given)
      then ok given
      else if is_empty (trim_space path)
      then err no_path
      else or_error unreadable (L.read_file path)

  -- LoadSource
  unfoldable pub load_source : Text → Text → Result SourceError BuiltCache
  load_source path given = do
    bytes ← source_bytes path given
    source ← or_error undecodable (L.decode_source bytes)
    reject_if (nat_eq (length source) 0) no_room
    config ← raw_to_normalized source (L.source_hash source)
    build_cache H config (lit "raw-room-adjacency")

  -- LoadConfig
  unfoldable pub load_config : Text → Text → Result SourceError BuiltCache
  load_config path given = do
    bytes ← source_bytes path given
    config ← or_error undecodable (L.decode_config bytes)
    build_cache H config (lit "normalized")

-- The values of Status that are not those of the cache itself.
pub record Status : Type 0 where
  pub ready : Bool
  pub snapshot_id : Text
  pub version : Text
  pub topology_mode : Text
  pub source_format : Text
  pub leaf_count : ℕ
  pub room_count : ℕ
  pub leaf_domain_count : ℕ
  pub spine_domain_count : ℕ
  pub border_domain_count : ℕ
  pub spine_only_leaf_count : ℕ
  pub border_only_leaf_count : ℕ
  pub layered_leaf_count : ℕ

-- Status, `none` for a nil cache.
unfoldable pub topology_status : Option BuiltCache → Status
topology_status none = record {
  ready = false;
  snapshot_id = [];
  version = [];
  topology_mode = [];
  source_format = [];
  leaf_count = 0;
  room_count = 0;
  leaf_domain_count = 0;
  spine_domain_count = 0;
  border_domain_count = 0;
  spine_only_leaf_count = 0;
  border_only_leaf_count = 0;
  layered_leaf_count = 0;
}
topology_status (some c) = record {
  ready = ltb 0 (length c.cache.by_leaf);
  snapshot_id = c.snapshot_id;
  version = c.version;
  topology_mode = c.cache.mode;
  source_format = c.source_format;
  leaf_count = length c.cache.by_leaf;
  room_count = c.room_count;
  leaf_domain_count = c.leaf_domain_count;
  spine_domain_count = c.spine_domain_count;
  border_domain_count = c.border_domain_count;
  spine_only_leaf_count = c.spine_only_leaf_count;
  border_only_leaf_count = c.border_only_leaf_count;
  layered_leaf_count = c.layered_leaf_count;
}

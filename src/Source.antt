-- ===== src/Source.antt =====
-- algorithm_server/go/topology/source.go: the topology that is built from the adjacency of rooms,
-- leaves and switches, after the YAML is decoded. A float64 is kept as printed text. A map has no
-- key twice and is an association list in some order. The hashes of strings and lists of strings,
-- which always have a JSON encoding, are parameters.
pub mod Domains
pub mod Aliases
pub mod Build
pub mod Called
pub mod Aliased
pub mod Looked
pub mod Paired
use ngd_ngg_scheduling.Base.{
  ℕ, zero, suc, ◌≡◌, Bool, true, false, not, ◌&&◌, ◌||◌, List, [], ◌∷◌, ◌++◌, map, Option, none,
  some, ltb, nat_eq, if◌then◌else◌, length, take, ◌==◌, lookup, insert, Result, ok, err, ◌>>=◌,
  ◌>>◌, reject_if, is_some, contains, remove_all,
}
use ngd_ngg_scheduling.Text.{Text, text_Eq, lit, is_empty, trim_space}
use ngd_ngg_scheduling.Text.Split.{split}
use ngd_ngg_scheduling.Sets.{sort_strings, unique_sorted, equal_set, add_text}
use ngd_ngg_scheduling.Topology.{ResolvedLeaf, TopologyCache, mode_layered, mode_uplink_compatible}

-- linkConfig
pub record LinkConfig : Type 0 where
  pub local_port : Text
  pub peer_port : Text

-- leafAdjacency
pub record LeafAdjacency : Type 0 where
  pub spines : List (Text × LinkConfig)
  pub borders : List (Text × LinkConfig)
  pub leaves : List (Text × LinkConfig)

-- rawSource: the leaves of each room.
abbrev pub RawSource : Type 0
RawSource = List (Text × List (Text × LeafAdjacency))

-- scopeConfig
pub record ScopeConfig : Type 0 where
  pub id : Text
  pub name : Text
  pub region_id : Text
  pub location_id : Text
  pub data_center_id : Text

abbrev pub Scopes : Type 0
Scopes = List (Text × ScopeConfig)

-- scopesConfig
pub record ScopesConfig : Type 0 where
  pub regions : List ScopeConfig
  pub locations : List ScopeConfig
  pub data_centers : List ScopeConfig
  pub rooms : List ScopeConfig

-- borderDomainConfig
pub record BorderDomainConfig : Type 0 where
  pub room_id : Text
  pub mode : Text
  pub members : List Text

-- leafMetricConfig
pub record LeafMetricConfig : Type 0 where
  pub bandwidth_gbps : Text
  pub latency_millis : Text

-- normalizedConfig
pub record NormalizedConfig : Type 0 where
  pub version : Text
  pub scopes : ScopesConfig
  pub border_domains : List (Text × BorderDomainConfig)
  pub leaf_metrics : List (Text × LeafMetricConfig)
  pub topology : RawSource

-- shortHash of a list of strings, and canonicalHash of the identity of a topology.
pub record Hashing : Type 0 where
  pub short_hash : List Text → Text
  pub identity_hash : Text → Text → RawSource → Text

pub data SourceError : Type 0 where
  underivable_room version_required missing_id duplicate_scope : Text → SourceError
  missing_scopes no_leaf no_path unreadable undecodable no_room : SourceError
  unknown_parent unknown_room repeated_leaf no_uplink : Text → SourceError
  large_domain unknown_peer asymmetric_peers different_rooms : Text → SourceError
  different_uplinks ambiguous_alias : Text → SourceError

-- sortedKeys
unfoldable pub sorted_keys : {V : Type 0} → List (Text × V) → List Text
sorted_keys values = sort_strings (map (λ entry. entry.0) values)

-- strings.Join with "-"
unfoldable pub join_dash : List Text → Text
join_dash [] = []
join_dash (part ∷ []) = part
join_dash (part ∷ next ∷ parts) = part ++ (b'-' ∷ join_dash (next ∷ parts))

abbrev pub no_scope : ScopeConfig
no_scope = record { id = []; name = []; region_id = []; location_id = []; data_center_id = [] }

-- The maps that rawToNormalized fills: regions, locations, data centers and rooms.
pub record ScopeMaps : Type 0 where
  pub regions : Scopes
  pub locations : Scopes
  pub data_centers : Scopes
  pub rooms : Scopes

abbrev pub first_part : List Text → Text
first_part [] = []
first_part (part ∷ parts) = part

-- One turn of the loop of rawToNormalized.
unfoldable pub add_room : Text → ScopeMaps → Result SourceError ScopeMaps
add_room room_id m =
    let parts = split b'-' room_id in
    let region_id = first_part parts in
    let location_id = join_dash (take 2 parts) in
    let data_center_id = join_dash (take 3 parts) in
    if ltb (length parts) 3
    then err (underivable_room room_id)
    else ok (record {
      regions = insert region_id (record no_scope { id = region_id }) m.regions;
      locations =
          insert location_id (record no_scope { id = location_id; region_id = region_id })
            m.locations;
      data_centers =
          insert data_center_id (record no_scope { id = data_center_id; location_id = location_id })
            m.data_centers;
      rooms =
          insert room_id (record no_scope { id = room_id; data_center_id = data_center_id })
            m.rooms;
    })

unfoldable pub add_rooms : List Text → ScopeMaps → Result SourceError ScopeMaps
add_rooms [] m = ok m
add_rooms (room_id ∷ rest) m = add_room room_id m >>= λ more. add_rooms rest more

-- `values[id]`, the zero value where there is none.
unfoldable pub scope_at : Text → Scopes → ScopeConfig
scope_at id scopes = elim (lookup id scopes) [ none ↦ no_scope | some scope ↦ scope ]

-- scopeValues
unfoldable pub scope_values : Scopes → List ScopeConfig
scope_values values = map (λ id. scope_at id values) (sorted_keys values)

-- rawToNormalized
unfoldable pub raw_to_normalized : RawSource → Text → Result SourceError NormalizedConfig
raw_to_normalized source version =
    add_rooms (sorted_keys source)
      (record { regions = []; locations = []; data_centers = []; rooms = [] })
    >>= λ m. ok (record {
      version = version;
      scopes = record {
        regions = scope_values m.regions;
        locations = scope_values m.locations;
        data_centers = scope_values m.data_centers;
        rooms = scope_values m.rooms;
      };
      border_domains = [];
      leaf_metrics = [];
      topology = source;
    })

-- The loop of indexScopes.
unfoldable pub index_from : List ScopeConfig → Scopes → Result SourceError Scopes
index_from [] scopes = ok scopes
index_from (v ∷ rest) scopes = do
  reject_if (is_empty v.id) (missing_id v.id)
  reject_if (is_some (lookup v.id scopes)) (duplicate_scope v.id)
  index_from rest (insert v.id v scopes)

-- indexScopes
unfoldable pub index_scopes : List ScopeConfig → Result SourceError Scopes
index_scopes values = index_from values []

-- A loop of buildCache over scopes: each one's parent must be there.
unfoldable pub check_parents :
    (ScopeConfig → Text) → Scopes → Scopes → Result SourceError (Unit {0})
check_parents parent parents [] = ok tt
check_parents parent parents ((id, scope) ∷ rest) =
    reject_if (not (is_some (lookup (parent scope) parents))) (unknown_parent scope.id)
    >> check_parents parent parents rest

-- How many leaves have only SPINE, only BORDER, or both uplinks, and the leaves.
pub record LeafTable : Type 0 where
  pub by_leaf : List (Text × ResolvedLeaf)
  pub spine_only : ℕ
  pub border_only : ℕ
  pub layered : ℕ

unfoldable pub count_uplinks : Bool → Bool → LeafTable → Option LeafTable
count_uplinks true true t = some (record t { layered = suc t.layered })
count_uplinks true false t = some (record t { spine_only = suc t.spine_only })
count_uplinks false true t = some (record t { border_only = suc t.border_only })
count_uplinks false false t = none

abbrev pub has_any : {V : Type 0} → List V → Bool
has_any [] = false
has_any (v ∷ vs) = true

abbrev pub metric_at : Text → List (Text × LeafMetricConfig) → LeafMetricConfig
metric_at id metrics = elim (lookup id metrics) [
  | none ↦ record { bandwidth_gbps = lit "0"; latency_millis = lit "0" }
  | some metric ↦ metric
]

abbrev pub links_at : Text → List (Text × LeafAdjacency) → LeafAdjacency
links_at id leaves = elim (lookup id leaves) [
  | none ↦ record { spines = []; borders = []; leaves = [] }
  | some links ↦ links
]

abbrev pub leaves_at : Text → RawSource → List (Text × LeafAdjacency)
leaves_at room_id topology = elim (lookup room_id topology) [ none ↦ [] | some ls ↦ ls ]

-- A leaf before its domains are known.
unfoldable pub bare_leaf :
    Text → ScopeConfig → ScopeConfig → ScopeConfig → LeafAdjacency → LeafMetricConfig → ResolvedLeaf
bare_leaf leaf_id room dc location links metric = record {
  region_id = location.region_id;
  location_id = location.id;
  data_center_id = dc.id;
  room_id = room.id;
  leaf_switch_id = leaf_id;
  leaf_domain_id = [];
  leaf_domain_leaves = [];
  spine_domain_id = [];
  border_domain_id = [];
  spine_switch_ids = sorted_keys links.spines;
  border_switch_ids = sorted_keys links.borders;
  uplink_domain_id = [];
  uplink_kind = [];
  peer_leaf_ids = sorted_keys links.leaves;
  bandwidth_gbps = metric.bandwidth_gbps;
  latency_millis = metric.latency_millis;
}

-- The maps of buildCache by which a room is placed.
pub record Places : Type 0 where
  pub locations : Scopes
  pub data_centers : Scopes
  pub rooms : Scopes

module _ (config : NormalizedConfig) where
  -- The loop over the leaves of a room, given by its scopes.
  unfoldable pub add_leaves :
      ScopeConfig
      → ScopeConfig
      → ScopeConfig
      → List (Text × LeafAdjacency)
      → List Text
      → LeafTable
      → Result SourceError LeafTable
  add_leaves room dc location leaves [] t = ok t
  add_leaves room dc location leaves (leaf_id ∷ rest) t =
      let links = links_at leaf_id leaves in
      let leaf = bare_leaf leaf_id room dc location links (metric_at leaf_id config.leaf_metrics) in
      reject_if (is_some (lookup leaf_id t.by_leaf)) (repeated_leaf leaf_id)
      >> elim (count_uplinks (has_any links.spines) (has_any links.borders) t) [
        | none ↦ err (no_uplink leaf_id)
        | some counted ↦
            add_leaves room dc location leaves rest
              (record counted { by_leaf = insert leaf_id leaf t.by_leaf })
      ]

  -- The loop over the rooms.
  unfoldable pub add_topology : Places → List Text → LeafTable → Result SourceError LeafTable
  add_topology places [] t = ok t
  add_topology places (room_id ∷ rest) t = elim (lookup room_id places.rooms) [
    | none ↦ err (unknown_room room_id)
    | some room ↦
        let dc = scope_at room.data_center_id places.data_centers in
        let location = scope_at dc.location_id places.locations in
        let leaves = leaves_at room_id config.topology in
        add_leaves room dc location leaves (sorted_keys leaves) t >>= λ more.
        add_topology places rest more
  ]

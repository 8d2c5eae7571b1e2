-- ===== src/Metrics/Binding.antt =====
-- algorithm_server/go/algorithm/metric_binding.go: the metrics that Prometheus has by the address of
-- a host, bound to the Nodes of a static snapshot. A warning is a value with its count and the
-- preview that is printed.
use ngd_ngg_scheduling.Base.{
  ℕ, ◌-◌, Bool, true, false, not, List, [], ◌∷◌, ◌++◌, map, Option, none, some, ltb, take,
  if◌then◌else◌, length, ◌==◌, lookup, insert, delete, contains, is_some,
}
use ngd_ngg_scheduling.Text.{Text, text_Eq, lit, is_empty, trim_space}
use ngd_ngg_scheduling.Sets.{sort_strings}
use ngd_ngg_scheduling.Json.{Fields, member}
use ngd_ngg_scheduling.StaticCache.{Encoding, printed}
use ngd_ngg_scheduling.Worker.{format_uint}
use ngd_ngg_scheduling.Metrics.{Floats, MetricSnapshot, Values, values_at}

abbrev pub prometheus_node_ip_label : Text
prometheus_node_ip_label = lit "paas_node_ip"

-- strings.Join with ", "
unfoldable pub join_commas : List Text → Text
join_commas [] = []
join_commas (s ∷ []) = s
join_commas (s ∷ t ∷ rest) = s ++ (lit ", " ++ join_commas (t ∷ rest))

-- previewStrings
unfoldable pub preview_strings : List Text → Text
preview_strings values =
    let items = sort_strings values in
    if ltb 10 (length items)
    then join_commas (take 10 items)
      ++ (lit " ... (+" ++ (format_uint (length items - 10) ++ lit ")"))
    else join_commas items

-- previewSet of the members of a set
abbrev pub preview_set : List Text → Text
preview_set members = preview_strings members

pub data MappingWarning : Type 0 where
  shared_ips without_ips unknown_identities ambiguous_nodes missing_nodes :
      ℕ → Text → MappingWarning

-- `if len(items) > 0 { warnings = append(…) }`
abbrev pub warned : (ℕ → Text → MappingWarning) → List Text → List MappingWarning
warned make [] = []
warned make (x ∷ xs) = make (length (x ∷ xs)) (preview_strings (x ∷ xs)) ∷ []

-- `set[value] = struct{}{}`
abbrev pub add_once : Text → List Text → List Text
add_once v set = if contains v set then set else v ∷ set

-- The maps of the first loop, over the Nodes.
pub record IpIndex : Type 0 where
  pub node_by_ip : List (Text × Text)
  pub invalid_ips : List Text
  pub nodes_without_ip : List Text

-- `previous, exists := nodeByIP[ip]; exists && previous != name`
abbrev pub is_other : Text → Option Text → Bool
is_other name none = false
is_other name (some previous) = not (previous == name)

unfoldable pub index_one : Text → Text → IpIndex → IpIndex
index_one name ip s =
    if is_empty ip
    then record s { nodes_without_ip = s.nodes_without_ip ++ (name ∷ []) }
    else if is_other name (lookup ip s.node_by_ip)
    then record s { node_by_ip = delete ip s.node_by_ip; invalid_ips = add_once ip s.invalid_ips }
    else if contains ip s.invalid_ips
    then s
    else record s { node_by_ip = insert ip name s.node_by_ip }

-- The maps of the loop over the identities.
pub record Mapping (V : Type 0) : Type 0 where
  pub mapped : List (Text × List (Text × V))
  pub unknown : List Text
  pub ambiguous : List Text

module _ (E : Encoding) (F : Floats) where
  open F use {Value}

  abbrev pub name_of : Fields → Text
  name_of node = printed E (member (lit "nodeName") node)

  abbrev pub ip_of : Fields → Text
  ip_of node = trim_space (printed E (member (lit "nodeIP") node))

  -- The first loop.
  unfoldable pub index_nodes : List Fields → IpIndex → IpIndex
  index_nodes [] s = s
  index_nodes (node ∷ rest) s = index_nodes rest (index_one (name_of node) (ip_of node) s)

  -- A turn of the loop over the identities, for an identity with the Node of its address.
  unfoldable pub bind_one : Text → List (Text × Value) → Option Text → Mapping Value → Mapping Value
  bind_one identity metrics none s = record s { unknown = s.unknown ++ (identity ∷ []) }
  bind_one identity metrics (some name) s =
      if is_some (lookup name s.mapped)
      then record s { mapped = delete name s.mapped; ambiguous = add_once name s.ambiguous }
      else if contains name s.ambiguous
      then s
      else record s { mapped = insert name metrics s.mapped }

  unfoldable pub bind_identities :
      List (Text × Text) → Values F → List Text → Mapping Value → Mapping Value
  bind_identities node_by_ip values [] s = s
  bind_identities node_by_ip values (identity ∷ rest) s =
      bind_identities node_by_ip values rest (
        bind_one identity (values_at F identity values) (lookup (trim_space identity) node_by_ip) s)

  -- The Nodes without metrics.
  unfoldable pub missing : Values F → List Fields → List Text
  missing mapped [] = []
  missing mapped (node ∷ rest) =
      let others = missing mapped rest in
      if is_some (lookup (name_of node) mapped) then others else name_of node ∷ others

  abbrev pub indexed : List Fields → IpIndex
  indexed nodes =
      index_nodes nodes (record { node_by_ip = []; invalid_ips = []; nodes_without_ip = [] })

  -- The names of the map of values, sorted.
  abbrev pub identities : Values F → List Text
  identities values = sort_strings (map (λ entry. entry.0) values)

  abbrev pub bound : List Fields → Values F → Mapping Value
  bound nodes values =
      bind_identities (indexed nodes).node_by_ip values (identities values)
        (record { mapped = []; unknown = []; ambiguous = [] })

  unfoldable pub mapping_warnings : List Fields → Values F → List MappingWarning
  mapping_warnings nodes values =
      warned shared_ips (indexed nodes).invalid_ips
      ++ (warned without_ips (indexed nodes).nodes_without_ip
          ++ (warned unknown_identities (bound nodes values).unknown
              ++ (warned ambiguous_nodes (bound nodes values).ambiguous
                  ++ warned missing_nodes (missing (bound nodes values).mapped nodes))))

  abbrev pub has_warnings : List MappingWarning → Bool
  has_warnings [] = false
  has_warnings (w ∷ ws) = true

  -- bindMetricSnapshotToNodes
  unfoldable pub bind_metric_snapshot_to_nodes :
      Option (MetricSnapshot Value)
      → List Fields
      → Text
      → Option (MetricSnapshot Value) × Bool × List MappingWarning
  bind_metric_snapshot_to_nodes none nodes identity_label = (none, false, [])
  bind_metric_snapshot_to_nodes (some s) nodes identity_label =
      if not (identity_label == prometheus_node_ip_label) then (some s, false, []) else (
        some (record s { nodes = (bound nodes s.nodes).mapped }),
        has_warnings (mapping_warnings nodes s.nodes),
        mapping_warnings nodes s.nodes,
      )

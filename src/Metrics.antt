-- ===== src/Metrics.antt =====
-- algorithm_server/go/algorithm/metrics.go: the metrics of Nodes that are queried from Prometheus and
-- kept as a snapshot. The answer to each query is a parameter of a refresh, and so are the operations
-- on float64 and the hash of the values. Messages are values, and logging is left out. Times are
-- nanoseconds; a map is an association list in some order.
pub mod Gathering
pub mod Complete
pub mod Binding
pub mod Addresses
pub mod Bound
pub mod Catalogue
use ngd_ngg_scheduling.Base.{
  ℕ, ◌+◌, Bool, true, false, not, ◌&&◌, ◌||◌, List, [], ◌∷◌, ◌++◌, map, Option, none, some, ltb,
  nat_eq, if◌then◌else◌, length, ◌==◌, lookup, insert, Result, ok, err, ◌>>=◌, is_some,
}
use ngd_ngg_scheduling.Text.{Text, text_Eq, lit, is_empty}
use ngd_ngg_scheduling.Json.{Json, as_text}

-- float64: strconv.ParseFloat, the tests for NaN and infinity, math.Max(0, x), math.Min(1, x), and
-- the two conversions of a time.
pub record Floats : Type 1 where
  pub Value : Type 0
  pub parse : Text → Option Value
  pub is_nan : Value → Bool
  pub is_infinite : Value → Bool
  pub at_least_zero : Value → Value
  pub at_most_one : Value → Value
  pub to_unix : ℕ → Value
  pub from_unix : Value → ℕ

-- metricDefinition of algorithm_server/go/algorithm/metrics_config.go
pub record MetricDefinition : Type 0 where
  pub name : Text
  pub query : Text
  pub unit : Text
  pub normalization : Text
  pub required : Bool

-- What a query of a metric may fail with; `no_series` is that of refresh.
pub data QueryError : Type 0 where
  request_failed not_vector no_series : QueryError
  duplicate_series : Text → QueryError

-- A message about a metric.
abbrev pub MetricMessage : Type 0
MetricMessage = Text × QueryError

-- lastError, where it is not empty.
pub data MetricError : Type 0 where
  required_metric : MetricMessage → MetricError
  no_node_metrics : MetricError

-- The warnings of resolve.
pub data MetricWarning : Type 0 where
  disabled not_ready stale : MetricWarning
  optional_metric : MetricMessage → MetricWarning
  last_error : MetricError → MetricWarning
  last_refresh_failed : MetricError → MetricWarning

-- An item of prometheusResponse.Data.Result.
pub record Sample : Type 0 where
  pub metric : List (Text × Text)
  pub value : List Json

-- prometheusResponse
pub record PrometheusResponse : Type 0 where
  pub status : Text
  pub result_type : Text
  pub result : List Sample

-- metricSnapshot
pub record MetricSnapshot (V : Type 0) : Type 0 where
  pub snapshot_id : Text
  pub captured_at : ℕ
  pub captured_unix : V
  pub catalogue_version : Text
  pub units : List (Text × Text)
  pub coverage : List (Text × ℕ)
  pub nodes : List (Text × List (Text × V))

-- metricsCache, without the client and the token that the queries use.
pub record MetricsCache (V : Type 0) : Type 0 where
  pub base_url : Text
  pub definitions : List MetricDefinition
  pub catalogue_version : Text
  pub node_label : Text
  pub stale_after : ℕ
  pub current : Option (MetricSnapshot V)
  pub previous : Option (MetricSnapshot V)
  pub last_error : Option MetricError
  pub last_warnings : List MetricMessage
  pub last_query : Option ℕ
  pub cpu_query : Text
  pub memory_query : Text

abbrev usage_ratio : Text → Text → MetricDefinition
usage_ratio name query = record {
  name = name;
  query = query;
  unit = lit "ratio";
  normalization = lit "ratio";
  required = true;
}

abbrev pub unless_empty : Text → Text → List MetricDefinition → List MetricDefinition
unless_empty name query rest = if is_empty query then rest else usage_ratio name query ∷ rest

-- configuredDefinitions
unfoldable pub configured_definitions : {V : Type 0} → MetricsCache V → List MetricDefinition
configured_definitions c = elim c.definitions [
  | [] ↦
      unless_empty (lit "cpuUsageRatio") c.cpu_query
        (unless_empty (lit "memoryUsageRatio") c.memory_query [])
  | d ∷ ds ↦ d ∷ ds
]

abbrev pub has_definition : List MetricDefinition → Bool
has_definition [] = false
has_definition (d ∷ ds) = true

-- enabled
unfoldable pub enabled : {V : Type 0} → MetricsCache V → Bool
enabled c = not (is_empty c.base_url) && has_definition (configured_definitions c)

module _ (F : Floats) where
  open F use {Value, parse, is_nan, is_infinite, at_least_zero, at_most_one, to_unix, from_unix}

  abbrev pub Values : Type 0
  Values = List (Text × List (Text × Value))

  abbrev pub second_text : List Json → Option Text
  second_text (first ∷ second ∷ []) = as_text second
  second_text _ = none

  -- A value that counts, normalized.
  unfoldable pub normalized : Text → Value → Option Value
  normalized normalization v =
      if is_nan v || is_infinite v
      then none
      else some
          (if normalization == lit "ratio" then at_least_zero (at_most_one v) else at_least_zero v)

  -- The name and value of an item; `none` where the loop of query goes on without it.
  unfoldable pub read_sample : Text → Text → Sample → Option (Text × Value)
  read_sample label normalization item = elim (lookup label item.metric) [
    | none ↦ none
    | some name ↦ if is_empty name then none else elim (second_text item.value) [
      | none ↦ none
      | some raw ↦ elim (parse raw) [
        | none ↦ none
        | some v ↦ elim (normalized normalization v) [ none ↦ none | some w ↦ some (name, w) ]
      ]
    ]
  ]

  -- The loop of query over the items; the names that it has seen are those of the samples.
  unfoldable pub read_samples :
      Text → Text → List Sample → List (Text × Value) → Result QueryError (List (Text × Value))
  read_samples label normalization [] samples = ok samples
  read_samples label normalization (item ∷ rest) samples =
      elim (read_sample label normalization item) [
        | none ↦ read_samples label normalization rest samples
        | some (name, v) ↦
            if is_some (lookup name samples)
            then err (duplicate_series name)
            else read_samples label normalization rest (insert name v samples)
      ]

  abbrev pub values_at : Text → Values → List (Text × Value)
  values_at name values = elim (lookup name values) [ none ↦ [] | some metrics ↦ metrics ]

  -- The last loop of query: the destination with the samples of a metric.
  unfoldable pub put_samples : Text → List (Text × Value) → Values → Values
  put_samples metric [] values = values
  put_samples metric ((name, v) ∷ rest) values =
      put_samples metric rest (insert name (insert metric v (values_at name values)) values)

  abbrev pub is_vector : PrometheusResponse → Bool
  is_vector r = (r.status == lit "success") && (r.result_type == lit "vector")

  -- query, from its answer: `none` where no response of a good status was decoded. The number of
  -- series and the destination, which stays as it was on an error.
  unfoldable pub query :
      Text → MetricDefinition → Option PrometheusResponse → Values → Result QueryError (ℕ × Values)
  query label d none values = err request_failed
  query label d (some r) values =
      if is_vector r
      then (read_samples label d.normalization r.result [] >>= λ samples.
          ok (length samples, put_samples d.name samples values))
      else err not_vector

  -- What the loop of refresh has gathered.
  pub record Gathered : Type 0 where
    pub values : Values
    pub units : List (Text × Text)
    pub coverage : List (Text × ℕ)
    pub warnings : List MetricMessage
    pub fatal : Option MetricMessage

  -- What a turn makes of an error: the end of the loop for a required metric, else a warning.
  abbrev pub missed : MetricDefinition → QueryError → Gathered → Gathered
  missed d why g =
      if d.required
      then record g { fatal = some (d.name, why) }
      else record g { warnings = g.warnings ++ ((d.name, why) ∷ []) }

  abbrev pub counted : MetricDefinition → ℕ → Gathered → Gathered
  counted d n g = record g {
    units = insert d.name d.unit g.units;
    coverage = insert d.name n g.coverage;
  }

  -- What a turn makes of the outcome of its query.
  unfoldable pub counted_in :
      MetricDefinition → Gathered → Result QueryError (ℕ × Values) → Gathered
  counted_in d g (err why) = missed d why (counted d 0 g)
  counted_in d g (ok (n, values)) =
      let more = record (counted d n g) { values = values } in
      if ltb 0 n then more else missed d no_series more

  -- One turn of the loop of refresh.
  unfoldable pub gather_one :
      Text → MetricDefinition → Option PrometheusResponse → Gathered → Gathered
  gather_one label d answer g = counted_in d g (query label d answer g.values)

  -- The loop of refresh, with the answers to the queries.
  unfoldable pub gather :
      Text
      → (MetricDefinition → Option PrometheusResponse)
      → List MetricDefinition
      → Gathered
      → Gathered
  gather label answers [] g = g
  gather label answers (d ∷ ds) g =
      let one = gather_one label d (answers d) g in
      let rest = gather label answers ds one in if is_some one.fatal then one else rest

  abbrev pub nothing_gathered : Gathered
  nothing_gathered = record { values = []; units = []; coverage = []; warnings = []; fatal = none }

  abbrev pub has_values : Values → Bool
  has_values [] = false
  has_values (v ∷ vs) = true

  -- `c.current.SnapshotID != id`
  abbrev pub replaced : Text → Option (MetricSnapshot Value) → Bool
  replaced id none = false
  replaced id (some s) = not (s.snapshot_id == id)

  -- The end of refresh: a failure keeps the snapshots.
  unfoldable pub conclude_refresh :
      (Text → Values → Text) → ℕ → Gathered → MetricsCache Value → MetricsCache Value
  conclude_refresh hash now g c =
      let told = record c { last_query = some now; last_warnings = g.warnings } in
      let id = hash c.catalogue_version g.values in
      elim g.fatal [
        | some message ↦ record told { last_error = some (required_metric message) }
        | none ↦
            if not (has_values g.values)
            then record told { last_error = some no_node_metrics }
            else record told {
              previous = if replaced id c.current then c.current else c.previous;
              current = some (record {
                snapshot_id = id;
                captured_at = now;
                captured_unix = to_unix now;
                catalogue_version = c.catalogue_version;
                units = g.units;
                coverage = g.coverage;
                nodes = g.values;
              });
              last_error = none;
            }
      ]

  -- refresh
  unfoldable pub refresh :
      (Text → Values → Text)
      → (MetricDefinition → Option PrometheusResponse)
      → ℕ
      → MetricsCache Value
      → MetricsCache Value
  refresh hash answers now c =
      conclude_refresh hash now
        (gather c.node_label answers (configured_definitions c) nothing_gathered) c

  -- What resolve returns: the snapshot, whether it is degraded, and the warnings.
  pub record Resolved : Type 0 where
    pub snapshot : Option (MetricSnapshot Value)
    pub degraded : Bool
    pub warnings : List MetricWarning

  abbrev pub error_warning : Option MetricError → MetricWarning
  error_warning none = not_ready
  error_warning (some why) = last_error why

  abbrev pub failure_warning : Option MetricError → List MetricWarning
  failure_warning none = []
  failure_warning (some why) = last_refresh_failed why ∷ []

  -- `age > c.staleAfter`
  abbrev pub is_stale : ℕ → ℕ → MetricSnapshot Value → Bool
  is_stale now stale_after s = ltb (from_unix s.captured_unix + stale_after) now

  -- resolve
  unfoldable pub resolve : ℕ → MetricsCache Value → Resolved
  resolve now c =
      let optional = map optional_metric c.last_warnings in
      if not (enabled c)
      then record { snapshot = none; degraded = true; warnings = disabled ∷ [] }
      else elim c.current [
        | none ↦ record {
          snapshot = none;
          degraded = true;
          warnings = error_warning c.last_error ∷ optional;
        }
        | some s ↦ record {
          snapshot = some s;
          degraded = is_some c.last_error || is_stale now c.stale_after s;
          warnings =
              optional
              ++ (failure_warning c.last_error
                  ++ (if is_stale now c.stale_after s then stale ∷ [] else []));
        }
      ]

-- ===== src/Tests/Measures.antt =====
-- Runs of the metrics of Nodes: one refresh, a binding to two Nodes, and a catalogue. A value is a
-- number of percents.
use ngd_ngg_scheduling.Base.{
  ℕ, ◌≡◌, refl, ◌≢◌, ◌↔◌, Bool, true, false, List, [], ◌∷◌, Option, none, some, list_eq, lookup,
  insert, delete, contains, ok, err, All,
}
use ngd_ngg_scheduling.Text.{
  Text, text_Eq, text_lt, lit, space_at, space_back, trim_front, trim_space,
}
use ngd_ngg_scheduling.Text.Decimal.{digits_value}
use ngd_ngg_scheduling.Json.{number, text, Fields, end, field, member, as_text}
use ngd_ngg_scheduling.Sets.{place, sort_strings}
use ngd_ngg_scheduling.StaticCache.{Encoding, printed}
use ngd_ngg_scheduling.Metrics.{
  Floats, MetricDefinition, Sample, PrometheusResponse, MetricSnapshot, MetricsCache,
  configured_definitions, enabled, Values, normalized, read_sample, read_samples, put_samples,
  query, counted_in, gather_one, gather, conclude_refresh, refresh, resolve,
}
use ngd_ngg_scheduling.Metrics.Gathering.{HasRequired}
use ngd_ngg_scheduling.Metrics.Complete.{Refreshes, run_refreshes, resolve-HasRequired}
use ngd_ngg_scheduling.Metrics.Binding.{
  prometheus_node_ip_label, join_commas, preview_strings, index_one, index_nodes, bind_one,
  bind_identities, missing, mapping_warnings, bind_metric_snapshot_to_nodes,
}
use ngd_ngg_scheduling.Metrics.Bound.{
  sole, metrics_of, claims_of, HasClaim, bind_metric_snapshot_to_nodes_lem, undegraded_claims,
}
use ngd_ngg_scheduling.Metrics.Catalogue.{
  MetricCatalogue, duplicate_name, check_metric, check_metrics, check_catalogue, IsSupported,
  HasDistinctNames, check_catalogue_iff,
}

program : Unit {0}
unfolding list_eq lookup insert delete contains text_lt space_at space_back trim_front trim_space
    digits_value member as_text place sort_strings printed configured_definitions enabled normalized
    read_sample read_samples put_samples query counted_in gather_one gather conclude_refresh refresh
    resolve run_refreshes join_commas preview_strings index_one index_nodes bind_one bind_identities
    missing mapping_warnings bind_metric_snapshot_to_nodes check_metric check_metrics
    check_catalogue
program = tt

abbrev percents : Floats
percents = record {
  Value = ℕ;
  parse = λ s. digits_value 0 s;
  is_nan = λ v. false;
  is_infinite = λ v. false;
  at_least_zero = λ v. v;
  at_most_one = λ v. v;
  to_unix = λ t. t;
  from_unix = λ v. v;
}

abbrev no_digest : Encoding
no_digest = record { digest = λ v. []; print = λ v. [] }

abbrev metric : Text → Bool → MetricDefinition
metric name required = record {
  name = name;
  query = lit "q";
  unit = lit "ratio";
  normalization = lit "ratio";
  required = required;
}

abbrev two_metrics : List MetricDefinition
two_metrics = metric (lit "cpu") true ∷ metric (lit "net") false ∷ []

abbrev empty_metrics : MetricsCache ℕ
empty_metrics = record {
  base_url = lit "http://p";
  definitions = two_metrics;
  catalogue_version = lit "v1";
  node_label = prometheus_node_ip_label;
  stale_after = 60;
  current = none;
  previous = none;
  last_error = none;
  last_warnings = [];
  last_query = none;
  cpu_query = [];
  memory_query = [];
}

abbrev sample : Text → Text → Sample
sample ip value = record {
  metric = (prometheus_node_ip_label, ip) ∷ [];
  value = number (lit "1") ∷ text value ∷ [];
}

abbrev cpu_samples : PrometheusResponse
cpu_samples = record {
  status = lit "success";
  result_type = lit "vector";
  result = sample (lit "10.0.0.1") (lit "25") ∷ sample (lit "10.0.0.2") (lit "50") ∷ [];
}

abbrev no_samples : PrometheusResponse
no_samples = record cpu_samples { result = [] }

-- The required metric is answered and the other one is not.
abbrev answers : MetricDefinition → Option PrometheusResponse
answers d = elim d.required [ true ↦ some cpu_samples | false ↦ none ]

abbrev one_round : Refreshes percents
one_round = (answers, 7) ∷ []

abbrev no_hash : Text → Values percents → Text
no_hash version values = lit "h1"

abbrev measured : List (Text × List (Text × ℕ))
measured = (lit "10.0.0.1", (lit "cpu", 25) ∷ []) ∷ (lit "10.0.0.2", (lit "cpu", 50) ∷ []) ∷ []

abbrev measured_snapshot : MetricSnapshot ℕ
measured_snapshot = record {
  snapshot_id = lit "h1";
  captured_at = 7;
  captured_unix = 7;
  catalogue_version = lit "v1";
  units = (lit "cpu", lit "ratio") ∷ (lit "net", lit "ratio") ∷ [];
  coverage = (lit "cpu", 2) ∷ (lit "net", 0) ∷ [];
  nodes = measured;
}

resolve-HasRequired_example : HasRequired percents two_metrics measured
unfolding program
resolve-HasRequired_example =
    resolve-HasRequired percents no_hash one_round empty_metrics 8 measured_snapshot refl refl

-- A required metric without a series keeps the cache without a snapshot.
unanswered : (refresh percents no_hash (λ d. some no_samples) 7 empty_metrics).current ≡ none
unfolding program
unanswered = refl

abbrev node : Text → Text → Fields
node name ip = field (lit "nodeName") (text name) (field (lit "nodeIP") (text ip) end)

abbrev two_nodes : List Fields
two_nodes = node (lit "n1") (lit "10.0.0.1") ∷ node (lit "n2") (lit "10.0.0.2") ∷ []

abbrev bound_snapshot : MetricSnapshot ℕ
bound_snapshot = record measured_snapshot {
  nodes = (lit "n1", (lit "cpu", 25) ∷ []) ∷ (lit "n2", (lit "cpu", 50) ∷ []) ∷ [];
}

bind_metric_snapshot_to_nodes_lem_example :
    lookup (lit "n2") bound_snapshot.nodes
    ≡ metrics_of measured (sole (claims_of no_digest percents two_nodes measured (lit "n2")))
unfolding program
bind_metric_snapshot_to_nodes_lem_example =
    bind_metric_snapshot_to_nodes_lem no_digest percents measured_snapshot bound_snapshot two_nodes
      (lit "n2") refl

undegraded_claims_example :
    (t : MetricSnapshot (Floats.Value percents)) × ((bind_metric_snapshot_to_nodes no_digest
        percents
        (some measured_snapshot)
        two_nodes
        prometheus_node_ip_label).0
      ≡ some t)
    × All (HasClaim no_digest percents two_nodes measured t.nodes) two_nodes
unfolding program
undegraded_claims_example = undegraded_claims no_digest percents measured_snapshot two_nodes refl

-- An address that two Nodes share has no metrics.
shared_address :
    (bind_metric_snapshot_to_nodes no_digest percents
      (some measured_snapshot)
      (node (lit "n1") (lit "10.0.0.1") ∷ node (lit "n2") (lit "10.0.0.1") ∷ [])
      prometheus_node_ip_label).0
    ≡ some (record measured_snapshot { nodes = [] })
unfolding program
shared_address = refl

abbrev catalogue : MetricCatalogue
catalogue = record { version = lit "v1"; node_label = []; metrics = two_metrics }

-- A name that stands twice is refused.
twice :
    check_metrics [] (metric (lit "cpu") true ∷ metric (lit "cpu") false ∷ [])
    ≡ err (duplicate_name (lit "cpu"))
unfolding program
twice = refl

check_catalogue_iff_example :
    ((accepted : MetricCatalogue) × (check_catalogue catalogue ≡ ok accepted)) ↔ (
      (lit "v1" ≢ [])
      × (two_metrics ≢ [])
      × All IsSupported two_metrics
      × HasDistinctNames two_metrics)
check_catalogue_iff_example = check_catalogue_iff catalogue

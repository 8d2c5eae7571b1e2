-- ===== src/Metrics/Catalogue.antt =====
-- algorithm_server/go/algorithm/metrics_config.go: the catalogue of the metrics that are queried, and
-- the token of the queries. The files, the JSON decoder, the embedded catalogue and the environment
-- are parameters.
use ngd_ngg_scheduling.Base.{
  ◌≡◌, refl, ◌↔◌, ◌⊎◌, inl, inr, true, false, not, ◌&&◌, ◌||◌, List, [], ◌∷◌, Option, none, some,
  if◌then◌else◌, ◌==◌, contains, Result, ok, err, ◌>>◌, reject_if, All, arith, ◌≢◌, Bool-cases,
  Result-cases,
}
use ngd_ngg_scheduling.Text.{Text, text_Eq, lit, is_empty, trim_space}
use ngd_ngg_scheduling.Metrics.{MetricDefinition, has_definition}

-- metricCatalogue
pub record MetricCatalogue : Type 0 where
  pub version : Text
  pub node_label : Text
  pub metrics : List MetricDefinition

pub data CatalogueError : Type 0 where
  unreadable undecodable incomplete_catalogue incomplete_metric : CatalogueError
  unsupported_normalization : Text → Text → CatalogueError
  duplicate_name : Text → CatalogueError

-- The tests of a definition.
unfoldable pub check_metric : MetricDefinition → Result CatalogueError (Unit {0})
check_metric d = do
  reject_if (is_empty d.name || (is_empty d.query || is_empty d.unit)) incomplete_metric
  reject_if (not (d.normalization == lit "ratio") && not (d.normalization == lit "non_negative"))
      (unsupported_normalization d.name d.normalization)

-- The loop over the definitions, with the names that it has seen.
unfoldable pub check_metrics : List Text → List MetricDefinition → Result CatalogueError (Unit {0})
check_metrics seen [] = ok tt
check_metrics seen (d ∷ ds) =
    check_metric d
    >> reject_if (contains d.name seen) (duplicate_name d.name)
    >> check_metrics (d.name ∷ seen) ds

-- `if catalogue.NodeLabel == "" { catalogue.NodeLabel = "node" }`
abbrev with_label : MetricCatalogue → MetricCatalogue
with_label c = record c { node_label = if is_empty c.node_label then lit "node" else c.node_label }

-- loadMetricCatalogue from the decoded catalogue on
unfoldable pub check_catalogue : MetricCatalogue → Result CatalogueError MetricCatalogue
check_catalogue c =
    reject_if (is_empty c.version || not (has_definition c.metrics)) incomplete_catalogue
    >> check_metrics [] c.metrics
    >> ok (with_label c)

pub data TokenError : Type 0 where
  mutually_exclusive unreadable_token empty_token : TokenError

abbrev filled : Text → Result TokenError Text
filled token = if is_empty token then err empty_token else ok token

module _ (read_file : Text → Option Text) where
  -- The file of the path, or the embedded catalogue.
  unfoldable pub catalogue_text : Text → Text → Option Text
  catalogue_text embedded path =
      if is_empty (trim_space path) then some embedded else read_file path

  -- loadMetricCatalogue
  unfoldable pub load_metric_catalogue :
      (Text → Option MetricCatalogue) → Text → Text → Result CatalogueError MetricCatalogue
  load_metric_catalogue decode embedded path = elim (catalogue_text embedded path) [
    | none ↦ err unreadable
    | some raw ↦ elim (decode raw) [ none ↦ err undecodable | some c ↦ check_catalogue c ]
  ]

  -- loadBearerToken, from the two values of the environment.
  unfoldable pub load_bearer_token : Text → Text → Result TokenError Text
  load_bearer_token direct_value path_value =
      let direct = trim_space direct_value in
      let path = trim_space path_value in
      if not (is_empty direct) && not (is_empty path)
      then err mutually_exclusive
      else if is_empty path
      then ok direct
      else elim (read_file path) [
        | none ↦ err unreadable_token
        | some raw ↦ filled (trim_space raw)
      ]

abbrev pub IsSupported : MetricDefinition → Type 0
IsSupported d =
    (d.name ≢ [])
    × (d.query ≢ [])
    × (d.unit ≢ [])
    × ((d.normalization ≡ lit "ratio") ⊎ (d.normalization ≡ lit "non_negative"))

-- No two definitions have one name.
abbrev pub HasDistinctNames : List MetricDefinition → Type 0
HasDistinctNames [] = Unit
HasDistinctNames (d ∷ ds) = All (λ e. e.name ≢ d.name) ds × HasDistinctNames ds

abbrev IsNew : List Text → MetricDefinition → Type 0
IsNew seen d = contains d.name seen ≡ false

is_empty_iff : (s : Text) → (is_empty s ≡ true) ↔ (s ≡ [])
is_empty_iff [] = (λ _. refl, λ _. refl)
is_empty_iff (x ∷ s) = (λ h. cc, λ h. cc)

check_metric_iff : (d : MetricDefinition) → (check_metric d ≡ ok tt) ↔ IsSupported d
unfolding check_metric
check_metric_iff d = ground (
  arith,
  is_empty_iff d.name,
  is_empty_iff d.query,
  is_empty_iff d.unit,
  text_Eq.beq_iff d.normalization (lit "ratio"),
  text_Eq.beq_iff d.normalization (lit "non_negative"),
)

IsNew-cons :
    (name : Text) (seen : List Text) (ds : List MetricDefinition)
    → All (IsNew (name ∷ seen)) ds ↔ (All (λ e. e.name ≢ name) ds × All (IsNew seen) ds)
unfolding contains
IsNew-cons name seen [] = (λ _. (tt, tt), λ _. tt)
IsNew-cons name seen (d ∷ ds) = ground (arith, text_Eq.beq_iff d.name name, IsNew-cons name seen ds)

abbrev AreFine : List Text → List MetricDefinition → Type 0
AreFine seen ds = All IsSupported ds × HasDistinctNames ds × All (IsNew seen) ds

check_metrics-AreFine :
    (seen : List Text) (ds : List MetricDefinition)
    → check_metrics seen ds ≡ ok tt
    → AreFine seen ds
unfolding check_metrics
check_metrics-AreFine seen [] h = (tt, tt, tt)
check_metrics-AreFine seen (d ∷ ds) h = elim (Result-cases (check_metric d)) [
  | inr (why, e) ↦ cc (rw e at h)
  | inl (u, e) ↦ elim (Bool-cases (contains d.name seen)) [
    | inl old ↦ cc (rw (e, old) at h)
    | inr new ↦
        let (all, distinct, news) = check_metrics-AreFine (d.name ∷ seen) ds (rw (e, new) at h) in
        let (apart, others) = (IsNew-cons d.name seen ds).0 news in
        (((check_metric_iff d).0 e, all), (apart, distinct), (new, others))
  ]
]

AreFine-check_metrics :
    (seen : List Text) (ds : List MetricDefinition)
    → AreFine seen ds
    → check_metrics seen ds ≡ ok tt
unfolding check_metrics
AreFine-check_metrics seen [] h = refl
AreFine-check_metrics seen (d ∷ ds) ((fine, all), (apart, distinct), (new, news)) =
    rw ((check_metric_iff d).1 fine, new)
      (AreFine-check_metrics (d.name ∷ seen) ds
        (all, distinct, (IsNew-cons d.name seen ds).1 (apart, news)))

all-IsNew : (ds : List MetricDefinition) → All (IsNew []) ds
unfolding contains
all-IsNew [] = tt
all-IsNew (d ∷ ds) = (refl, all-IsNew ds)

has_definition-ne : (ds : List MetricDefinition) → (has_definition ds ≡ true) ↔ (ds ≢ [])
has_definition-ne [] = (λ h. cc, λ n. absurd (n refl))
has_definition-ne (d ∷ ds) = (λ _ e. cc, λ _. refl)

-- A catalogue is accepted exactly if it has a version and a metric, every metric has a name, a query,
-- a unit and one of the two normalizations, and no two metrics share a name.
pub check_catalogue_iff :
    (c : MetricCatalogue)
    → ((accepted : MetricCatalogue) × (check_catalogue c ≡ ok accepted)) ↔ (
        (c.version ≢ [])
        × (c.metrics ≢ [])
        × All IsSupported c.metrics
        × HasDistinctNames c.metrics)
unfolding check_catalogue
check_catalogue_iff c = (forward, backward)
  where
    forward :
        (accepted : MetricCatalogue) × (check_catalogue c ≡ ok accepted)
        → (c.version ≢ [])
          × (c.metrics ≢ [])
          × All IsSupported c.metrics
          × HasDistinctNames c.metrics
    forward (accepted, h) =
        elim (Bool-cases (is_empty c.version || not (has_definition c.metrics))) [
          | inl e ↦ cc (rw e at h)
          | inr e ↦ elim (Result-cases (check_metrics [] c.metrics)) [
            | inr (why, f) ↦ cc (rw (e, f) at h)
            | inl (u, f) ↦
                let (all, distinct, news) = check_metrics-AreFine [] c.metrics f in
                (
                  ground (arith, is_empty_iff c.version),
                  (has_definition-ne c.metrics).0 (ground arith),
                  all,
                  distinct,
                )
          ]
        ]

    backward :
        (c.version ≢ []) × (c.metrics ≢ []) × All IsSupported c.metrics × HasDistinctNames c.metrics
        → (accepted : MetricCatalogue) × (check_catalogue c ≡ ok accepted)
    backward (named, some_metrics, all, distinct) =
        let full = (has_definition-ne c.metrics).1 some_metrics in
        let version : is_empty c.version ≡ false = ground (arith, is_empty_iff c.version) in
        (
          with_label c,
          rw
              (
                version,
                full,
                AreFine-check_metrics [] c.metrics (all, distinct, all-IsNew c.metrics),
              )
              refl,
        )

-- ===== src/Metrics/Gathering.antt =====
-- algorithm_server/go/algorithm/metrics.go: what the loop of refresh gathers.
use mathlib.Core.Path.{subst}
use ngd_ngg_scheduling.Base.{
  ℕ, ◌≡◌, refl, sym, inl, inr, true, false, List, [], ◌∷◌, Option, none, some, ltb, length,
  if◌then◌else◌, ◌==◌, lookup, insert, lookup-insert, Result, ok, err, is_some, All, arith,
  Bool-cases, ◌>>=◌,
}
use ngd_ngg_scheduling.Text.{Text, text_Eq}
use ngd_ngg_scheduling.Metrics.{
  Floats, MetricDefinition, QueryError, PrometheusResponse, Values, values_at, put_samples,
  read_samples, query, is_vector, Gathered, missed, counted_in, gather_one, gather,
}

module _ (F : Floats) where
  open F use {Value}

  -- Some Node has a value of the metric.
  abbrev pub HasMetric : Text → Values F → Type 0
  HasMetric metric values =
      (name : Text) × (is_some (lookup metric (values_at F name values)) ≡ true)

  -- The metrics of the values are metrics of the others.
  abbrev Grows : Values F → Values F → Type 0
  Grows old new = (metric : Text) → HasMetric metric old → HasMetric metric new

  values_at-insert :
      (k j : Text) (metrics : List (Text × Value)) (values : Values F)
      → values_at F j (insert k metrics values) ≡ (if j == k then metrics else values_at F j values)
  values_at-insert k j metrics values = ground (arith, lookup-insert k j metrics values)

  put_one-Grows :
      (metric name : Text) (v : Value) (values : Values F)
      → Grows values (insert name (insert metric v (values_at F name values)) values)
  put_one-Grows metric name v values m (j, h) = (
    j,
    ground (
      arith,
      text_Eq.beq_iff j name,
      text_Eq.beq_iff m metric,
      values_at-insert name j (insert metric v (values_at F name values)) values,
      lookup-insert metric m v (values_at F name values),
    ),
  )

  put_one-HasMetric :
      (metric name : Text) (v : Value) (values : Values F)
      → HasMetric metric (insert name (insert metric v (values_at F name values)) values)
  put_one-HasMetric metric name v values = (
    name,
    ground (
      arith,
      text_Eq.beq_iff name name,
      text_Eq.beq_iff metric metric,
      values_at-insert name name (insert metric v (values_at F name values)) values,
      lookup-insert metric metric v (values_at F name values),
    ),
  )

  put_samples-Grows :
      (metric : Text) (samples : List (Text × Value)) (values : Values F)
      → Grows values (put_samples F metric samples values)
  unfolding put_samples
  put_samples-Grows metric [] values m h = h
  put_samples-Grows metric ((name, v) ∷ rest) values m h =
      put_samples-Grows metric rest _ m (put_one-Grows metric name v values m h)

  put_samples-HasMetric :
      (metric : Text) (samples : List (Text × Value)) (values : Values F)
      → ltb 0 (length samples) ≡ true
      → HasMetric metric (put_samples F metric samples values)
  unfolding put_samples
  put_samples-HasMetric metric [] values h = absurd (ground arith)
  put_samples-HasMetric metric ((name, v) ∷ rest) values h =
      put_samples-Grows metric rest _ metric (put_one-HasMetric metric name v values)

  -- A query of a metric keeps what the other metrics have, and a series counts.
  abbrev Queried : MetricDefinition → Values F → Result QueryError (ℕ × Values F) → Type 0
  Queried d old (ok (n, new)) = Grows old new × (ltb 0 n ≡ true → HasMetric d.name new)
  Queried d old (err why) = Unit

  read-Queried :
      (d : MetricDefinition) (values : Values F) (x : Result QueryError (List (Text × Value)))
      → Queried d values (x >>= λ samples. ok (length samples, put_samples F d.name samples values))
  read-Queried d values (err why) = tt
  read-Queried d values (ok samples) =
      (put_samples-Grows d.name samples values, put_samples-HasMetric d.name samples values)

  query-Queried :
      (label : Text) (d : MetricDefinition) (answer : Option PrometheusResponse) (values : Values F)
      → Queried d values (query F label d answer values)
  unfolding query
  query-Queried label d none values = tt
  query-Queried label d (some r) values = elim (Bool-cases (is_vector F r)) [
    | inl e ↦ rw e (read-Queried d values (read_samples F label d.normalization r.result []))
    | inr e ↦ rw e tt
  ]

  -- A turn that goes on keeps what there is, and a required metric has a value.
  abbrev TurnDone : MetricDefinition → Values F → Gathered F → Type 0
  TurnDone d old g =
      is_some g.fatal ≡ false → Grows old g.values × (d.required ≡ true → HasMetric d.name g.values)

  missed-TurnDone :
      (d : MetricDefinition) (old : Values F) (why : QueryError) (g : Gathered F)
      → Grows old g.values
      → TurnDone d old (missed F d why g)
  missed-TurnDone d old why g grows = elim (Bool-cases d.required) [
    | inl e ↦ rw e (λ h. cc)
    | inr e ↦ rw e (λ h. (grows, λ k. cc))
  ]

  counted_in-TurnDone :
      (d : MetricDefinition) (g : Gathered F) (x : Result QueryError (ℕ × Values F))
      → Queried d g.values x
      → TurnDone d g.values (counted_in F d g x)
  unfolding counted_in
  counted_in-TurnDone d g (err why) q = missed-TurnDone d g.values why _ (λ m h. h)
  counted_in-TurnDone d g (ok (n, values)) q = elim (Bool-cases (ltb 0 n)) [
    | inl some_series ↦ rw some_series (λ h. (q.0, λ k. q.1 some_series))
    | inr no_series ↦ rw no_series (missed-TurnDone d g.values QueryError.no_series _ q.0)
  ]

  gather_one-TurnDone :
      (label : Text) (d : MetricDefinition) (answer : Option PrometheusResponse) (g : Gathered F)
      → TurnDone d g.values (gather_one F label d answer g)
  unfolding gather_one
  gather_one-TurnDone label d answer g =
      counted_in-TurnDone d g (query F label d answer g.values)
        (query-Queried label d answer g.values)

  -- Every required metric of the list has a value.
  abbrev pub HasRequired : List MetricDefinition → Values F → Type 0
  HasRequired ds values = All (λ d. d.required ≡ true → HasMetric d.name values) ds

  abbrev pub Gathers : List MetricDefinition → Values F → Gathered F → Type 0
  Gathers ds old g = Grows old g.values × HasRequired ds g.values

  -- A turn that does not end the loop leaves the rest to the others.
  gather_goes_on :
      (label : Text) (answers : MetricDefinition → Option PrometheusResponse) (d : MetricDefinition)
      (ds : List MetricDefinition) (g : Gathered F)
      → is_some (gather_one F label d (answers d) g).fatal ≡ false
      → gather F label answers (d ∷ ds) g
        ≡ gather F label answers ds (gather_one F label d (answers d) g)
  unfolding gather
  gather_goes_on label answers d ds g e = rw e refl

  gather_ended :
      (label : Text) (answers : MetricDefinition → Option PrometheusResponse) (d : MetricDefinition)
      (ds : List MetricDefinition) (g : Gathered F)
      → is_some (gather_one F label d (answers d) g).fatal ≡ true
      → is_some (gather F label answers (d ∷ ds) g).fatal ≡ true
  unfolding gather
  gather_ended label answers d ds g e = rw e e

  gather_none :
      (label : Text) (answers : MetricDefinition → Option PrometheusResponse) (g : Gathered F)
      → gather F label answers [] g ≡ g
  unfolding gather
  gather_none label answers g = refl

  -- A loop that was not ended keeps what there is, and the required metrics have values.
  pub gather-HasRequired :
      (label : Text) (answers : MetricDefinition → Option PrometheusResponse)
      (ds : List MetricDefinition) (g : Gathered F)
      → is_some (gather F label answers ds g).fatal ≡ false
      → Gathers ds g.values (gather F label answers ds g)
  gather-HasRequired label answers [] g h = rw (gather_none label answers g) (λ m k. k, tt)
  gather-HasRequired label answers (d ∷ ds) g h =
      elim (Bool-cases (is_some (gather_one F label d (answers d) g).fatal)) [
        | inl e ↦ cc (gather_ended label answers d ds g e, h)
        | inr e ↦
            let same = gather_goes_on label answers d ds g e in
            let now = gather_one-TurnDone label d (answers d) g e in
            let later =
              gather-HasRequired label answers ds (gather_one F label d (answers d) g)
                (rw same at h) in
            subst (Gathers (d ∷ ds) g.values) (sym same)
              (λ m k. later.0 m (now.0 m k), (λ k. later.0 d.name (now.1 k), later.1))
      ]

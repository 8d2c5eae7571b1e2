-- ===== src/Metrics/Complete.antt =====
-- algorithm_server/go/algorithm/metrics.go: what the snapshots of metrics hold after any refreshes.
use mathlib.Core.Path.{subst}
use ngd_ngg_scheduling.Base.{
  ℕ, ◌≡◌, refl, ap, ◌∙◌, inl, inr, false, List, [], ◌∷◌, Option, none, some, is_some, Bool-cases,
  Option-cases,
}
use ngd_ngg_scheduling.Text.{Text, text_Eq}
use ngd_ngg_scheduling.Metrics.Gathering.{HasRequired, gather-HasRequired}
use ngd_ngg_scheduling.Metrics.{
  Floats, MetricDefinition, PrometheusResponse, MetricSnapshot, MetricsCache,
  configured_definitions, enabled, Values, Gathered, nothing_gathered, has_values, conclude_refresh,
  refresh, resolve,
}

module _ (F : Floats) where
  open F use {Value}

  -- The snapshot in use, where there is one, has values of every required metric.
  abbrev pub IsComplete : MetricsCache Value → Type 0
  IsComplete c =
      (s : MetricSnapshot Value)
      → c.current ≡ some s
      → HasRequired F (configured_definitions c) s.nodes

  abbrev nodes_of : Option (MetricSnapshot Value) → Values F
  nodes_of none = []
  nodes_of (some s) = s.nodes

  conclude_refresh-IsComplete :
      (hash : Text → Values F → Text) (now : ℕ) (g : Gathered F) (c : MetricsCache Value)
      → (is_some g.fatal ≡ false → HasRequired F (configured_definitions c) g.values)
      → IsComplete c
      → IsComplete (conclude_refresh F hash now g c)
  unfolding conclude_refresh configured_definitions
  conclude_refresh-IsComplete hash now g c h p = elim (Option-cases g.fatal) [
    | inr (message, e) ↦ rw e p
    | inl e ↦ elim (Bool-cases (has_values F g.values)) [
      | inr nothing ↦ rw (e, nothing) p
      | inl something ↦
          rw (e, something)
            (λ s k.
              subst (HasRequired F (configured_definitions c)) (ap nodes_of k) (h (rw e refl)))
    ]
  ]

  refresh-IsComplete :
      (hash : Text → Values F → Text) (answers : MetricDefinition → Option PrometheusResponse)
      (now : ℕ) (c : MetricsCache Value)
      → IsComplete c
      → IsComplete (refresh F hash answers now c)
  unfolding refresh
  refresh-IsComplete hash answers now c = conclude_refresh-IsComplete hash now _ c (λ h.
      (gather-HasRequired F c.node_label answers (configured_definitions c) (nothing_gathered F)
        h).1)

  -- The configured metrics of a cache stay.
  conclude_refresh-configured_definitions :
      (hash : Text → Values F → Text) (now : ℕ) (g : Gathered F) (c : MetricsCache Value)
      → configured_definitions (conclude_refresh F hash now g c) ≡ configured_definitions c
  unfolding conclude_refresh configured_definitions
  conclude_refresh-configured_definitions hash now g c = elim (Option-cases g.fatal) [
    | inr (message, e) ↦ rw e refl
    | inl e ↦ elim (Bool-cases (has_values F g.values)) [
      | inr nothing ↦ rw (e, nothing) refl
      | inl something ↦ rw (e, something) refl
    ]
  ]

  -- The refreshes of a process, each with the answers to its queries and its time.
  abbrev pub Refreshes : Type 0
  Refreshes = List ((MetricDefinition → Option PrometheusResponse) × ℕ)

  unfoldable pub run_refreshes :
      (Text → Values F → Text) → Refreshes → MetricsCache Value → MetricsCache Value
  run_refreshes hash [] c = c
  run_refreshes hash ((answers, now) ∷ rest) c =
      run_refreshes hash rest (refresh F hash answers now c)

  run_refreshes-IsComplete :
      (hash : Text → Values F → Text) (rounds : Refreshes) (c : MetricsCache Value)
      → IsComplete c
      → IsComplete (run_refreshes hash rounds c)
  unfolding run_refreshes
  run_refreshes-IsComplete hash [] c p = p
  run_refreshes-IsComplete hash ((answers, now) ∷ rest) c p =
      run_refreshes-IsComplete hash rest _ (refresh-IsComplete hash answers now c p)

  run_refreshes-configured_definitions :
      (hash : Text → Values F → Text) (rounds : Refreshes) (c : MetricsCache Value)
      → configured_definitions (run_refreshes hash rounds c) ≡ configured_definitions c
  unfolding run_refreshes refresh
  run_refreshes-configured_definitions hash [] c = refl
  run_refreshes-configured_definitions hash ((answers, now) ∷ rest) c =
      run_refreshes-configured_definitions hash rest _
      ∙ conclude_refresh-configured_definitions hash now _ c

  resolve-current :
      (now : ℕ) (c : MetricsCache Value) (s : MetricSnapshot Value)
      → (resolve F now c).snapshot ≡ some s
      → c.current ≡ some s
  unfolding resolve
  resolve-current now c s h = elim (Bool-cases (enabled c)) [
    | inr off ↦ cc (rw off at h)
    | inl on ↦ elim (Option-cases c.current) [
      | inl e ↦ cc (rw (on, e) at h)
      | inr (t, e) ↦ e ∙ (rw (on, e) at h)
    ]
  ]

  -- After any refreshes, whatever was answered to their queries, of a cache that had no snapshot at
  -- first: a snapshot that `resolve` hands out holds a value of each required configured metric for
  -- some Node.
  pub resolve-HasRequired :
      (hash : Text → Values F → Text) (rounds : Refreshes) (c : MetricsCache Value) (now : ℕ)
      (s : MetricSnapshot Value)
      → c.current ≡ none
      → (resolve F now (run_refreshes hash rounds c)).snapshot ≡ some s
      → HasRequired F (configured_definitions c) s.nodes
  resolve-HasRequired hash rounds c now s start h =
      let end = run_refreshes hash rounds c in
      subst (λ ds. HasRequired F ds s.nodes) (run_refreshes-configured_definitions hash rounds c)
        (run_refreshes-IsComplete hash rounds c (λ t e. cc (e, start)) s
          (resolve-current now end s h))

-- ===== src/Metrics/Bound.antt =====
-- algorithm_server/go/algorithm/metric_binding.go: which Node has the metrics of which address.
use mathlib.Core.Path.{subst}
use ngd_ngg_scheduling.Base.{
  ℕ, ◌≡◌, refl, sym, ap, ◌∙◌, inl, inr, Bool, true, false, List, [], ◌∷◌, ◌++◌, Option, none, some,
  if◌then◌else◌, ◌==◌, lookup, contains, lookup-insert, lookup-delete, is_some, arith, Bool-cases,
  All, All-map, ==_refl,
}
use ngd_ngg_scheduling.Text.{Text, text_Eq, trim_space}
use ngd_ngg_scheduling.Json.{Fields}
use ngd_ngg_scheduling.StaticCache.{Encoding}
use ngd_ngg_scheduling.Metrics.{Floats, MetricSnapshot, Values, values_at}
use ngd_ngg_scheduling.Metrics.Addresses.{
  contains-add_once, append_one, append_none, node_of, indexed_lem,
}
use ngd_ngg_scheduling.Metrics.Binding.{
  prometheus_node_ip_label, Mapping, name_of, bind_one, bind_identities, indexed, identities, bound,
  bind_metric_snapshot_to_nodes, missing, MappingWarning, shared_ips, without_ips,
  unknown_identities, ambiguous_nodes, missing_nodes, warned, has_warnings, mapping_warnings,
}

-- The only member of a list.
unfoldable pub sole : List Text → Option Text
sole (x ∷ []) = some x
sole _ = none

abbrev several : List Text → Bool
several [] = false
several (x ∷ []) = false
several (x ∷ y ∷ xs) = true

-- The Node is that of the name.
abbrev is_name : Text → Option Text → Bool
is_name name none = false
is_name name (some n) = n == name

-- The identities whose Node has the name.
unfoldable pub claimants : (Text → Option Text) → Text → List Text → List Text
claimants owner name [] = []
claimants owner name (identity ∷ rest) =
    let others = claimants owner name rest in
    if is_name name (owner identity) then identity ∷ others else others

abbrev pub metrics_of :
    {V : Type 0} → List (Text × List (Text × V)) → Option Text → Option (List (Text × V))
metrics_of values none = none
metrics_of values (some identity) =
    some (elim (lookup identity values) [ none ↦ [] | some metrics ↦ metrics ])

module _ (E : Encoding) (F : Floats) where
  open F use {Value}

  -- What the maps of the loop over the identities say of a name, from the identities that it had.
  abbrev Tallied : Values F → Text → List Text → Mapping Value → Type 0
  Tallied values name claims m =
      (lookup name m.mapped ≡ metrics_of values (sole claims))
      × (contains name m.ambiguous ≡ several claims)

  bind_one-same :
      (values : Values F) (name identity : Text) (claims : List Text) (m : Mapping Value)
      → Tallied values name claims m
      → Tallied values name
          (claims ++ identity ∷ [])
          (bind_one E F identity (values_at F identity values) (some name) m)
  unfolding bind_one sole
  bind_one-same values name identity [] m (found, twice) = ground (
    arith,
    text_Eq.beq_iff name name,
    lookup-insert name name (values_at F identity values) m.mapped,
  )
  bind_one-same values name identity (x ∷ []) m (found, twice) = ground (
    arith,
    text_Eq.beq_iff name name,
    lookup-delete name name m.mapped,
    contains-add_once name name m.ambiguous,
  )
  bind_one-same values name identity (x ∷ y ∷ claims) m (found, twice) = ground arith

  bind_one-other :
      (values : Values F) (name identity : Text) (metrics : List (Text × Value)) (o : Option Text)
      (claims : List Text) (m : Mapping Value)
      → is_name name o ≡ false
      → Tallied values name claims m
      → Tallied values name claims (bind_one E F identity metrics o m)
  unfolding bind_one
  bind_one-other values name identity metrics none claims m h t = t
  bind_one-other values name identity metrics (some n) claims m h (found, twice) = ground (
    arith,
    text_Eq.beq_iff n name,
    text_Eq.beq_iff name n,
    lookup-insert n name metrics m.mapped,
    lookup-delete n name m.mapped,
    contains-add_once name n m.ambiguous,
  )

  is_name-eq : (name : Text) (o : Option Text) → is_name name o ≡ true → o ≡ some name
  is_name-eq name none h = cc
  is_name-eq name (some n) h = ap some ((text_Eq.beq_iff n name).0 h)

  bind_identities_lem :
      (index : List (Text × Text)) (values : Values F) (name : Text) (ids claims : List Text)
      (m : Mapping Value)
      → Tallied values name claims m
      → Tallied values name
          (claims ++ claimants (λ identity. lookup (trim_space identity) index) name ids)
          (bind_identities E F index values ids m)
  unfolding claimants bind_identities
  bind_identities_lem index values name [] claims m t = rw (append_none claims) t
  bind_identities_lem index values name (id ∷ rest) claims m t =
      let owner = lookup (trim_space id) index in
      elim (Bool-cases (is_name name owner)) [
        | inl e ↦
            let once =
              subst
                (λ o.
                  Tallied values name (claims ++ id ∷ [])
                    (bind_one E F id (values_at F id values) o m))
                (sym (is_name-eq name owner e)) (bind_one-same values name id claims m t) in
            let later =
              bind_identities_lem index values name rest (claims ++ id ∷ [])
                (bind_one E F id (values_at F id values) owner m) once in
            rw e (
              rw
                (append_one claims id
                  (claimants (λ identity. lookup (trim_space identity) index) name rest))
                at later)
        | inr e ↦ rw e (
            bind_identities_lem index values name rest claims _
              (bind_one-other values name id (values_at F id values) owner claims m e t))
      ]

  claimants-ap :
      (f g : Text → Option Text) (name : Text) (ids : List Text)
      → ((id : Text) → f id ≡ g id)
      → claimants f name ids ≡ claimants g name ids
  unfolding claimants
  claimants-ap f g name [] h = refl
  claimants-ap f g name (id ∷ rest) h = rw (h id, claimants-ap f g name rest h) refl

  -- The identities of the values whose address leads to the Node.
  abbrev pub claims_of : List Fields → Values F → Text → List Text
  claims_of nodes values name =
      claimants (λ identity. node_of E F nodes (trim_space identity)) name (identities E F values)

  bound_lem :
      (nodes : List Fields) (values : Values F) (name : Text)
      → lookup name (bound E F nodes values).mapped
        ≡ metrics_of values (sole (claims_of nodes values name))
  unfolding lookup contains sole
  bound_lem nodes values name =
      (bind_identities_lem (indexed E F nodes).node_by_ip values name (identities E F values) [] _
        (refl, refl)).0
      ∙ ap (λ claims. metrics_of values (sole claims))
          (claimants-ap _ _ name (identities E F values)
            (λ id. indexed_lem E F nodes (trim_space id)))

  -- Where the identities are the addresses of Nodes, a Node name has metrics in the bound snapshot
  -- exactly if one identity of the snapshot leads to it, and then those of that identity. An identity
  -- leads to a name if its trimmed text is not empty and the Nodes of the static snapshot with that
  -- address, of which there is one at least, all have the name.
  pub bind_metric_snapshot_to_nodes_lem :
      (s t : MetricSnapshot Value) (nodes : List Fields) (name : Text)
      → (bind_metric_snapshot_to_nodes E F (some s) nodes prometheus_node_ip_label).0 ≡ some t
      → lookup name t.nodes ≡ metrics_of s.nodes (sole (claims_of nodes s.nodes name))
  unfolding bind_metric_snapshot_to_nodes
  bind_metric_snapshot_to_nodes_lem s t nodes name h =
      sym (ap (λ o. bound_metrics o) (rw (==_refl prometheus_node_ip_label) at h))
      ∙ bound_lem nodes s.nodes name
    where
      bound_metrics : Option (MetricSnapshot Value) → Option (List (Text × Value))
      bound_metrics none = none
      bound_metrics (some u) = lookup name u.nodes

  missing-none :
      (mapped : Values F) (nodes : List Fields)
      → missing E F mapped nodes ≡ []
      → All (λ node. is_some (lookup (name_of E F node) mapped) ≡ true) nodes
  unfolding missing
  missing-none mapped [] h = tt
  missing-none mapped (node ∷ rest) h =
      elim (Bool-cases (is_some (lookup (name_of E F node) mapped))) [
        | inl e ↦ (e, missing-none mapped rest (rw e at h))
        | inr e ↦ cc (rw e at h)
      ]

  -- Exactly one identity of the values leads to the Node, and the Node has its metrics in the bound
  -- ones.
  abbrev pub HasClaim : List Fields → Values F → Values F → Fields → Type 0
  HasClaim nodes values done node =
      (identity : Text) × (sole (claims_of nodes values (name_of E F node)) ≡ some identity)
      × (lookup (name_of E F node) done ≡ metrics_of values (some identity))

  sole-some :
      (values : Values F) (o : Option Text)
      → is_some (metrics_of values o) ≡ true
      → (identity : Text) × (o ≡ some identity)
  sole-some values none h = cc
  sole-some values (some identity) h = (identity, refl)

  warned-none : (w : ℕ → Text → MappingWarning) (xs : List Text) → warned w xs ≡ [] → xs ≡ []
  warned-none w [] h = refl
  warned-none w (x ∷ xs) h = cc

  append-nil : {A : Type 0} (xs ys : List A) → xs ++ ys ≡ [] → ys ≡ []
  append-nil [] ys h = h
  append-nil (x ∷ xs) ys h = cc

  unwarned : (ws : List MappingWarning) → has_warnings E F ws ≡ false → ws ≡ []
  unwarned [] h = refl
  unwarned (w ∷ ws) h = cc

  mapping_warnings-missing :
      (nodes : List Fields) (values : Values F)
      → mapping_warnings E F nodes values ≡ []
      → missing E F (bound E F nodes values).mapped nodes ≡ []
  unfolding mapping_warnings
  mapping_warnings-missing nodes values h =
      let index = indexed E F nodes in
      let m = bound E F nodes values in
      let last = warned missing_nodes (missing E F m.mapped nodes) in
      let fourth = warned ambiguous_nodes m.ambiguous ++ last in
      let third = warned unknown_identities m.unknown ++ fourth in
      let second = warned without_ips index.nodes_without_ip ++ third in
      warned-none missing_nodes (missing E F m.mapped nodes) (
        append-nil (warned ambiguous_nodes m.ambiguous) last (
          append-nil (warned unknown_identities m.unknown) fourth (
            append-nil (warned without_ips index.nodes_without_ip) third
              (append-nil (warned shared_ips index.invalid_ips) second h))))

  -- Where the identities are the addresses of Nodes, a binding that is not degraded hands out a
  -- snapshot that has metrics for every Node of the static snapshot: exactly one identity leads to
  -- the Node, and its metrics stand under the Node's name.
  pub undegraded_claims :
      (s : MetricSnapshot Value) (nodes : List Fields)
      → (bind_metric_snapshot_to_nodes E F (some s) nodes prometheus_node_ip_label).1 ≡ false
      → (t : MetricSnapshot Value) × ((bind_metric_snapshot_to_nodes E F
            (some s)
            nodes
            prometheus_node_ip_label).0
          ≡ some t)
        × All (HasClaim nodes s.nodes t.nodes) nodes
  unfolding bind_metric_snapshot_to_nodes
  undegraded_claims s nodes h =
      let silent =
        unwarned (mapping_warnings E F nodes s.nodes)
          (rw (==_refl prometheus_node_ip_label) at h) in
      let m = (bound E F nodes s.nodes).mapped in
      (
        record s { nodes = m },
        rw (==_refl prometheus_node_ip_label) refl,
        All-map _ (HasClaim nodes s.nodes m)
            (λ node e.
              claimed node
                (sole-some s.nodes _ (rw (bound_lem nodes s.nodes (name_of E F node)) at e)))
            nodes (missing-none m nodes (mapping_warnings-missing nodes s.nodes silent)),
      )
    where
      claimed :
          (node : Fields)
          → (identity : Text) × (sole (claims_of nodes s.nodes (name_of E F node)) ≡ some identity)
          → HasClaim nodes s.nodes (bound E F nodes s.nodes).mapped node
      claimed node (identity, e) =
          (identity, e, bound_lem nodes s.nodes (name_of E F node) ∙ ap (metrics_of s.nodes) e)

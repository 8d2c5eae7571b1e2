-- ===== src/Source/Looked.antt =====
-- The resolver of algorithm_server/go/topology/constraints.go on a topology that buildCache has
-- built: every alias that is known can be asked for.
use ngd_ngg_scheduling.Base.{
  ◌≡◌, ◌≢◌, refl, inl, inr, true, List, [], ◌∷◌, none, some, ◌==◌, lookup, insert, ok, arith,
  Bool-cases, list_eq, ◌&&◌,
}
use ngd_ngg_scheduling.Text.{Text, text_Eq, lit}
use ngd_ngg_scheduling.Topology.{
  ResolvedLeaf, TopologyCache, required_same, domain_of, mode_uplink_compatible, resolve_scope,
  resolve_domain, resolve_uplink, resolve_compatible_uplink, resolve_upper, leaf_matches,
  value_fits, has_matching_leaf, resolve_requested,
}
use ngd_ngg_scheduling.Source.Domains.{Leaves}
use ngd_ngg_scheduling.Source.Aliases.{Aliases, leaf_kind, build_aliases}
use ngd_ngg_scheduling.Source.Called.{found}
use ngd_ngg_scheduling.Source.Aliased.{SomeLeafNames, build_aliases_iff}

-- The constraint of a request for one leaf domain.
abbrev pub one_leaf : Text → List (Text × Text)
one_leaf value = (lit "leafDomain", value) ∷ []

leaf_matches-one_leaf :
    (leaf : ResolvedLeaf) (domain : Text)
    → leaf_matches leaf (one_leaf domain) ≡ (value_fits (some leaf.leaf_domain_id) domain && true)
unfolding leaf_matches lookup list_eq
leaf_matches-one_leaf leaf domain = refl

named_matches :
    (domain alias : Text) (by_leaf : Leaves)
    → domain ≢ required_same
    → SomeLeafNames leaf_kind alias domain by_leaf
    → has_matching_leaf by_leaf (one_leaf domain) ≡ true
unfolding has_matching_leaf value_fits
named_matches domain alias [] other h = absurd h
named_matches domain alias ((id, leaf) ∷ rest) other h = rw (leaf_matches-one_leaf leaf domain) (
    ground (
      arith,
      text_Eq.beq_iff leaf.leaf_domain_id domain,
      text_Eq.beq_iff domain required_same,
      named_matches domain alias rest other,
    ))

-- The request has no other level.
other_levels :
    (value : Text)
    → (lookup (lit "dataCenter") (one_leaf value) ≡ none)
      × (lookup (lit "room") (one_leaf value) ≡ none)
      × (lookup (lit "spineDomain") (one_leaf value) ≡ none)
      × (lookup (lit "borderDomain") (one_leaf value) ≡ none)
      × (lookup (lit "leafDomain") (one_leaf value) ≡ some value)
unfolding lookup list_eq
other_levels value = (refl, refl, refl, refl, refl)

module _ (constraints requested : List (Text × Text)) (level : Text)
    (absent : lookup level requested ≡ none) where
  scope_unchanged :
      (known : List Text) → resolve_scope constraints requested level known ≡ ok constraints
  unfolding resolve_scope
  scope_unchanged known = rw (absent, resolve_scope) refl

  domain_unchanged :
      (aliases : List (Text × Text))
      → resolve_domain constraints requested level aliases ≡ ok constraints
  unfolding resolve_domain
  domain_unchanged aliases = rw (absent, resolve_domain) refl

  uplink_unchanged :
      (aliases : List (Text × Text))
      → resolve_uplink constraints requested level aliases ≡ ok constraints
  unfolding resolve_uplink
  uplink_unchanged aliases = rw (absent, resolve_uplink) refl

upper_unchanged :
    (c : TopologyCache) (constraints : List (Text × Text)) (value : Text)
    → resolve_upper c constraints (one_leaf value) ≡ ok constraints
unfolding resolve_upper resolve_compatible_uplink
upper_unchanged c constraints value =
    let (center, room, spine, border, leaf) = other_levels value in
    elim (Bool-cases (c.mode == mode_uplink_compatible)) [
      | inl e ↦
          rw
            (
              e,
              uplink_unchanged constraints (one_leaf value) (lit "spineDomain") spine
                  c.spine_aliases,
              uplink_unchanged constraints (one_leaf value) (lit "borderDomain") border
                  c.border_aliases,
            )
            refl
      | inr e ↦
          rw
            (
              e,
              domain_unchanged constraints (one_leaf value) (lit "spineDomain") spine
                  c.spine_aliases,
              domain_unchanged constraints (one_leaf value) (lit "borderDomain") border
                  c.border_aliases,
            )
            refl
    ]

domain_known :
    (level value domain : Text) (aliases : List (Text × Text))
    → lookup value aliases ≡ some domain
    → domain_of level value aliases ≡ ok domain
domain_known level value domain aliases h = rw (h, domain_of) refl

leaf_resolved :
    (c : TopologyCache) (alias domain : Text)
    → lookup alias c.leaf_aliases ≡ some domain
    → alias ≢ required_same
    → resolve_domain [] (one_leaf alias) (lit "leafDomain") c.leaf_aliases ≡ ok (one_leaf domain)
unfolding resolve_domain insert
leaf_resolved c alias domain known plain =
    let (center, room, spine, border, leaf) = other_levels alias in
    elim (Bool-cases (alias == required_same)) [
      | inl e ↦ absurd (plain ((text_Eq.beq_iff alias required_same).0 e))
      | inr e ↦
          rw (leaf, resolve_domain)
            (rw (e, domain_known (lit "leafDomain") alias domain c.leaf_aliases known) refl)
    ]

-- In a topology whose aliases were built of its leaves, a label that names a leaf switch or a leaf
-- domain resolves to the domain of that alias, and never conflicts: some leaf matches it.
pub resolve_requested-build_aliases :
    (c : TopologyCache) (aliases : Aliases) (alias domain : Text)
    → build_aliases c.by_leaf ≡ ok aliases
    → c.leaf_aliases ≡ aliases.leaf_aliases
    → found leaf_kind alias aliases ≡ some domain
    → alias ≢ required_same
    → domain ≢ required_same
    → resolve_requested c (one_leaf alias) ≡ ok (one_leaf domain)
unfolding resolve_requested
resolve_requested-build_aliases c aliases alias domain built same known plain plain' =
    let (center, room, spine, border, leaf) = other_levels alias in
    let matches =
      named_matches domain alias c.by_leaf plain'
        ((build_aliases_iff c.by_leaf aliases leaf_kind alias domain built).0 known) in
    rw
      (
        scope_unchanged [] (one_leaf alias) (lit "dataCenter") center c.data_centers,
        scope_unchanged [] (one_leaf alias) (lit "room") room c.rooms,
        leaf_resolved c alias domain (rw same known) plain,
        upper_unchanged c (one_leaf domain) alias,
        matches,
      )
      refl

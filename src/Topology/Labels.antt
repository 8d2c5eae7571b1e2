-- ===== src/Topology/Labels.antt =====
-- The constraints of a demand and the leaves that fit them.
use ngd_ngg_scheduling.Base.{
  ◌≡◌, refl, ◌≢◌, ◌↔◌, ◌⊎◌, inl, inr, true, List, [], ◌∷◌, Option, none, some, arith, All, lookup,
  Bool-cases, ok,
}
use ngd_ngg_scheduling.Text.{Text, text_Eq, is_empty}
use ngd_ngg_scheduling.Topology.{
  ResolvedLeaf, TopologyCache, Constraints, required_same, leaf_values, value_fits, leaf_matches,
  has_matching_leaf, resolve_requested,
}

-- The value of the leaf, where it has the level: not empty for requiredSame, else the expected one.
abbrev pub Fits : Option Text → Text → Type 0
Fits none expected = Unit
Fits (some actual) expected =
    ((expected ≡ required_same) × (actual ≢ []))
    ⊎ ((expected ≢ required_same) × (actual ≡ expected))

abbrev pub LeafFits : ResolvedLeaf → Text × Text → Type 0
LeafFits leaf c = Fits (lookup c.0 (leaf_values leaf)) c.1

is_empty_iff : (s : Text) → (is_empty s ≡ true) ↔ (s ≡ [])
is_empty_iff [] = (λ _. refl, λ _. refl)
is_empty_iff (x ∷ s) = (λ h. cc, λ h. cc)

value_fits_iff : (o : Option Text) (e : Text) → (value_fits o e ≡ true) ↔ Fits o e
unfolding value_fits
value_fits_iff none e = (λ _. tt, λ _. refl)
value_fits_iff (some a) e = (
  λ h. elim (Bool-cases (text_Eq.beq e required_same)) [
    | inl t ↦ inl ((text_Eq.beq_iff e required_same).0 t, λ z. ground (arith, is_empty_iff a))
    | inr f ↦
        inr (
          λ z. ground (arith, text_Eq.beq_iff e required_same),
          ground (arith, text_Eq.beq_iff a e),
        )
  ],
  λ h. elim h [
    | inl (t, n) ↦ ground (arith, n, text_Eq.beq_iff e required_same, is_empty_iff a)
    | inr (n, t) ↦ ground (arith, n, text_Eq.beq_iff e required_same, text_Eq.beq_iff a e)
  ],
)

-- A leaf matches the constraints exactly when it fits each of them: at a level that leaves have, it
-- has the expected value, or for requiredSame any value that is not empty.
pub leaf_matches_iff :
    (leaf : ResolvedLeaf) (constraints : Constraints)
    → (leaf_matches leaf constraints ≡ true) ↔ All (LeafFits leaf) constraints
unfolding leaf_matches
leaf_matches_iff leaf [] = (λ _. tt, λ _. refl)
leaf_matches_iff leaf ((level, expected) ∷ rest) =
    ground
      (arith, value_fits_iff (lookup level (leaf_values leaf)) expected, leaf_matches_iff leaf rest)

-- Some leaf of the map matches.
abbrev pub SomeLeaf : Constraints → List (Text × ResolvedLeaf) → Type 0
SomeLeaf constraints [] = ⊥
SomeLeaf constraints ((id, leaf) ∷ rest) =
    All (LeafFits leaf) constraints ⊎ SomeLeaf constraints rest

has_matching_leaf_lem :
    (by_leaf : List (Text × ResolvedLeaf)) (constraints : Constraints)
    → has_matching_leaf by_leaf constraints ≡ true
    → SomeLeaf constraints by_leaf
unfolding has_matching_leaf
has_matching_leaf_lem [] constraints h = cc
has_matching_leaf_lem ((id, leaf) ∷ rest) constraints h =
    elim (Bool-cases (leaf_matches leaf constraints)) [
      | inl t ↦ inl ((leaf_matches_iff leaf constraints).0 t)
      | inr f ↦ inr (has_matching_leaf_lem rest constraints (ground arith))
    ]

-- Constraints that are resolved select at least one leaf of the topology.
pub resolve_requested_lem :
    (c : TopologyCache) (requested : List (Text × Text)) (constraints : Constraints)
    → resolve_requested c requested ≡ ok constraints
    → SomeLeaf constraints c.by_leaf
unfolding resolve_requested
resolve_requested_lem c requested constraints h =
    has_matching_leaf_lem c.by_leaf constraints (ground arith)

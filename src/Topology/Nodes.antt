-- ===== src/Topology/Nodes.antt =====
-- The Nodes that ResolveNodes keeps.
use ngd_ngg_scheduling.Base.{
  ◌+◌, ◌≡◌, refl, ◌↔◌, inl, inr, List, [], ◌∷◌, none, some, arith, All, length, Result, ok, err,
  Result-cases, some, lookup, Option-cases, bind-ok, ok-injective,
}
use mathlib.Core.Path.{subst}
use ngd_ngg_scheduling.Text.{Text, text_Eq}
use ngd_ngg_scheduling.Json.{Fields}
use ngd_ngg_scheduling.StaticCache.{Encoding}
use ngd_ngg_scheduling.Topology.{
  ResolvedLeaf, TopologyCache, Warning, mode_layered, mode_uplink_compatible, find_leaves,
  check_shared, shared_leaf, ResolvedNode, leaf_ids_of, resolve_node, sort_out,
}

-- The two leaves lie in one scheduling domain of the mode.
abbrev pub Shares : Text → ResolvedLeaf → ResolvedLeaf → Type 0
Shares mode a b =
    (b.leaf_domain_id ≡ a.leaf_domain_id)
    × (mode ≡ mode_uplink_compatible → b.uplink_domain_id ≡ a.uplink_domain_id)
    × (mode ≡ mode_layered
        → (b.spine_domain_id ≡ a.spine_domain_id) × (b.border_domain_id ≡ a.border_domain_id))

-- The loop over the other leaves of a Node accepts exactly the leaves that all lie in one scheduling
-- domain with the first.
pub check_shared_iff :
    (mode : Text) (leaf : ResolvedLeaf) (others : List ResolvedLeaf)
    → (check_shared mode leaf others ≡ ok tt) ↔ All (Shares mode leaf) others
unfolding check_shared
check_shared_iff mode leaf [] = (λ _. tt, λ _. refl)
check_shared_iff mode leaf (b ∷ rest) = ground (
  arith,
  text_Eq.beq_iff b.leaf_domain_id leaf.leaf_domain_id,
  text_Eq.beq_iff b.uplink_domain_id leaf.uplink_domain_id,
  text_Eq.beq_iff b.spine_domain_id leaf.spine_domain_id,
  text_Eq.beq_iff b.border_domain_id leaf.border_domain_id,
  text_Eq.beq_iff mode mode_uplink_compatible,
  text_Eq.beq_iff mode mode_layered,
  check_shared_iff mode leaf rest,
)

-- The leaves are those of the identifiers, one after the other, in the map of the topology.
abbrev pub AreKnown : List (Text × ResolvedLeaf) → List Text → List ResolvedLeaf → Type 0
AreKnown by_leaf [] [] = Unit
AreKnown by_leaf (id ∷ ids) (leaf ∷ leaves) =
    (lookup id by_leaf ≡ some leaf) × AreKnown by_leaf ids leaves
AreKnown by_leaf _ _ = ⊥

find_leaves-AreKnown :
    (by_leaf : List (Text × ResolvedLeaf)) (ids : List Text) (leaves : List ResolvedLeaf)
    → find_leaves by_leaf ids ≡ ok leaves
    → AreKnown by_leaf ids leaves
unfolding find_leaves
find_leaves-AreKnown by_leaf [] leaves h = subst (AreKnown by_leaf []) (ok-injective [] leaves h) tt
find_leaves-AreKnown by_leaf (id ∷ ids) leaves h = elim (Option-cases (lookup id by_leaf)) [
  | inl absent ↦ absurd (ground arith)
  | inr (leaf, there) ↦
      let (rest, e, h1) =
        bind-ok (find_leaves by_leaf ids) _ leaves (rw (there, find_leaves) at h) in
      subst (AreKnown by_leaf (id ∷ ids)) (ok-injective (leaf ∷ rest) leaves h1)
        (there, find_leaves-AreKnown by_leaf ids rest e)
]

-- The leaves of the identifiers are all known, the first is the given one, and the others lie in one
-- scheduling domain with it.
abbrev pub IsShared : TopologyCache → List Text → ResolvedLeaf → Type 0
IsShared c ids leaf =
    (others : List ResolvedLeaf) × AreKnown c.by_leaf ids (leaf ∷ others)
    × All (Shares c.mode leaf) others

IsShared-found :
    (c : TopologyCache) (ids : List Text) (leaf : ResolvedLeaf)
    (found : Result Warning (List ResolvedLeaf))
    → find_leaves c.by_leaf ids ≡ found
    → shared_leaf c ids ≡ ok (some leaf)
    → IsShared c ids leaf
unfolding shared_leaf
IsShared-found c ids leaf (err why) e h = absurd (ground arith)
IsShared-found c ids leaf (ok []) e h = absurd (ground arith)
IsShared-found c ids leaf (ok (first ∷ others)) e h =
    elim (Result-cases (check_shared c.mode first others)) [
      | inl (u, f) ↦
          let same : first ≡ leaf = ground arith in
          subst (IsShared c ids) same (
            others,
            find_leaves-AreKnown c.by_leaf ids (first ∷ others) e,
            (check_shared_iff c.mode first others).0 f,
          )
      | inr (why, f) ↦ absurd (ground arith)
    ]

-- A resolved Node: its own identifiers, shared by the leaf that it gets.
abbrev pub IsResolved : Encoding → TopologyCache → ResolvedNode → Type 0
IsResolved E c r =
    (leaf_ids_of E r.node ≡ ok r.leaf_ids) × (r.mode ≡ c.mode) × IsShared c r.leaf_ids r.leaf

resolve_node_sound :
    (E : Encoding) (c : TopologyCache) (node : Fields) (r : ResolvedNode)
    → resolve_node E c node ≡ ok r
    → IsResolved E c r
unfolding resolve_node
resolve_node_sound E c node r h = elim (Result-cases (leaf_ids_of E node)) [
  | inl (ids, e) ↦ elim (Result-cases (shared_leaf c ids)) [
    | inl (none, f) ↦ absurd (ground arith)
    | inl (some leaf, f) ↦
        let same : record { node = node; mode = c.mode; leaf_ids = ids; leaf = leaf } ≡ r =
          ground arith in
        subst (IsResolved E c) same
          (e, refl, IsShared-found c ids leaf (find_leaves c.by_leaf ids) refl f)
    | inr (why, f) ↦ absurd (ground arith)
  ]
  | inr (why, e) ↦ absurd (ground arith)
]

-- Every Node that is resolved keeps its own leaf identifiers; each of them is known in the topology,
-- the first one gives the Node its leaf, and the others lie in one scheduling domain with it.
pub sort_out-IsResolved :
    (E : Encoding) (c : TopologyCache) (nodes : List Fields)
    → All (IsResolved E c) (sort_out E c nodes).0
unfolding sort_out
sort_out-IsResolved E c [] = tt
sort_out-IsResolved E c (node ∷ rest) = elim (Result-cases (resolve_node E c node)) [
  | inl (r, e) ↦ rw e (resolve_node_sound E c node r e, sort_out-IsResolved E c rest)
  | inr (why, e) ↦ rw e (sort_out-IsResolved E c rest)
]

-- Each Node is either resolved or has a warning, and never both.
pub sort_out_counts :
    (E : Encoding) (c : TopologyCache) (nodes : List Fields)
    → length (sort_out E c nodes).0 + length (sort_out E c nodes).1 ≡ length nodes
unfolding sort_out
sort_out_counts E c [] = refl
sort_out_counts E c (node ∷ rest) = elim (Result-cases (resolve_node E c node)) [
  | inl (r, e) ↦ rw e (omega (arith, sort_out_counts E c rest))
  | inr (why, e) ↦ rw e (omega (arith, sort_out_counts E c rest))
]

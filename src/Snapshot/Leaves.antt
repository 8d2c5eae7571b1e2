-- ===== src/Snapshot/Leaves.antt =====
-- The leaves and links of a topology that is read from a Node.
use ngd_ngg_scheduling.Base.{
  ◌≡◌, refl, ◌≢◌, ◌≤◌, inl, inr, false, List, [], ◌∷◌, ◌++◌, map, some, arith, All, Elem, length,
  Bool-cases, ok, Result-cases,
}
use ngd_ngg_scheduling.Text.{Text, text_Eq, lit, is_empty, trim_space}
use ngd_ngg_scheduling.Sets.{unique_sorted}
use ngd_ngg_scheduling.Sets.Sorting.{IsIncreasing}
use ngd_ngg_scheduling.Sets.Canonical.{IsTrimmedOf, unique_sorted_lem}
use ngd_ngg_scheduling.Snapshot.{
  TopologyLink, NodeTopology, KubeNode, Decoder, decoded, at_key, or_label, gathered_leaves,
  trim_link, trim_links, link_before, place_link, sort_links, with_links, topology_from_node,
  undecoded_leaves, undecoded_links,
}

place_link-All :
    (P : TopologyLink → Type 0) (l : TopologyLink) (ls : List TopologyLink)
    → P l
    → All P ls
    → All P (place_link l ls)
unfolding place_link
place_link-All P l [] p ps = (p, tt)
place_link-All P l (m ∷ ms) p ps = elim (Bool-cases (link_before m l)) [
  | inl t ↦ rw t (ps.0, place_link-All P l ms p ps.1)
  | inr f ↦ rw f (p, ps)
]

sort_links-All :
    (P : TopologyLink → Type 0) (ls : List TopologyLink) → All P ls → All P (sort_links ls)
unfolding sort_links
sort_links-All P [] ps = tt
sort_links-All P (l ∷ ls) ps = place_link-All P l (sort_links ls) ps.0 (sort_links-All P ls ps.1)

is_empty-not : (s : Text) → is_empty s ≡ false → s ≢ []
is_empty-not [] h = cc
is_empty-not (x ∷ s) h = λ z. cc

-- Both names of the link are set, and its leaf is a trimmed leaf of the given links.
abbrev Complete : List TopologyLink → TopologyLink → Type 0
Complete links l =
    (l.interface ≢ [])
    × (l.leaf_switch_id ≢ [])
    × IsTrimmedOf l.leaf_switch_id (map (λ k. k.leaf_switch_id) links)

widen :
    (k : TopologyLink) (links ls : List TopologyLink)
    → All (Complete links) ls
    → All (Complete (k ∷ links)) ls
widen k links [] c = tt
widen k links (l ∷ ls) ((i, s, (w, m, e)), rest) = ((i, s, (w, inr m, e)), widen k links ls rest)

trim_links_found :
    (l : TopologyLink) (rest trimmed : List TopologyLink)
    → trim_links (l ∷ rest) ≡ ok trimmed
    → (others : List TopologyLink) × (trimmed ≡ trim_link l ∷ others)
      × (trim_links rest ≡ ok others)
      × (is_empty (trim_link l).interface ≡ false)
      × (is_empty (trim_link l).leaf_switch_id ≡ false)
unfolding trim_links
trim_links_found l rest trimmed h = elim (Result-cases (trim_links rest)) [
  | inl (others, e) ↦ (others, ground arith, e, ground arith, ground arith)
  | inr (why, e) ↦ absurd (ground arith)
]

trim_link-Complete :
    (l : TopologyLink) (rest : List TopologyLink)
    → is_empty (trim_link l).interface ≡ false
    → is_empty (trim_link l).leaf_switch_id ≡ false
    → Complete (l ∷ rest) (trim_link l)
unfolding trim_link
trim_link-Complete l rest i s = (
  is_empty-not (trim_space l.interface) i,
  is_empty-not (trim_space l.leaf_switch_id) s,
  (l.leaf_switch_id, inl refl, refl),
)

trim_links-Complete :
    (links trimmed : List TopologyLink)
    → trim_links links ≡ ok trimmed
    → All (Complete links) trimmed
unfolding trim_links
trim_links-Complete [] [] h = tt
trim_links-Complete [] (t ∷ ts) h = cc
trim_links-Complete (l ∷ rest) trimmed h =
    let (others, e, f, i, s) = trim_links_found l rest trimmed h in
    rw e (trim_link-Complete l rest i s, widen l rest others (trim_links-Complete rest others f))

-- What topologyFromNode returns of leaves that are in order.
with_links_found :
    (ids : List Text) (links : List TopologyLink) (t : NodeTopology)
    → with_links ids links ≡ ok (some t)
    → (trimmed : List TopologyLink) × (trim_links links ≡ ok trimmed)
      × (t.links ≡ sort_links trimmed)
      × (t.leaf_switch_ids ≡ ids)
      × (ids ≢ [])
      × (length ids ≤ 2)
unfolding with_links
with_links_found [] links t h = absurd (ground arith)
with_links_found (first ∷ others) links t h = elim (Result-cases (trim_links links)) [
  | inl (trimmed, e) ↦ (trimmed, e, ground arith, ground arith, λ z. cc, ground arith)
  | inr (why, e) ↦ absurd (ground arith)
]

Elem-append : (w : Text) (xs ys : List Text) → Elem w ys → Elem w (xs ++ ys)
Elem-append w [] ys m = m
Elem-append w (x ∷ xs) ys m = inr (Elem-append w xs ys m)

or_label-Elem : (leaf w : Text) (xs : List Text) → Elem w xs → Elem w (or_label leaf xs)
unfolding or_label
or_label-Elem leaf w [] m = absurd m
or_label-Elem leaf w (x ∷ xs) m = m

-- The link has an interface, and its leaf is one of the identifiers.
abbrev pub Attached : List Text → TopologyLink → Type 0
Attached ids l = (l.interface ≢ []) × Elem l.leaf_switch_id ids

attach :
    (node : KubeNode) (leaves : List Text) (links ls : List TopologyLink)
    → All (Complete links) ls
    → All (Attached (unique_sorted (gathered_leaves node leaves links))) ls
attach node leaves links [] c = tt
attach node leaves links (l ∷ ls) ((i, s, (w, m, e)), rest) =
    let listed = or_label-Elem _ w _ (Elem-append w leaves (map (λ k. k.leaf_switch_id) links) m) in
    (
      (
        i,
        ((unique_sorted_lem (gathered_leaves node leaves links)).1 l.leaf_switch_id).1
            (s, (w, listed, e)),
      ),
      attach node leaves links ls rest,
    )

-- A topology that is read from a Node has one or two leaves in increasing order, and each of its
-- links has an interface and leads to one of these leaves.
pub topology_from_node_lem :
    (D : Decoder) (node : KubeNode) (leaves : List Text) (links : List TopologyLink)
    (t : NodeTopology)
    → decoded D.leaves undecoded_leaves
        (at_key (lit "topology.demo.ngg.io/leaf-switch-ids") node.annotations)
      ≡ ok leaves
    → decoded D.links undecoded_links
        (at_key (lit "topology.demo.ngg.io/leaf-links") node.annotations)
      ≡ ok links
    → topology_from_node D node ≡ ok (some t)
    → IsIncreasing t.leaf_switch_ids
      × (t.leaf_switch_ids ≢ [])
      × (length t.leaf_switch_ids ≤ 2)
      × All (Attached t.leaf_switch_ids) t.links
unfolding topology_from_node
topology_from_node_lem D node leaves links t d e h =
    let ids = unique_sorted (gathered_leaves node leaves links) in
    let (trimmed, f, g, same, some_leaf, two) = with_links_found ids links t (rw (d, e) at h) in
    rw (same, g)
      (
        (unique_sorted_lem (gathered_leaves node leaves links)).0,
        some_leaf,
        two,
        sort_links-All (Attached ids) trimmed
            (attach node leaves links trimmed (trim_links-Complete links trimmed f)),
      )

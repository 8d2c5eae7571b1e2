-- ===== src/Facts/Recovered.antt =====
-- What the agent writes to a Node (topology_agent/pkg/topologyfacts/facts.go and
-- topology_agent/kube.go) as the controller reads it (prc/pkg/controller/snapshot.go). That the JSON
-- of the two annotations is decoded as it was encoded is a hypothesis, for texts of valid UTF-8 alone:
-- encoding/json replaces other bytes. Which texts those are, utf8.ValidString, is a parameter.
use mathlib.Core.Path.{subst}
use ngd_ngg_scheduling.Base.{
  Bool, true, ◌≡◌, ◌≢◌, refl, sym, ap, ◌∙◌, ◌⊎◌, inl, inr, false, List, [], ◌∷◌, ◌++◌, map, Option,
  some, ltb, length, lookup, Result, ok, All, Elem, bind-ok, ok-injective,
}
use ngd_ngg_scheduling.Text.{Text, text_Eq, lit, is_empty}
use ngd_ngg_scheduling.Sets.{unique_sorted}
use ngd_ngg_scheduling.Sets.Canonical.{IsTrimmedOf, unique_sorted_lem, increasing_unique}
use ngd_ngg_scheduling.Snapshot.{
  TopologyLink, NodeTopology, KubeNode, Decoder, Fault, undecoded_leaves, undecoded_links, decoded,
  at_key, or_label, label_leaf, trim_link, trim_links, sort_links, with_links, topology_from_node,
}
use ngd_ngg_scheduling.Facts.{Link, Observation, normalize}
use ngd_ngg_scheduling.Facts.Metadata.{
  Coding, NodeMetadata, build_node_metadata, PatchMeeting, patch_node,
}
use ngd_ngg_scheduling.Facts.Verified.{verified_key, patch_node-verified}
use ngd_ngg_scheduling.Facts.Normal.{IsTrimmed, IsComplete, IsNormal, normalize-IsNormal}

-- A link as the controller decodes it.
abbrev pub link_of : Link → TopologyLink
link_of l = record {
  bond_name = l.bond_name;
  bond_mode = l.bond_mode;
  interface = l.interface;
  leaf_switch_id = l.leaf_switch_id;
  remote_port_id = l.remote_port_id;
  active = l.active;
}

-- Every text is valid.
abbrev pub AreValid : (Text → Bool) → List Text → Type 0
AreValid valid texts = All (λ s. valid s ≡ true) texts

-- Every text of the links is valid.
abbrev pub AreValidLinks : (Text → Bool) → List Link → Type 0
AreValidLinks valid links =
    All
      (λ l. AreValid valid (
        l.bond_name ∷ l.bond_mode ∷ l.interface ∷ l.leaf_switch_id ∷ l.chassis_id
        ∷ l.chassis_subtype ∷ l.remote_port_id ∷ []))
      links

-- Annotations of valid texts are decoded as they were encoded, and JSON is not empty.
abbrev pub IsDecoded : (Text → Bool) → Coding → Decoder → Type 0
IsDecoded valid C D =
    ((leaves : List Text)
      → AreValid valid leaves
      → (is_empty (C.leaves_json leaves) ≡ false) × (D.leaves (C.leaves_json leaves) ≡ some leaves))
    × ((links : List Link)
        → AreValidLinks valid links
        → (is_empty (C.links_json links) ≡ false)
          × (D.links (C.links_json links) ≡ some (map link_of links)))

abbrev leaf_ids : List Link → List Text
leaf_ids links = map (λ l. l.leaf_switch_id) (map link_of links)

Elem-append : (v : Text) (xs ys : List Text) → Elem v (xs ++ ys) → Elem v xs ⊎ Elem v ys
Elem-append v [] ys m = inr m
Elem-append v (x ∷ xs) ys (inl e) = inl (inl e)
Elem-append v (x ∷ xs) ys (inr m) = elim (Elem-append v xs ys m) [
  | inl k ↦ inl (inr k)
  | inr k ↦ inr k
]

append-Elem : (v : Text) (xs ys : List Text) → Elem v xs → Elem v (xs ++ ys)
append-Elem v [] ys m = absurd m
append-Elem v (x ∷ xs) ys (inl e) = inl e
append-Elem v (x ∷ xs) ys (inr m) = inr (append-Elem v xs ys m)

held_leaf :
    (leaves : List Text) (links : List Link) (v : Text)
    → All (λ l. Elem l.leaf_switch_id leaves) links
    → Elem v (leaf_ids links)
    → Elem v leaves
held_leaf leaves [] v h m = absurd m
held_leaf leaves (l ∷ links) v h (inl e) = subst (λ w. Elem w leaves) (sym e) h.0
held_leaf leaves (l ∷ links) v h (inr m) = held_leaf leaves links v h.1 m

IsTrimmed-ne : (v : Text) → IsTrimmed v → v ≢ []
IsTrimmed-ne [] h = cc
IsTrimmed-ne (x ∷ v) h = λ e. cc

-- The leaves of an observation are their own sorted set, with those of its links or without them.
IsNormal-unique_sorted :
    (o : Observation)
    → IsNormal o
    → unique_sorted (o.leaf_switch_ids ++ leaf_ids o.links) ≡ o.leaf_switch_ids
IsNormal-unique_sorted o (complete, held, increasing, trimmed, some_leaves) =
    let all = o.leaf_switch_ids ++ leaf_ids o.links in
    let (sorted, members) = unique_sorted_lem all in
    increasing_unique (unique_sorted all) o.leaf_switch_ids sorted increasing
      (λ v m. found v ((members v).0 m).1)
      (λ v m. (members v).1 (
        IsTrimmed-ne v (trimmed v m),
        (v, append-Elem v o.leaf_switch_ids (leaf_ids o.links) m, (trimmed v m).1),
      ))
  where
    old : (w : Text) → Elem w (o.leaf_switch_ids ++ leaf_ids o.links) → Elem w o.leaf_switch_ids
    old w m = elim (Elem-append w o.leaf_switch_ids (leaf_ids o.links) m) [
      | inl k ↦ k
      | inr k ↦ held_leaf o.leaf_switch_ids o.links w held k
    ]

    found :
        (v : Text)
        → IsTrimmedOf v (o.leaf_switch_ids ++ leaf_ids o.links)
        → Elem v o.leaf_switch_ids
    found v (w, m, e) =
        subst (λ u. Elem u o.leaf_switch_ids) (sym (trimmed w (old w m)).1 ∙ e) (old w m)

-- The loop that trims the links leaves those that are complete.
trim_links-IsComplete :
    (links : List Link)
    → All IsComplete links
    → trim_links (map link_of links) ≡ ok (map link_of links)
unfolding trim_links trim_link
trim_links-IsComplete [] h = refl
trim_links-IsComplete (l ∷ links) (((i, it), (s, st)), h) =
    rw (it, st, i, s, trim_links-IsComplete links h) refl

decoded-some :
    {A : Type 0} (decode : Text → Option (List A)) (why : Fault) (raw : Text) (items : List A)
    → is_empty raw ≡ false
    → decode raw ≡ some items
    → decoded decode why raw ≡ ok items
unfolding decoded
decoded-some decode why raw items h e = rw (h, e) refl

or_label-some : (leaf : Text) (xs ys : List Text) → xs ≢ [] → or_label leaf (xs ++ ys) ≡ xs ++ ys
unfolding or_label
or_label-some leaf [] ys n = absurd (n refl)
or_label-some leaf (x ∷ xs) ys n = refl

-- A topology with the leaves and the sorted links.
abbrev pub HasFacts : List Text → List TopologyLink → Result Fault (Option NodeTopology) → Type 0
HasFacts ids links r =
    (t : NodeTopology) × (r ≡ ok (some t))
    × (t.leaf_switch_ids ≡ ids)
    × (t.links ≡ sort_links links)

with_links-HasFacts :
    (ids : List Text) (links : List TopologyLink)
    → ids ≢ []
    → ltb 2 (length ids) ≡ false
    → trim_links links ≡ ok links
    → HasFacts ids links (with_links ids links)
unfolding with_links
with_links-HasFacts [] links n few e = absurd (n refl)
with_links-HasFacts (x ∷ xs) links n few e = rw (few, e) (_, refl, refl, refl)

-- The observation of the metadata is normal, and two of its annotations hold the leaves and links.
abbrev HasParts : Coding → NodeMetadata → Type 0
HasParts C md =
    IsNormal md.observation
    × Elem
        (
          lit "topology.demo.ngg.io/leaf-switch-ids",
          some (C.leaves_json md.observation.leaf_switch_ids),
        )
        md.annotations
    × Elem (lit "topology.demo.ngg.io/leaf-links", some (C.links_json md.observation.links))
        md.annotations

metadata_parts :
    (C : Coding) (observed_at : Text) (value : Observation) (md : NodeMetadata)
    → build_node_metadata C observed_at value ≡ ok md
    → HasParts C md
unfolding build_node_metadata
metadata_parts C observed_at value md h =
    let (o, e, h1) = bind-ok (normalize value) _ md h in
    subst (HasParts C) (ok-injective _ md h1)
      (normalize-IsNormal value o e, inl refl, inr (inl refl))

at_key-some :
    (key : Text) (m : List (Text × Text)) (v : Text) → lookup key m ≡ some v → at_key key m ≡ v
unfolding at_key
at_key-some key m v e = rw (at_key, e) refl

-- The topology of a Node whose two annotations are those of a normal observation.
annotated :
    (valid : Text → Bool) (C : Coding) (D : Decoder) (node : KubeNode) (o : Observation)
    → IsDecoded valid C D
    → AreValid valid o.leaf_switch_ids
    → AreValidLinks valid o.links
    → IsNormal o
    → ltb 2 (length o.leaf_switch_ids) ≡ false
    → lookup (lit "topology.demo.ngg.io/leaf-switch-ids") node.annotations
      ≡ some (C.leaves_json o.leaf_switch_ids)
    → lookup (lit "topology.demo.ngg.io/leaf-links") node.annotations ≡ some (C.links_json o.links)
    → HasFacts o.leaf_switch_ids (map link_of o.links) (topology_from_node D node)
unfolding topology_from_node
annotated valid C D node o (leaves, links) fine_ids fine_links n few e f =
    let first =
      decoded-some D.leaves undecoded_leaves (C.leaves_json o.leaf_switch_ids) o.leaf_switch_ids
        (leaves o.leaf_switch_ids fine_ids).0 (leaves o.leaf_switch_ids fine_ids).1 in
    let second =
      decoded-some D.links undecoded_links (C.links_json o.links) (map link_of o.links)
        (links o.links fine_links).0 (links o.links fine_links).1 in
    let ids = at_key-some (lit "topology.demo.ngg.io/leaf-switch-ids") node.annotations _ e in
    let all = at_key-some (lit "topology.demo.ngg.io/leaf-links") node.annotations _ f in
    let (complete, held, increasing, trimmed, some_leaves) = n in
    let gathered =
      or_label-some (label_leaf node) o.leaf_switch_ids (leaf_ids o.links) some_leaves in
    rw (ids, all, first, second)
      (subst
        (λ xs.
          HasFacts o.leaf_switch_ids (map link_of o.links) (with_links xs (map link_of o.links)))
        (sym (ap unique_sorted gathered ∙ IsNormal-unique_sorted o n))
        (with_links-HasFacts o.leaf_switch_ids (map link_of o.links) some_leaves few
          (trim_links-IsComplete o.links complete)))

-- Where the JSON of the two annotations is decoded as it was encoded for texts of valid UTF-8, and
-- those of the observation are valid: once the agent has patched a
-- Node with the metadata of an observation and verified the patch without an error, the controller
-- reads from the Node that was verified a topology with exactly the leaves of the observation, if
-- they are at most two, and with its links in order.
pub patch_node-HasFacts :
    (valid : Text → Bool) (C : Coding) (D : Decoder) (observed_at : Text) (value : Observation)
    (md : NodeMetadata) (m : PatchMeeting) (node : KubeNode)
    → IsDecoded valid C D
    → build_node_metadata C observed_at value ≡ ok md
    → AreValid valid md.observation.leaf_switch_ids
    → AreValidLinks valid md.observation.links
    → ltb 2 (length md.observation.leaf_switch_ids) ≡ false
    → patch_node m md.labels md.annotations ≡ ok tt
    → m.verified ≡ some node
    → HasFacts md.observation.leaf_switch_ids
        (map link_of md.observation.links)
        (topology_from_node D node)
patch_node-HasFacts valid C D observed_at value md m node codec built ids_valid links_valid few
      patched reread =
    let checked = patch_node-verified m md.labels md.annotations node patched reread in
    let (normal, ids, links) = metadata_parts C observed_at value md built in
    annotated valid C D node md.observation codec ids_valid links_valid normal few
      (verified_key node.annotations md.annotations _ _ checked ids)
      (verified_key node.annotations md.annotations _ _ checked links)

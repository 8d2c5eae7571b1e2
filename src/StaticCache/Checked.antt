-- ===== src/StaticCache/Checked.antt =====
-- What the check of a static snapshot lets through.
use ngd_ngg_scheduling.Base.{
  ap, suc, ◌≡◌, refl, ◌≢◌, ◌≤◌, ◌↔◌, inl, inr, true, false, List, [], ◌∷◌, map, arith, length,
  Result, ok, Result-cases, Elem,
}
use ngd_ngg_scheduling.Text.{Text, text_Eq, lit}
use ngd_ngg_scheduling.Json.{Json, Fields, member}
use ngd_ngg_scheduling.Sets.{has_text, unique_sorted}
use ngd_ngg_scheduling.Sets.Sorting.{IsIncreasing, IsSetList}
use ngd_ngg_scheduling.Sets.Canonical.{IsTrimmedOf, unique_sorted_lem}
use ngd_ngg_scheduling.StaticCache.{
  Encoding, PutError, listed_leaves, static_node_leaf_ids, or_single, no_texts, node_uid,
  check_node, check_all,
}

module _ (E : Encoding) where
  leaves_found :
      (topology : Fields) (values leaves : List Text) (x : Result PutError (List Text))
      → x ≡ ok values
      → static_node_leaf_ids E topology ≡ ok leaves
      → listed_leaves E (member (lit "leafSwitchIds") topology) ≡ x
      → (leaves ≡ unique_sorted (or_single E topology values))
        × (no_texts E leaves ≡ false)
        × (length leaves ≤ 2)
  unfolding static_node_leaf_ids
  leaves_found topology values leaves x e h l = ground arith

  -- An accepted node keeps one or two leaves, in increasing order: exactly the non-empty strings that
  -- its list, or without a list its single leaf, holds once they are trimmed.
  pub static_node_leaf_ids_lem :
      (topology : Fields) (values leaves : List Text)
      → listed_leaves E (member (lit "leafSwitchIds") topology) ≡ ok values
      → static_node_leaf_ids E topology ≡ ok leaves
      → IsIncreasing leaves
        × (leaves ≢ [])
        × (length leaves ≤ 2)
        × ((v : Text) → Elem v leaves ↔ ((v ≢ []) × IsTrimmedOf v (or_single E topology values)))
  static_node_leaf_ids_lem topology values leaves l h =
      let r = leaves_found topology values leaves (ok values) refl h l in
      let sorted = unique_sorted_lem (or_single E topology values) in
      (rw r.0 sorted.0, λ z. cc (z, r.1), r.2, rw r.0 sorted.1)

  all_found :
      (seen : List Text) (raw : Json) (rest : List Json) (nodes : List Fields)
      → check_all E seen (raw ∷ rest) ≡ ok nodes
      → (node : Fields) × ((more : List Fields) × (nodes ≡ node ∷ more)
          × (has_text (node_uid E node) seen ≡ false)
          × (check_all E (node_uid E node ∷ seen) rest ≡ ok more))
  unfolding check_all
  all_found seen raw rest nodes h = elim (Result-cases (check_node E raw)) [
    | inl (node, e) ↦ elim (Result-cases (check_all E (node_uid E node ∷ seen) rest)) [
      | inl (more, f) ↦ (node, (more, ground arith, ground arith, f))
      | inr (why, f) ↦ absurd (ground arith)
    ]
    | inr (why, e) ↦ absurd (ground arith)
  ]

  -- No two nodes have one UID, and none has one of those seen.
  abbrev Distinct : List Text → List Fields → Type 0
  Distinct seen nodes =
      IsSetList (map (node_uid E) nodes)
      × ((u : Text) → has_text u seen ≡ true → has_text u (map (node_uid E) nodes) ≡ false)

  Distinct-cons :
      (seen : List Text) (node : Fields) (more : List Fields)
      → has_text (node_uid E node) seen ≡ false
      → Distinct (node_uid E node ∷ seen) more
      → Distinct seen (node ∷ more)
  unfolding has_text
  Distinct-cons seen node more fresh (set, apart) =
      let uid = node_uid E node in
      (
        (apart uid (ground (arith, text_Eq.beq_iff uid uid)), set),
        λ u z. ground (arith, apart u, text_Eq.beq_iff u uid),
      )

  all-Distinct :
      (seen : List Text) (raw : List Json) (nodes : List Fields)
      → check_all E seen raw ≡ ok nodes
      → Distinct seen nodes × (length nodes ≡ length raw)
  unfolding check_all has_text
  all-Distinct seen [] [] h = ((tt, λ u z. refl), refl)
  all-Distinct seen [] (n ∷ ns) h = cc
  all-Distinct seen (raw ∷ rest) nodes h =
      let (node, (more, e, fresh, f)) = all_found seen raw rest nodes h in
      let r = all-Distinct (node_uid E node ∷ seen) rest more f in
      rw e (Distinct-cons seen node more fresh r.0, ap suc r.1)

  -- A list of Nodes that passes the check has a node for each of its values, and no two of them have
  -- one UID.
  pub check_all-IsSetList :
      (raw : List Json) (nodes : List Fields)
      → check_all E [] raw ≡ ok nodes
      → IsSetList (map (node_uid E) nodes) × (length nodes ≡ length raw)
  check_all-IsSetList raw nodes h = let r = all-Distinct [] raw nodes h in (r.0.0, r.1)

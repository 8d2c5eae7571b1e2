-- ===== src/Response/Nodes.antt =====
-- The two loops over the nodes of a group accept exactly the lists that the specification names.
use ngd_ngg_scheduling.Base.{
  ◌≡◌, refl, ◌↔◌, ◌⊎◌, inl, inr, true, false, List, [], ◌∷◌, ◌++◌, arith, lookup, All, Adjacent, ℤ,
  pos, ◌≤ℤ◌, ok, Option-cases,
}
use ngd_ngg_scheduling.Text.{Text, text_Eq, is_empty}
use ngd_ngg_scheduling.Sets.{has_text}
use ngd_ngg_scheduling.Response.{
  CandidateNode, check_nodes, check_node_order, out_of_range, name_mismatch, node_out_of_order,
}
use ngd_ngg_scheduling.Response.Spec.{IsKnown, NodeOrder, uids}

-- No UID of the list is among those seen, nor among those before it.
abbrev pub Fresh : List Text → List Text → Type 0
Fresh seen [] = Unit
Fresh seen (u ∷ us) = (has_text u seen ≡ false) × Fresh (u ∷ seen) us

abbrev pub add_all : List Text → List Text → List Text
add_all seen [] = seen
add_all seen (u ∷ us) = add_all (u ∷ seen) us

range_iff :
    (score : ℤ) → (out_of_range score ≡ false) ↔ ((◌≤ℤ◌ (pos 0) score) × (◌≤ℤ◌ score (pos 100)))
unfolding out_of_range
range_iff score = ground arith

pub empty_iff : (s : Text) → (is_empty s ≡ true) ↔ (s ≡ [])
empty_iff [] = (λ _. refl, λ _. refl)
empty_iff (x ∷ s) = (λ h. cc, λ h. cc)

name_iff :
    (known name : Text) → (name_mismatch known name ≡ false) ↔ ((known ≡ []) ⊎ (name ≡ known))
unfolding name_mismatch
name_iff known name = ground (arith, text_Eq.beq_iff name known, empty_iff known)

order_iff : (a b : CandidateNode) → (node_out_of_order a b ≡ false) ↔ NodeOrder a b
unfolding node_out_of_order
order_iff a b = ground arith

pub check_node_order_iff :
    (nodes : List CandidateNode) → (check_node_order nodes ≡ ok tt) ↔ Adjacent NodeOrder nodes
unfolding check_node_order
check_node_order_iff [] = (λ _. tt, λ _. refl)
check_node_order_iff (n ∷ []) = (λ _. tt, λ _. refl)
check_node_order_iff (m ∷ n ∷ ns) = ground (arith, order_iff m n, check_node_order_iff (n ∷ ns))

module _ (known : List (Text × Text)) where
  check_nodes_sound :
      (seen seen' : List Text) (nodes : List CandidateNode)
      → check_nodes known seen nodes ≡ ok seen'
      → All (IsKnown known) nodes × Fresh seen (uids nodes) × (seen' ≡ add_all seen (uids nodes))
  unfolding check_nodes
  check_nodes_sound seen seen' [] h = ground arith
  check_nodes_sound seen seen' (n ∷ ns) h = elim (Option-cases (lookup n.node_uid known)) [
    | inl e ↦ absurd (ground arith)
    | inr (name, e) ↦
        let range = (range_iff n.score).0 (ground arith) in
        let rest = check_nodes_sound (n.node_uid ∷ seen) seen' ns (ground arith) in
        (
          ((range.0, range.1, (name, e, (name_iff name n.node_name).0 (ground arith))), rest.0),
          (ground arith, rest.1),
          rest.2,
        )
  ]

  check_nodes_complete :
      (seen : List Text) (nodes : List CandidateNode)
      → All (IsKnown known) nodes
      → Fresh seen (uids nodes)
      → check_nodes known seen nodes ≡ ok (add_all seen (uids nodes))
  unfolding check_nodes
  check_nodes_complete seen [] k f = refl
  check_nodes_complete seen (n ∷ ns) k f = ground (
    arith,
    range_iff n.score,
    name_iff k.0.2.0 n.node_name,
    check_nodes_complete (n.node_uid ∷ seen) ns k.1 f.1,
  )

  pub check_nodes_iff :
      (seen seen' : List Text) (nodes : List CandidateNode)
      → (check_nodes known seen nodes ≡ ok seen') ↔ (
          All (IsKnown known) nodes × Fresh seen (uids nodes) × (seen' ≡ add_all seen (uids nodes)))
  check_nodes_iff seen seen' nodes =
      (check_nodes_sound seen seen' nodes, λ h. rw h.2 (check_nodes_complete seen nodes h.0 h.1))

pub Fresh-append :
    (seen us vs : List Text) → Fresh seen (us ++ vs) ↔ (Fresh seen us × Fresh (add_all seen us) vs)
Fresh-append seen [] vs = (λ h. (tt, h), λ h. h.1)
Fresh-append seen (u ∷ us) vs =
    let rest = Fresh-append (u ∷ seen) us vs in
    (λ h. let r = rest.0 h.1 in ((h.0, r.0), r.1), λ h. (h.0.0, rest.1 (h.0.1, h.1)))

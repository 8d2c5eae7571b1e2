-- ===== src/Response/Groups.antt =====
-- The loop over the groups accepts exactly the lists that the specification names.
use ngd_ngg_scheduling.Base.{
  ℕ, suc, ◌≡◌, refl, ◌≢◌, ◌↔◌, inl, inr, true, false, List, [], ◌∷◌, Option, none, some, arith, All,
  Adjacent, ℤ, pos, eqb_ℤ, ok, Result-cases,
}
use ngd_ngg_scheduling.Text.{Text, text_Eq}
use ngd_ngg_scheduling.Sets.{has_text}
use ngd_ngg_scheduling.Sets.Sorting.{IsSetList}
use ngd_ngg_scheduling.Response.{
  Float64, CandidateNode, CandidateGroup, check_nodes, check_groups, group_out_of_order, misplaced,
  no_nodes,
}
use ngd_ngg_scheduling.Response.Spec.{uids, GroupOrder, IsGroup, Ranked, all_uids}
use ngd_ngg_scheduling.Response.Nodes.{
  Fresh, add_all, empty_iff, check_nodes_iff, check_node_order_iff, Fresh-append,
}

abbrev Unseen : List Text → List Text → Type 0
Unseen seen us = All (λ w. has_text w seen ≡ false) us

Unseen-cons :
    (u : Text) (seen us : List Text)
    → Unseen (u ∷ seen) us ↔ ((has_text u us ≡ false) × Unseen seen us)
unfolding has_text
Unseen-cons u seen [] = (λ _. (refl, tt), λ _. tt)
Unseen-cons u seen (w ∷ us) =
    ground (arith, text_Eq.beq_iff u w, text_Eq.beq_iff w u, Unseen-cons u seen us)

Fresh-iff : (seen us : List Text) → Fresh seen us ↔ (IsSetList us × Unseen seen us)
Fresh-iff seen [] = (λ _. (tt, tt), λ _. tt)
Fresh-iff seen (u ∷ us) =
    let rest = Fresh-iff (u ∷ seen) us in
    let split = Unseen-cons u seen us in
    (
      λ h. let r = rest.0 h.1 in let s = split.0 r.1 in ((s.0, r.0), (h.0, s.1)),
      λ h. (h.1.0, rest.1 (h.0.1, split.1 (h.0.0, h.1.1))),
    )

Unseen-nil : (us : List Text) → Unseen [] us
unfolding has_text
Unseen-nil [] = tt
Unseen-nil (u ∷ us) = (refl, Unseen-nil us)

-- From nothing seen, fresh UIDs are UIDs without repetition.
pub Fresh-nil_iff : (us : List Text) → Fresh [] us ↔ IsSetList us
Fresh-nil_iff us = (λ f. ((Fresh-iff [] us).0 f).0, λ s. (Fresh-iff [] us).1 (s, Unseen-nil us))

no_nodes_iff : (nodes : List CandidateNode) → (no_nodes nodes ≡ true) ↔ (nodes ≡ [])
no_nodes_iff [] = (λ _. refl, λ _. refl)
no_nodes_iff (n ∷ ns) = (λ h. cc, λ h. cc)

rank_iff : (rank : ℤ) (n : ℕ) → (eqb_ℤ rank (pos n) ≡ true) ↔ (rank ≡ pos n)
rank_iff rank n = ground arith

module _ (F : Float64) where
  open F use {Score, gt, eq}

  GroupOrder-iff :
      (a b : CandidateGroup Score) → (group_out_of_order F a b ≡ false) ↔ GroupOrder F a b
  unfolding group_out_of_order
  GroupOrder-iff a b = ground arith

  -- The groups are in order, the first one after the previous group.
  abbrev pub Ordered : Option (CandidateGroup Score) → List (CandidateGroup Score) → Type 0
  Ordered none groups = Adjacent (GroupOrder F) groups
  Ordered (some p) groups = Adjacent (GroupOrder F) (p ∷ groups)

  abbrev Follows : Option (CandidateGroup Score) → CandidateGroup Score → Type 0
  Follows none g = Unit
  Follows (some p) g = GroupOrder F p g

  Follows-iff :
      (p : Option (CandidateGroup Score)) (g : CandidateGroup Score)
      → (misplaced F p g ≡ false) ↔ Follows p g
  Follows-iff none g = (λ _. tt, λ _. refl)
  Follows-iff (some p) g = GroupOrder-iff p g

  Ordered-cons :
      (p : Option (CandidateGroup Score)) (g : CandidateGroup Score)
      (gs : List (CandidateGroup Score))
      → Ordered p (g ∷ gs) ↔ (Follows p g × Ordered (some g) gs)
  Ordered-cons none g gs = (λ h. (tt, h), λ h. h.1)
  Ordered-cons (some p) g gs = (λ h. h, λ h. h)

  module _ (known : List (Text × Text)) where
    pub check_groups_sound :
        (number : ℕ) (previous : Option (CandidateGroup Score)) (seen : List Text)
        (groups : List (CandidateGroup Score))
        → check_groups F known number previous seen groups ≡ ok tt
        → All (IsGroup F known) groups
          × Ranked F number groups
          × Ordered previous groups
          × Fresh seen (all_uids F groups)
    unfolding check_groups
    check_groups_sound number none seen [] h = (tt, tt, tt, tt)
    check_groups_sound number (some p) seen [] h = (tt, tt, tt, tt)
    check_groups_sound number previous seen (g ∷ gs) h =
        elim (Result-cases (check_nodes known seen g.nodes)) [
          | inr (e, bad) ↦ absurd (ground arith)
          | inl (seen', good) ↦
              let nodes = (check_nodes_iff known seen seen' g.nodes).0 good in
              let order = (check_node_order_iff g.nodes).0 (ground arith) in
              let rank = (rank_iff g.rank number).0 (ground arith) in
              let follows = (Follows-iff previous g).0 (ground arith) in
              let named : (g.group_id ≢ []) × (g.nodes ≢ []) =
                (ground (arith, empty_iff g.group_id), ground (arith, no_nodes_iff g.nodes)) in
              let rest = check_groups_sound (suc number) (some g) seen' gs (ground arith) in
              (
                ((named.0, named.1, nodes.0, order), rest.0),
                (rank, rest.1),
                (Ordered-cons previous g gs).1 (follows, rest.2),
                (Fresh-append seen (uids g.nodes) (all_uids F gs)).1
                    (nodes.1, rw nodes.2 at rest.3),
              )
        ]

    pub check_groups_complete :
        (number : ℕ) (previous : Option (CandidateGroup Score)) (seen : List Text)
        (groups : List (CandidateGroup Score))
        → All (IsGroup F known) groups
        → Ranked F number groups
        → Ordered previous groups
        → Fresh seen (all_uids F groups)
        → check_groups F known number previous seen groups ≡ ok tt
    unfolding check_groups
    check_groups_complete number previous seen [] v r o f = refl
    check_groups_complete number previous seen (g ∷ gs) v r o f =
        let split = (Fresh-append seen (uids g.nodes) (all_uids F gs)).0 f in
        let follows = (Ordered-cons previous g gs).0 o in
        let nodes =
          (check_nodes_iff known seen (add_all seen (uids g.nodes)) g.nodes).1
            (v.0.2, split.0, refl) in
        ground (
          arith,
          nodes,
          empty_iff g.group_id,
          no_nodes_iff g.nodes,
          (rank_iff g.rank number).1 r.0,
          (Follows-iff previous g).1 follows.0,
          (check_node_order_iff g.nodes).1 v.0.3,
          check_groups_complete (suc number) (some g) (add_all seen (uids g.nodes)) gs v.1 r.1
              follows.1 split.1,
        )

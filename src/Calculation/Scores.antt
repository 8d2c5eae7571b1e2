-- ===== src/Calculation/Scores.antt =====
-- The scores and names of the grant that is written.
use ngd_ngg_scheduling.Base.{
  ◌≡◌, refl, inl, inr, ap₂, List, [], ◌∷◌, ◌==◌, map, arith, All, Bool-cases, pos, ◌≤ℤ◌,
}
use mathlib.Core.Path.{subst}
use ngd_ngg_scheduling.Text.{Text, text_Eq, lit}
use ngd_ngg_scheduling.Response.{
  Float64, CandidateNode, CandidateGroup, AlgorithmResponse, Expected, SchedulerNodeState,
  known_nodes,
}
use ngd_ngg_scheduling.Response.Spec.{IsKnown, IsGroup, IsValidResponse}
use ngd_ngg_scheduling.Calculation.Demands.{PlatformDemand}
use ngd_ngg_scheduling.Calculation.Grant.{GrantNode, load_source, grant_node, build_grant_spec}

abbrev pub IsScore : GrantNode → Type 0
IsScore n = (◌≤ℤ◌ (pos 0) n.score) × (◌≤ℤ◌ n.score (pos 100))

grant_node-IsScore :
    (known : List (Text × Text)) (source : Text) (n : CandidateNode)
    → IsKnown known n
    → IsScore (grant_node source n)
unfolding grant_node
grant_node-IsScore known source n k = elim (Bool-cases (source == lit "normal")) [
  | inl t ↦ rw t (k.0, k.1)
  | inr f ↦ rw f (ground arith)
]

scores_in_range :
    (known : List (Text × Text)) (source : Text) (ns : List CandidateNode)
    → All (IsKnown known) ns
    → All IsScore (map (grant_node source) ns)
scores_in_range known source [] k = tt
scores_in_range known source (n ∷ ns) k =
    (grant_node-IsScore known source n k.0, scores_in_range known source ns k.1)

same_names :
    (source : Text) (ns : List CandidateNode)
    → map (λ g. g.name) (map (grant_node source) ns) ≡ map (λ n. n.node_name) ns
unfolding grant_node
same_names source [] = refl
same_names source (n ∷ ns) = ap₂ (λ x xs. x ∷ xs) refl (same_names source ns)

-- The grant made of the first group of a valid response names exactly the nodes of that group, in
-- its order, and each score in it is between 0 and 100.
pub grant_scores_valid :
    (F : Float64) (r : AlgorithmResponse F.Score) (e : Expected) (state : List SchedulerNodeState)
    (d : PlatformDemand) (now : Text) (selected : CandidateGroup F.Score)
    (rest : List (CandidateGroup F.Score))
    → IsValidResponse F r e state
    → r.candidate_node_groups ≡ selected ∷ rest
    → (map (λ g. g.name) (build_grant_spec d r selected now).nodes
        ≡ map (λ n. n.node_name) selected.nodes)
      × All IsScore (build_grant_spec d r selected now).nodes
unfolding build_grant_spec
grant_scores_valid F r e state d now selected rest valid h =
    let groups = subst (All (IsGroup F (known_nodes state))) h valid.groups in
    (
      same_names (load_source r) selected.nodes,
      scores_in_range (known_nodes state) (load_source r) selected.nodes groups.0.2,
    )

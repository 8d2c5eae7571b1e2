-- ===== src/Response/Spec.antt =====
-- What a valid response is, said without the order of the checks.
use ngd_ngg_scheduling.Base.{
  ℕ, suc, ◌≤◌, ◌≡◌, ◌≢◌, ◌⊎◌, true, false, List, [], ◌∷◌, ◌++◌, map, some, lookup, length, All,
  Adjacent, pos, ◌≤ℤ◌,
}
use ngd_ngg_scheduling.Text.{Text, text_Eq, text_lt, lit}
use ngd_ngg_scheduling.Sets.Sorting.{IsSetList}
use ngd_ngg_scheduling.Response.{
  Float64, CandidateNode, CandidateGroup, AlgorithmResponse, Expected, SchedulerNodeState,
  known_nodes,
}

-- The node's score lies in 0..100, its UID is known, and its name is the known one if that is set.
abbrev pub IsKnown : List (Text × Text) → CandidateNode → Type 0
IsKnown known node =
    (◌≤ℤ◌ (pos 0) node.score)
    × (◌≤ℤ◌ node.score (pos 100))
    × ((name : Text) × (lookup node.node_uid known ≡ some name)
        × ((name ≡ []) ⊎ (node.node_name ≡ name)))

-- The score does not grow, and at equal scores the name does not get smaller.
abbrev pub NodeOrder : CandidateNode → CandidateNode → Type 0
NodeOrder a b =
    (◌≤ℤ◌ b.score a.score) × (b.score ≡ a.score → text_lt b.node_name a.node_name ≡ false)

abbrev pub uids : List CandidateNode → List Text
uids = map (λ n. n.node_uid)

module _ (F : Float64) where
  open F use {Score, gt, eq}

  abbrev pub GroupOrder : CandidateGroup Score → CandidateGroup Score → Type 0
  GroupOrder a b =
      (gt b.group_score a.group_score ≡ false)
      × (eq b.group_score a.group_score ≡ true → text_lt b.group_id a.group_id ≡ false)

  -- The group has an identifier and nodes, all of them known and in order.
  abbrev pub IsGroup : List (Text × Text) → CandidateGroup Score → Type 0
  IsGroup known group =
      (group.group_id ≢ [])
      × (group.nodes ≢ [])
      × All (IsKnown known) group.nodes
      × Adjacent NodeOrder group.nodes

  -- The ranks are the numbers from the given one on.
  abbrev pub Ranked : ℕ → List (CandidateGroup Score) → Type 0
  Ranked n [] = Unit
  Ranked n (g ∷ gs) = (g.rank ≡ pos n) × Ranked (suc n) gs

  -- The UIDs of all nodes of all groups, in order.
  abbrev pub all_uids : List (CandidateGroup Score) → List Text
  all_uids [] = []
  all_uids (g ∷ gs) = uids g.nodes ++ all_uids gs

  pub record IsValidResponse (r : AlgorithmResponse Score) (e : Expected)
      (state : List SchedulerNodeState) : Type 0 where
    pub request_id : r.request_id ≡ e.request_id
    pub task_uid : r.task_uid ≡ e.task_uid
    pub ngd_uid : r.ngd_uid ≡ e.ngd_uid
    pub ngd_generation : r.ngd_generation ≡ e.ngd_generation
    pub static_id : r.node_static_snapshot_id ≡ e.static_id
    pub state_id : r.scheduler_state_snapshot_id ≡ e.state_id
    pub boot_id : r.algorithm_boot_id ≡ e.boot_id
    pub at_most_three : length r.candidate_node_groups ≤ 3
    pub status :
        ((r.status ≡ lit "SUCCESS") × (r.candidate_node_groups ≢ []))
        ⊎ (r.status ≡ lit "UNSATISFIABLE")
    pub groups : All (IsGroup (known_nodes state)) r.candidate_node_groups
    pub ranks : Ranked 1 r.candidate_node_groups
    pub order : Adjacent GroupOrder r.candidate_node_groups
    pub disjoint : IsSetList (all_uids r.candidate_node_groups)

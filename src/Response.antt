-- ===== src/Response.antt =====
-- The answer of the Algorithm server as the controller reads it, types of
-- prc/pkg/controller/algorithm_client.go, and its check, validateResponse of
-- prc/pkg/controller/prc_controller.go. A group's score is a float64: its type and the two
-- comparisons that the check makes are a parameter.
pub mod Spec
pub mod Nodes
pub mod Groups
pub mod Sound
use ngd_ngg_scheduling.Base.{
  ℕ, suc, Bool, true, false, not, ◌&&◌, ◌||◌, List, [], ◌∷◌, Option, none, some, if◌then◌else◌,
  ◌==◌, lookup, insert, nat_eq, ltb, length, ℤ, pos, ltb_ℤ, eqb_ℤ, Result, ok, err, ◌>>=◌, ◌>>◌,
  reject_if,
}
use ngd_ngg_scheduling.Text.{Text, text_Eq, text_lt, lit, is_empty}
use ngd_ngg_scheduling.Json.{Fields}
use ngd_ngg_scheduling.Sets.{has_text}

-- The float64 comparisons `>` and `==`.
pub record Float64 : Type 1 where
  pub Score : Type 0
  pub gt : Score → Score → Bool
  pub eq : Score → Score → Bool

pub record CandidateNode : Type 0 where
  pub node_uid : Text
  pub node_name : Text
  pub score : ℤ
  pub resources : List (Text × Text)
  pub topology : Fields

pub record CandidateGroup (S : Type 0) : Type 0 where
  pub rank : ℤ
  pub group_id : Text
  pub topology_level : Text
  pub group_score : S
  pub nodes : List CandidateNode

pub record AlgorithmFailure : Type 0 where
  pub code : Text
  pub message : Text
  pub details : Fields

pub record AlgorithmResponse (S : Type 0) : Type 0 where
  pub request_id : Text
  pub task_uid : Text
  pub ngd_uid : Text
  pub ngd_generation : ℕ
  pub algorithm_boot_id : Text
  pub node_static_snapshot_id : Text
  pub scheduler_state_snapshot_id : Text
  pub metric_snapshot_id : Text
  pub metric_snapshot_captured_at : Text
  pub topology_snapshot_id : Text
  pub degraded : Bool
  pub warnings : List Text
  pub status : Text
  pub failure : Option AlgorithmFailure
  pub candidate_node_groups : List (CandidateGroup S)
  pub pipeline_trace : List Fields

-- What a response is compared with.
pub record Expected : Type 0 where
  pub request_id : Text
  pub task_uid : Text
  pub ngd_uid : Text
  pub ngd_generation : ℕ
  pub static_id : Text
  pub state_id : Text
  pub boot_id : Text

-- schedulerNodeState of prc/pkg/controller/snapshot.go
pub record SchedulerNodeState : Type 0 where
  pub node_name : Text
  pub node_uid : Text
  pub ready : Bool
  pub unschedulable : Bool
  pub requested_resources : List (Text × Text)

-- The errors of validateResponse, in its order.
pub data Invalid : Type 0 where
  identity_mismatch snapshot_mismatch too_many_groups unsupported_status : Invalid
  success_without_group incomplete_group ranks_not_continuous groups_not_sorted : Invalid
  score_out_of_range unknown_node mismatched_name overlapping_groups nodes_not_sorted : Invalid

abbrev pub Checked : Type 0 → Type 0
Checked = Result Invalid

-- The loop that fills `known`: the last state of a UID counts.
unfoldable pub known_from : List (Text × Text) → List SchedulerNodeState → List (Text × Text)
known_from known [] = known
known_from known (s ∷ rest) = known_from (insert s.node_uid s.node_name known) rest

unfoldable pub known_nodes : List SchedulerNodeState → List (Text × Text)
unfolding known_from
known_nodes state = known_from [] state

unfoldable pub out_of_range : ℤ → Bool
out_of_range score = ltb_ℤ score (pos 0) || ltb_ℤ (pos 100) score

-- The name of a known UID: an empty one fits every name.
unfoldable pub name_mismatch : Text → Text → Bool
name_mismatch known_name name = not (is_empty known_name) && not (name == known_name)

abbrev pub known_name : List (Text × Text) → Text → Checked Text
known_name known uid = elim (lookup uid known) [ none ↦ err unknown_node | some name ↦ ok name ]

-- The first loop over the nodes of a group. `seen` holds the UIDs so far, of all groups.
unfoldable pub check_nodes :
    List (Text × Text) → List Text → List CandidateNode → Checked (List Text)
unfolding out_of_range name_mismatch
check_nodes known seen [] = ok seen
check_nodes known seen (node ∷ rest) = do
  reject_if (out_of_range node.score) score_out_of_range
  name ← known_name known node.node_uid
  reject_if (name_mismatch name node.node_name) mismatched_name
  reject_if (has_text node.node_uid seen) overlapping_groups
  check_nodes known (node.node_uid ∷ seen) rest

unfoldable pub node_out_of_order : CandidateNode → CandidateNode → Bool
node_out_of_order previous current =
    ltb_ℤ previous.score current.score
    || (eqb_ℤ current.score previous.score && text_lt current.node_name previous.node_name)

-- The second loop over the nodes of a group.
unfoldable pub check_node_order : List CandidateNode → Checked (Unit {0})
unfolding node_out_of_order
check_node_order [] = ok tt
check_node_order (node ∷ []) = ok tt
check_node_order (previous ∷ current ∷ rest) = do
  reject_if (node_out_of_order previous current) nodes_not_sorted
  check_node_order (current ∷ rest)

abbrev pub no_nodes : List CandidateNode → Bool
no_nodes [] = true
no_nodes (n ∷ ns) = false

module _ (F : Float64) where
  open F use {Score, gt, eq}

  unfoldable pub group_out_of_order : CandidateGroup Score → CandidateGroup Score → Bool
  group_out_of_order previous group =
      gt group.group_score previous.group_score
      || (eq group.group_score previous.group_score && text_lt group.group_id previous.group_id)

  abbrev pub misplaced : Option (CandidateGroup Score) → CandidateGroup Score → Bool
  misplaced none group = false
  misplaced (some previous) group = group_out_of_order previous group

  -- The loop over the groups; `number` is the index plus one.
  unfoldable pub check_groups :
      List (Text × Text)
      → ℕ
      → Option (CandidateGroup Score)
      → List Text
      → List (CandidateGroup Score)
      → Checked (Unit {0})
  unfolding group_out_of_order
  check_groups known number previous seen [] = ok tt
  check_groups known number previous seen (group ∷ rest) = do
    reject_if (is_empty group.group_id || no_nodes group.nodes) incomplete_group
    reject_if (not (eqb_ℤ group.rank (pos number))) ranks_not_continuous
    reject_if (misplaced previous group) groups_not_sorted
    seen' ← check_nodes known seen group.nodes
    check_node_order group.nodes
    check_groups known (suc number) (some group) seen' rest

  abbrev pub no_groups : List (CandidateGroup Score) → Bool
  no_groups [] = true
  no_groups (g ∷ gs) = false

  abbrev pub wrong_identity : AlgorithmResponse Score → Expected → Bool
  wrong_identity r e =
      not (r.request_id == e.request_id)
      || (not (r.task_uid == e.task_uid)
          || (not (r.ngd_uid == e.ngd_uid) || not (nat_eq r.ngd_generation e.ngd_generation)))

  abbrev pub wrong_snapshots : AlgorithmResponse Score → Expected → Bool
  wrong_snapshots r e =
      not (r.node_static_snapshot_id == e.static_id)
      || (not (r.scheduler_state_snapshot_id == e.state_id)
          || not (r.algorithm_boot_id == e.boot_id))

  abbrev pub is_success : AlgorithmResponse Score → Bool
  is_success r = r.status == lit "SUCCESS"

  unfoldable pub validate_response :
      AlgorithmResponse Score → Expected → List SchedulerNodeState → Checked (Unit {0})
  unfolding check_groups known_nodes
  validate_response r e state = do
    reject_if (wrong_identity r e) identity_mismatch
    reject_if (wrong_snapshots r e) snapshot_mismatch
    reject_if (ltb 3 (length r.candidate_node_groups)) too_many_groups
    reject_if (not (is_success r) && not (r.status == lit "UNSATISFIABLE")) unsupported_status
    reject_if (is_success r && no_groups r.candidate_node_groups) success_without_group
    check_groups (known_nodes state) 1 none [] r.candidate_node_groups

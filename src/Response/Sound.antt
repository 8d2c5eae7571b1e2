-- ===== src/Response/Sound.antt =====
-- `validate_response` decides the specification.
use ngd_ngg_scheduling.Base.{
  ◌≤◌, ◌≡◌, refl, ◌≢◌, ◌↔◌, ◌⊎◌, inl, inr, true, false, List, [], ◌∷◌, none, arith, length, ok,
}
use ngd_ngg_scheduling.Text.{text_Eq, lit}
use ngd_ngg_scheduling.Response.{
  Float64, CandidateGroup, AlgorithmResponse, Expected, SchedulerNodeState, known_nodes,
  check_groups, validate_response, wrong_identity, wrong_snapshots, no_groups, is_success,
}
use ngd_ngg_scheduling.Response.Spec.{all_uids, IsValidResponse}
use ngd_ngg_scheduling.Response.Groups.{Fresh-nil_iff, check_groups_sound, check_groups_complete}

module _ (F : Float64) where
  open F use {Score}

  no_groups_iff : (gs : List (CandidateGroup Score)) → (no_groups F gs ≡ true) ↔ (gs ≡ [])
  no_groups_iff [] = (λ _. refl, λ _. refl)
  no_groups_iff (g ∷ gs) = (λ h. cc, λ h. cc)

  module _ (r : AlgorithmResponse Score) (e : Expected) (state : List SchedulerNodeState) where
    passed :
        validate_response F r e state ≡ ok tt
        → (wrong_identity F r e ≡ false)
          × (wrong_snapshots F r e ≡ false)
          × (length r.candidate_node_groups ≤ 3)
          × ((is_success F r ≡ true) ⊎ ((r.status ≡ lit "UNSATISFIABLE")))
          × ((is_success F r ≡ true) → no_groups F r.candidate_node_groups ≡ false)
          × (check_groups F (known_nodes state) 1 none [] r.candidate_node_groups ≡ ok tt)
    unfolding validate_response
    passed h = ground (arith, text_Eq.beq_iff r.status (lit "UNSATISFIABLE"))

    identity_iff : (wrong_identity F r e ≡ false) ↔ (
        (r.request_id ≡ e.request_id)
        × (r.task_uid ≡ e.task_uid)
        × (r.ngd_uid ≡ e.ngd_uid)
        × (r.ngd_generation ≡ e.ngd_generation))
    identity_iff = ground (
      arith,
      text_Eq.beq_iff r.request_id e.request_id,
      text_Eq.beq_iff r.task_uid e.task_uid,
      text_Eq.beq_iff r.ngd_uid e.ngd_uid,
    )

    snapshots_iff : (wrong_snapshots F r e ≡ false) ↔ (
        (r.node_static_snapshot_id ≡ e.static_id)
        × (r.scheduler_state_snapshot_id ≡ e.state_id)
        × (r.algorithm_boot_id ≡ e.boot_id))
    snapshots_iff = ground (
      arith,
      text_Eq.beq_iff r.node_static_snapshot_id e.static_id,
      text_Eq.beq_iff r.scheduler_state_snapshot_id e.state_id,
      text_Eq.beq_iff r.algorithm_boot_id e.boot_id,
    )

    status_sound :
        ((is_success F r ≡ true) ⊎ (r.status ≡ lit "UNSATISFIABLE"))
        → (is_success F r ≡ true → no_groups F r.candidate_node_groups ≡ false)
        → ((r.status ≡ lit "SUCCESS") × (r.candidate_node_groups ≢ []))
          ⊎ (r.status ≡ lit "UNSATISFIABLE")
    status_sound (inr u) f = inr u
    status_sound (inl s) f = inl (
      (text_Eq.beq_iff r.status (lit "SUCCESS")).0 s,
      λ z. cc (f s, (no_groups_iff r.candidate_node_groups).1 z),
    )

    validate_sound : validate_response F r e state ≡ ok tt → IsValidResponse F r e state
    validate_sound h =
        let p = passed h in
        let i = identity_iff.0 p.0 in
        let s = snapshots_iff.0 p.1 in
        let g = check_groups_sound F (known_nodes state) 1 none [] r.candidate_node_groups p.5 in
        record {
          request_id = i.0;
          task_uid = i.1;
          ngd_uid = i.2;
          ngd_generation = i.3;
          static_id = s.0;
          state_id = s.1;
          boot_id = s.2;
          at_most_three = p.2;
          status = status_sound p.3 p.4;
          groups = g.0;
          ranks = g.1;
          order = g.2;
          disjoint = (Fresh-nil_iff (all_uids F r.candidate_node_groups)).0 g.3;
        }

    validate_complete : IsValidResponse F r e state → validate_response F r e state ≡ ok tt
    unfolding validate_response
    validate_complete v =
        let groups =
          check_groups_complete F (known_nodes state) 1 none [] r.candidate_node_groups v.groups
            v.ranks v.order ((Fresh-nil_iff (all_uids F r.candidate_node_groups)).1 v.disjoint) in
        let same = identity_iff.1 (v.request_id, v.task_uid, v.ngd_uid, v.ngd_generation) in
        let snapshots = snapshots_iff.1 (v.static_id, v.state_id, v.boot_id) in
        elim v.status [
          | inl (s, n) ↦ ground (
            arith,
            v.at_most_three,
            text_Eq.beq_iff r.status (lit "SUCCESS"),
            no_groups_iff r.candidate_node_groups,
          )
          | inr u ↦ ground (
            arith,
            v.at_most_three,
            text_Eq.beq_iff r.status (lit "SUCCESS"),
            text_Eq.beq_iff r.status (lit "UNSATISFIABLE"),
            no_groups_iff r.candidate_node_groups,
          )
        ]

-- The check accepts a response exactly when it is one: its identities and snapshots are those of
-- the request, it has a known status and at most three groups (at least one on SUCCESS), the ranks
-- count from 1, the groups and the nodes in each group are in order, every node has a score in
-- 0..100 and a known UID with its name, and no UID stands twice in the whole response.
pub validate_response_iff :
    (F : Float64) (r : AlgorithmResponse F.Score) (e : Expected) (state : List SchedulerNodeState)
    → (validate_response F r e state ≡ ok tt) ↔ IsValidResponse F r e state
validate_response_iff F r e state = (validate_sound F r e state, validate_complete F r e state)

-- ===== src/Service/Allocation/Accepted.antt =====
-- The response of algorithm_server/go/algorithm/service.go allocate in the check that
-- prc/pkg/controller/prc_controller.go makes of it. That the JSON of a request and of a response is
-- read back as it was written is a hypothesis, with the decoder of a number as a parameter.
use ngd_ngg_scheduling.Base.{
  ℕ, ◌≡◌, ◌≢◌, refl, sym, ap, ◌∙◌, inl, inr, true, false, not, ◌&&◌, List, [], ◌∷◌, Option, none,
  some, ◌==◌, Result, ok, ◌>>◌, reject_if, ℤ, arith, ltb, length, list_eq,
}
use ngd_ngg_scheduling.Text.{Text, text_Eq, lit}
use ngd_ngg_scheduling.Json.{Json, Fields, member, has_member}
use ngd_ngg_scheduling.StaticCache.{Encoding}
use ngd_ngg_scheduling.Worker.{ApiError}
use ngd_ngg_scheduling.Metrics.{Floats}
use ngd_ngg_scheduling.Quantity.Printed.{AllocationFailure}
use ngd_ngg_scheduling.Response.{
  Float64, AlgorithmResponse, CandidateGroup, SchedulerNodeState, Expected, wrong_identity,
  wrong_snapshots, is_success, no_groups, too_many_groups, check_groups, known_nodes,
  validate_response,
}
use ngd_ngg_scheduling.Service.Allocation.{
  WorkerPayload, WorkerResult, AllocationService, AllocationResponse,
}
use ngd_ngg_scheduling.Service.Allocation.Run.{value_of, allocate}
use ngd_ngg_scheduling.Service.Allocation.Echoed.{IsEcho, IsDecided, allocate-IsEcho}

module _ (G : Float64) where
  open G use {Score}

  same_identity :
      (a : AlgorithmResponse Score) (e : Expected)
      → a.request_id ≡ e.request_id
      → a.task_uid ≡ e.task_uid
      → a.ngd_uid ≡ e.ngd_uid
      → a.ngd_generation ≡ e.ngd_generation
      → wrong_identity G a e ≡ false
  same_identity a e h1 h2 h3 h4 = ground (
    arith,
    text_Eq.beq_iff a.request_id e.request_id,
    text_Eq.beq_iff a.task_uid e.task_uid,
    text_Eq.beq_iff a.ngd_uid e.ngd_uid,
  )

  same_snapshots :
      (a : AlgorithmResponse Score) (e : Expected)
      → a.node_static_snapshot_id ≡ e.static_id
      → a.scheduler_state_snapshot_id ≡ e.state_id
      → a.algorithm_boot_id ≡ e.boot_id
      → wrong_snapshots G a e ≡ false
  same_snapshots a e h1 h2 h3 = ground (
    arith,
    text_Eq.beq_iff a.node_static_snapshot_id e.static_id,
    text_Eq.beq_iff a.scheduler_state_snapshot_id e.state_id,
    text_Eq.beq_iff a.algorithm_boot_id e.boot_id,
  )

  some_groups_read :
      (groups : List (CandidateGroup Score)) (written : List Fields)
      → length groups ≡ length written
      → written ≢ []
      → no_groups G groups ≡ false
  some_groups_read [] [] h n = absurd (n refl)
  some_groups_read [] (x ∷ xs) h n = absurd (omega (arith, h))
  some_groups_read (g ∷ gs) written h n = refl

module _ (E : Encoding) (parse_quantity : Text → Text → Option ℤ) (F : Floats) (G : Float64)
    (read_number : Json → ℕ) where
  open F use {Value}
  open G use {Score}

  -- The fields of the request are what the controller compares the response with.
  abbrev pub IsSent : Expected → Fields → Type 0
  IsSent e request =
      (value_of E parse_quantity F (lit "requestId") request ≡ e.request_id)
      × (value_of E parse_quantity F (lit "taskUID") request ≡ e.task_uid)
      × (value_of E parse_quantity F (lit "ngdUID") request ≡ e.ngd_uid)
      × (read_number (member (lit "ngdGeneration") request) ≡ e.ngd_generation)
      × (value_of E parse_quantity F (lit "nodeStaticSnapshotId") request ≡ e.static_id)
      × (has_member (lit "schedulerStateSnapshotId") request ≡ true)
      × (value_of E parse_quantity F (lit "schedulerStateSnapshotId") request ≡ e.state_id)

  -- The controller reads the response as it was written.
  abbrev pub IsRead : AllocationResponse → AlgorithmResponse Score → Type 0
  IsRead r a =
      (a.request_id ≡ r.request_id)
      × (a.task_uid ≡ r.task_uid)
      × (a.ngd_uid ≡ r.ngd_uid)
      × (a.ngd_generation ≡ read_number r.ngd_generation)
      × (a.node_static_snapshot_id ≡ r.node_static_snapshot_id)
      × (some a.scheduler_state_snapshot_id ≡ r.scheduler_state_snapshot_id)
      × (a.algorithm_boot_id ≡ r.algorithm_boot_id)
      × (a.status ≡ r.status)
      × (length a.candidate_node_groups ≡ length r.candidate_node_groups)

  right_identity :
      (s : AllocationService Value) (request : Fields) (e : Expected) (r : AllocationResponse)
      (a : AlgorithmResponse Score)
      → IsSent e request
      → IsEcho E parse_quantity F s request r
      → IsRead r a
      → e.boot_id ≡ s.boot_id
      → (wrong_identity G a e ≡ false) × (wrong_snapshots G a e ≡ false)
  right_identity s request e r a (i1, i2, i3, i4, i5, i6, i7) (j1, j2, j3, j4, j5, j6, j7)
        (k1, k2, k3, k4, k5, k6, k7, k8, k9) boot =
      let same1 : a.request_id ≡ e.request_id = k1 ∙ j1 ∙ i1 in
      let same2 : a.task_uid ≡ e.task_uid = k2 ∙ j2 ∙ i2 in
      let same3 : a.ngd_uid ≡ e.ngd_uid = k3 ∙ j3 ∙ i3 in
      let same4 : a.ngd_generation ≡ e.ngd_generation = k4 ∙ ap read_number j4 ∙ i4 in
      let same5 : a.node_static_snapshot_id ≡ e.static_id = k5 ∙ j5 ∙ i5 in
      let same6 : a.scheduler_state_snapshot_id ≡ e.state_id = cc (k6, j6 i6, i7) in
      let same7 : a.algorithm_boot_id ≡ e.boot_id = k7 ∙ j7 ∙ sym boot in
      (same_identity G a e same1 same2 same3 same4, same_snapshots G a e same5 same6 same7)

  -- The status of a response fits its groups.
  IsPlausible : AlgorithmResponse Score → Type 0
  IsPlausible a =
      ((not (is_success G a) && not (a.status == lit "UNSATISFIABLE")) ≡ false)
      × ((is_success G a && no_groups G a.candidate_node_groups) ≡ false)

  read-IsPlausible :
      (a : AlgorithmResponse Score) (groups : List Fields) (status : Text)
      (failure : Option AllocationFailure)
      → a.status ≡ status
      → length a.candidate_node_groups ≡ length groups
      → IsDecided E parse_quantity F groups status failure
      → IsPlausible a
  unfolding IsPlausible list_eq
  read-IsPlausible a groups status failure e l (inl (some_groups, success, f)) =
      rw (e, success) (refl, some_groups_read G a.candidate_node_groups groups l some_groups)
  read-IsPlausible a groups status failure e l (inr (no_group, unsatisfiable, f)) =
      rw (e, unsatisfiable) (refl, refl)

  -- The controller accepts a response of the server to its own request in all but the groups: where
  -- the request and the response are read as they were written, and the server is the boot that the
  -- controller put its snapshot on, the check of the response is the check of the number of its groups and of
  -- the groups themselves.
  pub allocate-validate_response :
      (calculate : WorkerPayload Value → Result ApiError WorkerResult) (s : AllocationService Value)
      (now : ℕ) (request : Fields) (r : AllocationResponse) (e : Expected)
      (a : AlgorithmResponse Score) (state : List SchedulerNodeState)
      → IsSent e request
      → e.boot_id ≡ s.boot_id
      → allocate E parse_quantity F calculate s now request ≡ ok r
      → IsRead r a
      → validate_response G a e state ≡ (
          reject_if (ltb 3 (length a.candidate_node_groups)) too_many_groups
          >> check_groups G (known_nodes state) 1 none [] a.candidate_node_groups)
  unfolding validate_response IsPlausible
  allocate-validate_response calculate s now request r e a state sent boot h read =
      let (echo, decides, given) = allocate-IsEcho E parse_quantity F calculate s now request r h in
      let (k1, k2, k3, k4, k5, k6, k7, same_status, same_length) = read in
      let (identity, snapshots) = right_identity s request e r a sent echo read boot in
      let (known, grouped) =
        read-IsPlausible a r.candidate_node_groups r.status r.failure same_status same_length
          decides in
      rw (identity, snapshots, known, grouped) refl

-- ===== src/Calculation.antt =====
-- prc/pkg/controller/prc_controller.go: one calculation of a demand. What the API server and the
-- Algorithm server answer is a record; what the processor sends is a list of effects, in order.
-- The text of an error is kept as the value it is printed from.
pub mod Grant
pub mod Demands
pub mod Published
pub mod Concluded
pub mod Scores
use ngd_ngg_scheduling.Base.{
  ℕ, Bool, true, false, not, ◌&&◌, List, [], ◌∷◌, ◌++◌, Option, none, some, if◌then◌else◌, ◌==◌,
  length, nat_eq, ℤ, pos, ltb_ℤ, Result, ok, err,
}
use ngd_ngg_scheduling.Text.{Text, text_Eq, lit}
use ngd_ngg_scheduling.Json.{Fields}
use ngd_ngg_scheduling.Naming.{grant_name, short_hash}
use ngd_ngg_scheduling.Refresh.{
  Got, found, not_found, unavailable, Processed, requeue_after, process_failed,
}
use ngd_ngg_scheduling.StaticSnapshot.{StaticSnapshotStatus, StaticSnapshotState, current}
use ngd_ngg_scheduling.Response.{
  Float64, CandidateGroup, AlgorithmFailure, AlgorithmResponse, Expected, SchedulerNodeState,
  Invalid, validate_response,
}
use ngd_ngg_scheduling.Calculation.Demands.{
  PlatformDemand, SpecError, Apimachinery, validate_spec, algorithm_timeout,
}
use ngd_ngg_scheduling.Calculation.Grant.{
  GrantSpec, PlatformNode, Capacity, build_grant_spec, capacity,
}

abbrev pub default_retry : ℤ
default_retry = pos 10000000000

-- The message of a status.
pub data Detail : Type 0 where
  said : Text → Detail
  unsupported : SpecError → Detail
  invalid : Invalid → Detail
  selected_group : Text → ℕ → Detail

-- The request to POST /api/v1/allocate. `scheduler_state` goes along as it was built.
pub record AlgorithmRequest : Type 0 where
  pub request_id : Text
  pub task_uid : Text
  pub ngd_uid : Text
  pub ngd_generation : ℕ
  pub request_mode : Text
  pub node_static_snapshot_id : Text
  pub scheduler_state_snapshot_id : Text
  pub scheduler_state_captured_at : Text
  pub scheduler_state : List SchedulerNodeState
  pub ngd : Fields
  pub debug_trace : Bool

pub data Effect : Type 0 where
  demand_status : Text → Text → ℕ → Text → Detail → Effect
  ask : AlgorithmRequest → ℤ → Effect
  grant_spec : GrantSpec → Effect
  grant_active : Text → Capacity → Effect
  grant_returned : Text → Effect

pub data Reply (S : Type 0) : Type 0 where
  answered : AlgorithmResponse S → Reply S
  api_error : Text → Text → Bool → Reply S
  call_error : Text → Reply S

-- What buildSchedulerState returns.
pub record StateSnapshot : Type 0 where
  pub id : Text
  pub captured_at : Text
  pub state : List SchedulerNodeState

-- The answers that one calculation meets. A Boolean says that a call returns no error.
pub record Answers (S : Type 0) : Type 0 where
  pub nodes : Option (List PlatformNode)
  pub pods_listed : Bool
  pub static : Option StaticSnapshotState
  pub state : Option StateSnapshot
  pub existing : Got Text
  pub reply : Reply S
  pub latest : Got (Text × ℕ)
  pub status_written : Bool
  pub returned_written : Bool
  pub grant_applied : Bool
  pub grant_read : Option Text
  pub active_written : Bool

pub record Run : Type 0 where
  pub effects : List Effect
  pub ended : Processed

abbrev pub stop : List Effect → Processed → Run
stop effects ended = record { effects = effects; ended = ended }

abbrev pub no_requeue : Processed
no_requeue = requeue_after (pos 0)

-- failPlatformDemand, after the given effects
unfoldable pub fail_demand : List Effect → Text → Detail → Bool → Bool → Run
fail_demand before reason detail retry written = record {
  effects = before ++ demand_status (lit "Failed") [] 0 reason detail ∷ [];
  ended =
      if written then if retry then requeue_after default_retry else no_requeue else process_failed;
}

-- algorithmFailureDetails
unfoldable pub failure_details : Option AlgorithmFailure → Text × Text
failure_details none =
    (lit "NO_FEASIBLE_NODE_GROUP", lit "Algorithm returned no feasible node group")
failure_details (some f) = (
  if f.code == [] then lit "NO_FEASIBLE_NODE_GROUP" else f.code,
  if f.message == [] then lit "Algorithm returned no feasible node group" else f.message,
)

-- demandStillCurrent, where an error of the read is none
unfoldable pub demand_still_current : PlatformDemand → Got (Text × ℕ) → Option Bool
demand_still_current d (found (uid, generation)) =
    some (uid == d.uid && nat_eq generation d.generation)
demand_still_current d not_found = some false
demand_still_current d unavailable = none

module _ (F : Float64) (K : Apimachinery) (decimal : ℕ → Text) where
  open F use {Score}

  -- The identity of the request: the uid, the generation and the short hash of the state.
  abbrev pub request_id : PlatformDemand → Text → Text
  request_id d state_id =
      d.uid ++ lit "-generation-" ++ decimal d.generation ++ lit "-state-" ++ short_hash state_id

  abbrev pub request :
      Bool → PlatformDemand → StaticSnapshotStatus → StateSnapshot → AlgorithmRequest
  request debug d static state = record {
    request_id = request_id d state.id;
    task_uid = d.uid;
    ngd_uid = d.uid;
    ngd_generation = d.generation;
    request_mode = lit "resourcePool";
    node_static_snapshot_id = static.snapshot_id;
    scheduler_state_snapshot_id = state.id;
    scheduler_state_captured_at = state.captured_at;
    scheduler_state = state.state;
    ngd = d.spec;
    debug_trace = debug;
  }

  -- What validateResponse compares the response with.
  abbrev pub expected : PlatformDemand → StaticSnapshotStatus → StateSnapshot → Expected
  expected d static state = record {
    request_id = request_id d state.id;
    task_uid = d.uid;
    ngd_uid = d.uid;
    ngd_generation = d.generation;
    static_id = static.snapshot_id;
    state_id = state.id;
    boot_id = static.algorithm_boot_id;
  }

  module _ (now : Text) (debug : Bool) (d : PlatformDemand) (a : Answers Score) where
    -- The status of the demand, after the status of the grant.
    unfoldable pub fulfil : List Effect → CandidateGroup Score → Text → Run
    fulfil before selected name = record {
      effects =
          before
          ++ demand_status (lit "Fulfilled") name (length selected.nodes) []
              (selected_group selected.group_id (length selected.nodes))
            ∷ [];
      ended = if a.status_written then no_requeue else process_failed;
    }

    -- setPlatformGrantStatus of the grant that was read back, and what follows
    unfoldable pub activate :
        List Effect → List PlatformNode → CandidateGroup Score → Option Text → Run
    unfolding fulfil capacity
    activate before nodes selected none = stop before process_failed
    activate before nodes selected (some name) =
        let active = before ++ grant_active name (capacity K selected.nodes nodes) ∷ [] in
        if a.active_written then fulfil active selected name else stop active process_failed

    -- upsertGrant with the selected group, and what follows
    unfoldable pub publish_group :
        List Effect → List PlatformNode → AlgorithmResponse Score → CandidateGroup Score → Run
    unfolding activate build_grant_spec
    publish_group before nodes r selected =
        let applied = before ++ grant_spec (build_grant_spec d r selected now) ∷ [] in
        if a.grant_applied
        then activate applied nodes selected a.grant_read
        else stop applied process_failed

    -- No group: an existing grant is returned, and the demand has failed.
    unfoldable pub give_up : List Effect → AlgorithmResponse Score → Option Text → Run
    unfolding fail_demand failure_details
    give_up before r none =
        fail_demand before (failure_details r.failure).0 (said (failure_details r.failure).1) false
          a.status_written
    give_up before r (some name) =
        let returned = before ++ grant_returned name ∷ [] in
        if a.returned_written
        then fail_demand returned (failure_details r.failure).0 (said (failure_details r.failure).1)
            false a.status_written
        else stop returned process_failed

    -- The groups of a response that is valid.
    unfoldable pub select_group :
        List Effect
        → List PlatformNode
        → Option Text
        → AlgorithmResponse Score
        → List (CandidateGroup Score)
        → Run
    unfolding publish_group give_up
    select_group before nodes existing r [] = give_up before r existing
    select_group before nodes existing r (selected ∷ rest) = publish_group before nodes r selected

    unfoldable pub accept :
        List Effect
        → List PlatformNode
        → Option Text
        → AlgorithmResponse Score
        → Result Invalid (Unit {0})
        → Run
    unfolding select_group fail_demand
    accept before nodes existing r (ok _) =
        select_group before nodes existing r r.candidate_node_groups
    accept before nodes existing r (err why) =
        fail_demand before (lit "AlgorithmResponseInvalid") (invalid why) true a.status_written

    -- The answer of demandStillCurrent and what follows.
    unfoldable pub check_current :
        List Effect
        → List PlatformNode
        → Option Text
        → AlgorithmResponse Score
        → Expected
        → List SchedulerNodeState
        → Option Bool
        → Run
    unfolding accept
    check_current before nodes existing r e state none = stop before process_failed
    check_current before nodes existing r e state (some false) = stop before no_requeue
    check_current before nodes existing r e state (some true) =
        accept before nodes existing r (validate_response F r e state)

    -- The answer of the Algorithm server and what follows.
    unfoldable pub read_reply :
        List Effect
        → List PlatformNode
        → Option Text
        → Expected
        → List SchedulerNodeState
        → Reply Score
        → Run
    unfolding check_current fail_demand demand_still_current
    read_reply before nodes existing e state (answered r) =
        check_current before nodes existing r e state (demand_still_current d a.latest)
    read_reply before nodes existing e state (api_error code message retryable) =
        if retryable
        then fail_demand before (lit "AlgorithmRequestFailed") (said message) true a.status_written
        else fail_demand before code (said message) false a.status_written
    read_reply before nodes existing e state (call_error message) =
        fail_demand before (lit "AlgorithmRequestFailed") (said message) true a.status_written

    -- The request to the Algorithm server and what follows.
    unfoldable pub call_algorithm :
        List PlatformNode → StaticSnapshotStatus → StateSnapshot → Got Text → Run
    unfolding read_reply algorithm_timeout
    call_algorithm nodes static state unavailable = stop [] process_failed
    call_algorithm nodes static state not_found =
        read_reply (ask (request debug d static state) (algorithm_timeout K d.spec) ∷ []) nodes none
          (expected d static state) state.state a.reply
    call_algorithm nodes static state (found name) =
        read_reply (ask (request debug d static state) (algorithm_timeout K d.spec) ∷ []) nodes
          (some name) (expected d static state) state.state a.reply

    -- buildSchedulerState and what follows
    unfoldable pub with_state :
        List PlatformNode → StaticSnapshotStatus → Option StateSnapshot → Run
    unfolding call_algorithm
    with_state nodes static none = stop [] process_failed
    with_state nodes static (some state) = call_algorithm nodes static state a.existing

    -- The test of the static snapshot and what follows.
    unfoldable pub with_static : List PlatformNode → StaticSnapshotStatus × Bool → Run
    unfolding with_state fail_demand
    with_static nodes (static, false) =
        fail_demand [] (lit "StaticSnapshotNotReady")
          (said (lit "waiting for independent Node static snapshot synchronization")) true
          a.status_written
    with_static nodes (static, true) = with_state nodes static a.state

    -- The lists of Nodes and Pods and what follows.
    unfoldable pub with_nodes : Option (List PlatformNode) → Run
    unfolding with_static current
    with_nodes none = stop [] process_failed
    with_nodes (some nodes) =
        if a.pods_listed then with_static nodes (current a.static) else stop [] process_failed

    -- The check of the spec and what follows.
    unfoldable pub with_spec : Result SpecError (Unit {0}) → Run
    unfolding with_nodes fail_demand
    with_spec (err why) =
        fail_demand [] (lit "UnsupportedDemand") (unsupported why) false a.status_written
    with_spec (ok _) = with_nodes a.nodes

    -- reconcilePlatformDemand
    unfoldable pub reconcile_demand : Run
    unfolding with_spec validate_spec
    reconcile_demand = with_spec (validate_spec K d.spec)

  -- Process: a demand that is gone needs no calculation.
  unfoldable pub process : Text → Bool → Got PlatformDemand → Answers Score → Run
  unfolding reconcile_demand
  process now debug (found d) a = reconcile_demand now debug d a
  process now debug not_found a = stop [] no_requeue
  process now debug unavailable a = stop [] process_failed

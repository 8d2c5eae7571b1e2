-- ===== src/Calculation/Concluded.antt =====
-- How a calculation ends.
use ngd_ngg_scheduling.Base.{
  ℕ, ◌≡◌, refl, ◌⊎◌, inl, inr, Bool, true, false, List, [], ◌∷◌, ◌++◌, Option, none, some, arith, ℤ,
  Result, ok, err,
}
use ngd_ngg_scheduling.Text.{Text, text_Eq, lit}
use ngd_ngg_scheduling.Refresh.{Got, found, not_found, unavailable, requeue_after, process_failed}
use ngd_ngg_scheduling.StaticSnapshot.{StaticSnapshotStatus, current}
use ngd_ngg_scheduling.Response.{
  Float64, CandidateGroup, AlgorithmResponse, Expected, SchedulerNodeState, Invalid,
  validate_response,
}
use ngd_ngg_scheduling.Calculation.{
  AlgorithmRequest, Detail, Effect, demand_status, ask, grant_spec, grant_active, grant_returned,
  Reply, answered, api_error, call_error, StateSnapshot, Answers, Run, fail_demand,
  demand_still_current, expected, request, fulfil, activate, publish_group, give_up, select_group,
  accept, check_current, read_reply, call_algorithm, with_state, with_static, with_nodes, with_spec,
  reconcile_demand, default_retry, no_requeue, failure_details, said, invalid, unsupported,
}
use ngd_ngg_scheduling.Calculation.Demands.{
  PlatformDemand, Apimachinery, SpecError, validate_spec, algorithm_timeout,
}
use ngd_ngg_scheduling.Calculation.Grant.{GrantSpec, PlatformNode, build_grant_spec}

abbrev phase_of : Effect → Option Text
phase_of (demand_status phase grant count reason message) = some phase
phase_of (ask q t) = none
phase_of (grant_spec g) = none
phase_of (grant_active name c) = none
phase_of (grant_returned name) = none

-- The phase that the last effect writes, if that is a status of the demand.
abbrev pub last_phase : List Effect → Option Text
last_phase [] = none
last_phase (e ∷ []) = phase_of e
last_phase (e ∷ e' ∷ es) = last_phase (e' ∷ es)

last_phase_append : (es : List Effect) (e : Effect) → last_phase (es ++ e ∷ []) ≡ phase_of e
last_phase_append [] e = refl
last_phase_append (x ∷ []) e = refl
last_phase_append (x ∷ y ∷ es) e = last_phase_append (y ∷ es) e

-- The calculation has asked the Algorithm server, and has written nothing.
abbrev pub OnlyAsked : List Effect → Type 0
OnlyAsked effects = (q : AlgorithmRequest) × (t : ℤ) × (effects ≡ ask q t ∷ [])

-- The calculation ended without an error.
abbrev Reports : Bool → Option Bool → Run → Type 0
Reports written still run =
    (run.ended ≡ process_failed)
    ⊎ (((run.ended ≡ no_requeue) × (still ≡ some false) × OnlyAsked run.effects)
        ⊎ ((written ≡ true)
            × (((last_phase run.effects ≡ some (lit "Failed"))
                  × ((run.ended ≡ no_requeue) ⊎ (run.ended ≡ requeue_after default_retry)))
                ⊎ ((last_phase run.effects ≡ some (lit "Fulfilled")) × (run.ended ≡ no_requeue)))))

module _ (F : Float64) (K : Apimachinery) (decimal : ℕ → Text) (now : Text) (debug : Bool)
    (d : PlatformDemand) (a : Answers F.Score) where
  open F use {Score}

  abbrev pub IsReported : Run → Type 0
  IsReported = Reports a.status_written (demand_still_current d a.latest)

  fail-IsReported :
      (before : List Effect) (reason : Text) (detail : Detail) (retry : Bool)
      → IsReported (fail_demand before reason detail retry a.status_written)
  unfolding fail_demand
  fail-IsReported before reason detail retry =
      ground (arith, last_phase_append before (demand_status (lit "Failed") [] 0 reason detail))

  module _ (q : AlgorithmRequest) (t : ℤ) (nodes : List PlatformNode) where
    activate-IsReported :
        (selected : CandidateGroup Score) (name : Option Text) (g : GrantSpec)
        → IsReported
            (activate F K decimal now debug d a (ask q t ∷ grant_spec g ∷ []) nodes selected name)
    unfolding activate fulfil
    activate-IsReported selected none g = inl refl
    activate-IsReported selected (some name) g = ground arith

    publish-IsReported :
        (r : AlgorithmResponse Score) (selected : CandidateGroup Score)
        → IsReported (publish_group F K decimal now debug d a (ask q t ∷ []) nodes r selected)
    unfolding publish_group
    publish-IsReported r selected =
        ground
          (arith, activate-IsReported selected a.grant_read (build_grant_spec d r selected now))

    give_up-IsReported :
        (r : AlgorithmResponse Score) (existing : Option Text)
        → IsReported (give_up F K decimal now debug d a (ask q t ∷ []) r existing)
    unfolding give_up
    give_up-IsReported r none =
        fail-IsReported (ask q t ∷ []) (failure_details r.failure).0
          (said (failure_details r.failure).1) false
    give_up-IsReported r (some name) = ground (
      arith,
      fail-IsReported (ask q t ∷ grant_returned name ∷ []) (failure_details r.failure).0
          (said (failure_details r.failure).1) false,
    )

    select-IsReported :
        (existing : Option Text) (r : AlgorithmResponse Score)
        (groups : List (CandidateGroup Score))
        → IsReported (select_group F K decimal now debug d a (ask q t ∷ []) nodes existing r groups)
    unfolding select_group
    select-IsReported existing r [] = give_up-IsReported r existing
    select-IsReported existing r (selected ∷ rest) = publish-IsReported r selected

    accept-IsReported :
        (existing : Option Text) (r : AlgorithmResponse Score) (checked : Result Invalid (Unit {0}))
        → IsReported (accept F K decimal now debug d a (ask q t ∷ []) nodes existing r checked)
    unfolding accept
    accept-IsReported existing r (err why) =
        fail-IsReported (ask q t ∷ []) (lit "AlgorithmResponseInvalid") (invalid why) true
    accept-IsReported existing r (ok tt) = select-IsReported existing r r.candidate_node_groups

    current-IsReported :
        (existing : Option Text) (e : Expected) (state : List SchedulerNodeState)
        (r : AlgorithmResponse Score) (still : Option Bool)
        → demand_still_current d a.latest ≡ still
        → IsReported
            (check_current F K decimal now debug d a (ask q t ∷ []) nodes existing r e state still)
    unfolding check_current
    current-IsReported existing e state r none h = inl refl
    current-IsReported existing e state r (some false) h = inr (inl (refl, h, (q, t, refl)))
    current-IsReported existing e state r (some true) h =
        accept-IsReported existing r (validate_response F r e state)

    reply-IsReported :
        (existing : Option Text) (e : Expected) (state : List SchedulerNodeState)
        (reply : Reply Score)
        → IsReported
            (read_reply F K decimal now debug d a (ask q t ∷ []) nodes existing e state reply)
    unfolding read_reply
    reply-IsReported existing e state (answered r) =
        current-IsReported existing e state r (demand_still_current d a.latest) refl
    reply-IsReported existing e state (api_error code message true) =
        fail-IsReported (ask q t ∷ []) (lit "AlgorithmRequestFailed") (said message) true
    reply-IsReported existing e state (api_error code message false) =
        fail-IsReported (ask q t ∷ []) code (said message) false
    reply-IsReported existing e state (call_error message) =
        fail-IsReported (ask q t ∷ []) (lit "AlgorithmRequestFailed") (said message) true

  call-IsReported :
      (nodes : List PlatformNode) (static : StaticSnapshotStatus) (state : StateSnapshot)
      (existing : Got Text)
      → IsReported (call_algorithm F K decimal now debug d a nodes static state existing)
  unfolding call_algorithm
  call-IsReported nodes static state unavailable = inl refl
  call-IsReported nodes static state not_found =
      reply-IsReported (request F K decimal debug d static state) (algorithm_timeout K d.spec) nodes
        none (expected F K decimal d static state) state.state a.reply
  call-IsReported nodes static state (found name) =
      reply-IsReported (request F K decimal debug d static state) (algorithm_timeout K d.spec) nodes
        (some name) (expected F K decimal d static state) state.state a.reply

  state-IsReported :
      (nodes : List PlatformNode) (static : StaticSnapshotStatus) (state : Option StateSnapshot)
      → IsReported (with_state F K decimal now debug d a nodes static state)
  unfolding with_state
  state-IsReported nodes static none = inl refl
  state-IsReported nodes static (some state) = call-IsReported nodes static state a.existing

  static-IsReported :
      (nodes : List PlatformNode) (static : StaticSnapshotStatus) (ready : Bool)
      → IsReported (with_static F K decimal now debug d a nodes (static, ready))
  unfolding with_static
  static-IsReported nodes static false =
      fail-IsReported [] (lit "StaticSnapshotNotReady")
        (said (lit "waiting for independent Node static snapshot synchronization")) true
  static-IsReported nodes static true = state-IsReported nodes static a.state

  nodes-IsReported :
      (nodes : Option (List PlatformNode)) → IsReported (with_nodes F K decimal now debug d a nodes)
  unfolding with_nodes
  nodes-IsReported none = inl refl
  nodes-IsReported (some nodes) =
      ground (arith, static-IsReported nodes (current a.static).0 (current a.static).1)

  spec-IsReported :
      (checked : Result SpecError (Unit {0}))
      → IsReported (with_spec F K decimal now debug d a checked)
  unfolding with_spec
  spec-IsReported (err why) = fail-IsReported [] (lit "UnsupportedDemand") (unsupported why) false
  spec-IsReported (ok tt) = nodes-IsReported a.nodes

  -- A calculation that ends without an error either found the demand gone or changed when it read
  -- it again, and then has only asked the Algorithm server and written neither a grant nor a status, or its last effect is an accepted status of the demand: Fulfilled without a retry, or
  -- Failed with no retry or a retry after default_retry. So a retry is asked for only after Failed.
  pub reconcile_demand-IsReported : IsReported (reconcile_demand F K decimal now debug d a)
  unfolding reconcile_demand
  reconcile_demand-IsReported = spec-IsReported (validate_spec K d.spec)

-- ===== src/Calculation/Published.antt =====
-- The grant that a calculation writes.
use ngd_ngg_scheduling.Base.{
  ℕ, ◌≡◌, refl, ◌⊎◌, inl, inr, Bool, true, false, List, [], ◌∷◌, Option, none, some, arith,
  nat_eq_iff, ℤ, Result, ok, err,
}
use ngd_ngg_scheduling.Text.{Text, text_Eq}
use ngd_ngg_scheduling.Refresh.{Got, found, not_found, unavailable}
use ngd_ngg_scheduling.StaticSnapshot.{StaticSnapshotStatus, current}
use ngd_ngg_scheduling.Response.{
  Float64, CandidateGroup, AlgorithmResponse, Expected, SchedulerNodeState, Invalid,
  validate_response,
}
use ngd_ngg_scheduling.Response.Spec.{IsValidResponse}
use ngd_ngg_scheduling.Response.Sound.{validate_response_iff}
use ngd_ngg_scheduling.Calculation.{
  AlgorithmRequest, Effect, demand_status, ask, grant_spec, grant_active, grant_returned, Reply,
  answered, api_error, call_error, StateSnapshot, Answers, Run, fail_demand, demand_still_current,
  expected, request, fulfil, activate, publish_group, give_up, select_group, accept, check_current,
  read_reply, call_algorithm, with_state, with_static, with_nodes, with_spec, reconcile_demand,
}
use ngd_ngg_scheduling.Calculation.Demands.{
  PlatformDemand, Apimachinery, SpecError, validate_spec, algorithm_timeout,
}
use ngd_ngg_scheduling.Calculation.Grant.{GrantSpec, PlatformNode, build_grant_spec}

-- The grants among the effects.
abbrev pub written_grants : List Effect → List GrantSpec
written_grants [] = []
written_grants (grant_spec g ∷ es) = g ∷ written_grants es
written_grants (demand_status p g n r m ∷ es) = written_grants es
written_grants (ask q t ∷ es) = written_grants es
written_grants (grant_active n c ∷ es) = written_grants es
written_grants (grant_returned n ∷ es) = written_grants es

-- No grant is written, or a single one with the property.
abbrev pub Writes : (GrantSpec → Type 0) → Run → Type 0
Writes P run =
    (written_grants run.effects ≡ [])
    ⊎ ((g : GrantSpec) × (written_grants run.effects ≡ g ∷ []) × P g)

module _ (F : Float64) (K : Apimachinery) (decimal : ℕ → Text) (now : Text) (debug : Bool)
    (d : PlatformDemand) (a : Answers F.Score) where
  open F use {Score}

  -- The reply justifies the grant: the demand was read again unchanged, the response is valid, and
  -- the grant is built from its first group.
  abbrev pub IsJustified : Expected → List SchedulerNodeState → GrantSpec → Type 0
  IsJustified e state g =
      (r : AlgorithmResponse Score) × ((selected : CandidateGroup Score) × ((rest : List
            (CandidateGroup Score))
          × (a.reply ≡ answered r)
          × (a.latest ≡ found (d.uid, d.generation))
          × IsValidResponse F r e state
          × (r.candidate_node_groups ≡ selected ∷ rest)
          × (g ≡ build_grant_spec d r selected now)))

  module _ (q : AlgorithmRequest) (t : ℤ) (nodes : List PlatformNode) where
    activate_grants :
        (selected : CandidateGroup Score) (name : Option Text) (g : GrantSpec)
        → written_grants
            (activate F K decimal now debug d a
              (ask q t ∷ grant_spec g ∷ [])
              nodes
              selected
              name).effects
          ≡ g ∷ []
    unfolding activate fulfil
    activate_grants selected none g = refl
    activate_grants selected (some name) g = ground arith

    publish_grants :
        (r : AlgorithmResponse Score) (selected : CandidateGroup Score)
        → written_grants
            (publish_group F K decimal now debug d a (ask q t ∷ []) nodes r selected).effects
          ≡ build_grant_spec d r selected now ∷ []
    unfolding publish_group
    publish_grants r selected =
        ground (arith, activate_grants selected a.grant_read (build_grant_spec d r selected now))

    give_up_grants :
        (r : AlgorithmResponse Score) (existing : Option Text)
        → written_grants (give_up F K decimal now debug d a (ask q t ∷ []) r existing).effects ≡ []
    unfolding give_up fail_demand
    give_up_grants r none = refl
    give_up_grants r (some name) = ground arith

    select_grants :
        (existing : Option Text) (e : Expected) (state : List SchedulerNodeState)
        (r : AlgorithmResponse Score) (groups : List (CandidateGroup Score))
        → a.reply ≡ answered r
        → a.latest ≡ found (d.uid, d.generation)
        → IsValidResponse F r e state
        → r.candidate_node_groups ≡ groups
        → Writes
            (IsJustified e state)
            (select_group F K decimal now debug d a (ask q t ∷ []) nodes existing r groups)
    unfolding select_group
    select_grants existing e state r [] reply latest valid h = inl (give_up_grants r existing)
    select_grants existing e state r (selected ∷ rest) reply latest valid h = inr (
      build_grant_spec d r selected now,
      publish_grants r selected,
      (r, (selected, (rest, reply, latest, valid, h, refl))),
    )

    accept_grants :
        (existing : Option Text) (e : Expected) (state : List SchedulerNodeState)
        (r : AlgorithmResponse Score) (checked : Result Invalid (Unit {0}))
        → a.reply ≡ answered r
        → a.latest ≡ found (d.uid, d.generation)
        → validate_response F r e state ≡ checked
        → Writes
            (IsJustified e state)
            (accept F K decimal now debug d a (ask q t ∷ []) nodes existing r checked)
    unfolding accept fail_demand
    accept_grants existing e state r (err why) reply latest v = inl refl
    accept_grants existing e state r (ok tt) reply latest v =
        select_grants existing e state r r.candidate_node_groups reply latest
          ((validate_response_iff F r e state).0 v) refl

    still_current_lem :
        (latest : Got (Text × ℕ))
        → demand_still_current d latest ≡ some true
        → latest ≡ found (d.uid, d.generation)
    unfolding demand_still_current
    still_current_lem (found (uid, generation)) h =
        ground (arith, text_Eq.beq_iff uid d.uid, nat_eq_iff generation d.generation)
    still_current_lem not_found h = cc
    still_current_lem unavailable h = cc

    current_grants :
        (existing : Option Text) (e : Expected) (state : List SchedulerNodeState)
        (r : AlgorithmResponse Score) (still : Option Bool)
        → a.reply ≡ answered r
        → demand_still_current d a.latest ≡ still
        → Writes
            (IsJustified e state)
            (check_current F K decimal now debug d a (ask q t ∷ []) nodes existing r e state still)
    unfolding check_current
    current_grants existing e state r none reply h = inl refl
    current_grants existing e state r (some false) reply h = inl refl
    current_grants existing e state r (some true) reply h =
        accept_grants existing e state r (validate_response F r e state) reply
          (still_current_lem a.latest h) refl

    reply_grants :
        (existing : Option Text) (e : Expected) (state : List SchedulerNodeState)
        (reply : Reply Score)
        → a.reply ≡ reply
        → Writes
            (IsJustified e state)
            (read_reply F K decimal now debug d a (ask q t ∷ []) nodes existing e state reply)
    unfolding read_reply fail_demand
    reply_grants existing e state (answered r) h =
        current_grants existing e state r (demand_still_current d a.latest) h refl
    reply_grants existing e state (api_error code message retryable) h = ground arith
    reply_grants existing e state (call_error message) h = inl refl

  -- The calculation had a ready static snapshot and a scheduler state, and the reply to its request
  -- justifies the grant.
  abbrev pub IsGranted : GrantSpec → Type 0
  IsGranted g =
      (static : StaticSnapshotStatus) × ((state : StateSnapshot) × (current a.static
          ≡ (static, true))
        × (a.state ≡ some state)
        × IsJustified (expected F K decimal d static state) state.state g)

  lift :
      (static : StaticSnapshotStatus) (state : StateSnapshot) (run : Run)
      → current a.static ≡ (static, true)
      → a.state ≡ some state
      → Writes (IsJustified (expected F K decimal d static state) state.state) run
      → Writes IsGranted run
  lift static state run c s (inl e) = inl e
  lift static state run c s (inr (g, e, j)) = inr (g, e, (static, (state, c, s, j)))

  call_grants :
      (nodes : List PlatformNode) (static : StaticSnapshotStatus) (state : StateSnapshot)
      (existing : Got Text)
      → current a.static ≡ (static, true)
      → a.state ≡ some state
      → Writes IsGranted (call_algorithm F K decimal now debug d a nodes static state existing)
  unfolding call_algorithm
  call_grants nodes static state unavailable c s = inl refl
  call_grants nodes static state not_found c s =
      lift static state (call_algorithm F K decimal now debug d a nodes static state not_found) c s
        (reply_grants (request F K decimal debug d static state) (algorithm_timeout K d.spec) nodes
          none (expected F K decimal d static state) state.state a.reply refl)
  call_grants nodes static state (found name) c s =
      lift static state (call_algorithm F K decimal now debug d a nodes static state (found name)) c
        s
        (reply_grants (request F K decimal debug d static state) (algorithm_timeout K d.spec) nodes
          (some name) (expected F K decimal d static state) state.state a.reply refl)

  state_grants :
      (nodes : List PlatformNode) (static : StaticSnapshotStatus) (state : Option StateSnapshot)
      → current a.static ≡ (static, true)
      → a.state ≡ state
      → Writes IsGranted (with_state F K decimal now debug d a nodes static state)
  unfolding with_state
  state_grants nodes static none c s = inl refl
  state_grants nodes static (some state) c s = call_grants nodes static state a.existing c s

  static_grants :
      (nodes : List PlatformNode) (static : StaticSnapshotStatus) (ready : Bool)
      → current a.static ≡ (static, ready)
      → Writes IsGranted (with_static F K decimal now debug d a nodes (static, ready))
  unfolding with_static fail_demand
  static_grants nodes static false c = inl refl
  static_grants nodes static true c = state_grants nodes static a.state c refl

  nodes_grants :
      (nodes : Option (List PlatformNode))
      → Writes IsGranted (with_nodes F K decimal now debug d a nodes)
  unfolding with_nodes
  nodes_grants none = inl refl
  nodes_grants (some nodes) =
      ground (arith, static_grants nodes (current a.static).0 (current a.static).1 refl)

  spec_grants :
      (checked : Result SpecError (Unit {0}))
      → Writes IsGranted (with_spec F K decimal now debug d a checked)
  unfolding with_spec fail_demand
  spec_grants (err why) = inl refl
  spec_grants (ok tt) = nodes_grants a.nodes

  -- A calculation writes no grant, or exactly one. In the second case the static snapshot was
  -- ready, the Algorithm server answered, the demand was read again with the same UID and
  -- generation, the answer is a valid response to this request, and the grant is what
  -- build_grant_spec makes of its first group.
  pub grant_written_justified : Writes IsGranted (reconcile_demand F K decimal now debug d a)
  unfolding reconcile_demand
  grant_written_justified = spec_grants (validate_spec K d.spec)

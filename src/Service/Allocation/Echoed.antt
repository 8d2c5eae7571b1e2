-- ===== src/Service/Allocation/Echoed.antt =====
-- algorithm_server/go/algorithm/service.go allocate: what a response says of its request.
use mathlib.Core.Path.{subst}
use ngd_ngg_scheduling.Base.{
  ℕ, ◌≡◌, ◌≢◌, refl, ap, ◌⊎◌, inl, inr, true, false, List, [], ◌∷◌, map, Option, none, some,
  is_some, if◌then◌else◌, Result, ok, ◌>>◌, ℤ, arith, All, Bool-cases, bind-ok, reject_if-ok,
  ok-injective,
}
use ngd_ngg_scheduling.Text.{Text, text_Eq, lit, is_empty}
use ngd_ngg_scheduling.Json.{Fields, member, has_member}
use ngd_ngg_scheduling.StaticCache.{Encoding, CachedSnapshot, StaticCache, is_version, get}
use ngd_ngg_scheduling.Topology.{resolve_nodes}
use ngd_ngg_scheduling.Worker.{ApiError}
use ngd_ngg_scheduling.Quantity.{normalize_worker_resources}
use ngd_ngg_scheduling.Quantity.Computed.{of_request-ok}
use ngd_ngg_scheduling.Quantity.Printed.{AllocationFailure, format_candidate_resources}
use ngd_ngg_scheduling.Metrics.{Floats}
use ngd_ngg_scheduling.Service.Allocation.{
  static_not_found, topology_failed, WorkerPayload, WorkerResult, AllocationService,
  AllocationResponse, node_fields, required_fields, found_or,
}
use ngd_ngg_scheduling.Service.Allocation.Run.{
  value_of, check_required, constrained_request, payload_of, prepare, no_groups, respond, allocate,
}

is_empty-ne : (s : Text) → is_empty s ≡ false → s ≢ []
is_empty-ne [] h = cc
is_empty-ne (x ∷ s) h = λ e. cc

found_or-ok :
    {A : Type 0} (why : ApiError) (o : Option A) (a : A) → found_or why o ≡ ok a → o ≡ some a
found_or-ok why none a h = cc
found_or-ok why (some b) a h = ap some (ok-injective b a h)

is_version_id :
    (id : Text) (o : Option CachedSnapshot) (s : CachedSnapshot)
    → is_version id o ≡ true
    → o ≡ some s
    → s.snapshot_id ≡ id
is_version_id id none s h e = cc
is_version_id id (some t) s h e = ground (arith, text_Eq.beq_iff t.snapshot_id id)

-- What the cache finds has the identity.
get_id : (id : Text) (c : StaticCache) (s : CachedSnapshot) → get id c ≡ some s → s.snapshot_id ≡ id
unfolding get
get_id id c s h = elim (Bool-cases (is_version id c.current)) [
  | inl e ↦ is_version_id id c.current s e (rw e at h)
  | inr n ↦ elim (Bool-cases (is_version id c.previous)) [
    | inl e ↦ is_version_id id c.previous s e (rw (n, e) at h)
    | inr m ↦ cc (rw (n, m) at h)
  ]
]

module _ (E : Encoding) (parse_quantity : Text → Text → Option ℤ) (F : Floats) where
  open F use {Value}

  abbrev pub IsGiven : Fields → Text → Type 0
  IsGiven request name = value_of E parse_quantity F name request ≢ []

  check_required-IsGiven :
      (request : Fields) (names : List Text)
      → check_required E parse_quantity F request names ≡ ok tt
      → All (IsGiven request) names
  unfolding check_required
  check_required-IsGiven request [] h = tt
  check_required-IsGiven request (name ∷ rest) h =
      let (filled, later) =
        reject_if-ok _ _ (check_required E parse_quantity F request rest) tt h in
      (is_empty-ne _ filled, check_required-IsGiven request rest later)

  -- What is asked of the worker stands on the static snapshot that the request names.
  abbrev IsPrepared : Fields → WorkerPayload Value → Type 0
  IsPrepared request p =
      All (IsGiven request) required_fields
      × (p.static_snapshot.snapshot_id
          ≡ value_of E parse_quantity F (lit "nodeStaticSnapshotId") request)

  prepare-IsPrepared :
      (s : AllocationService Value) (now : ℕ) (request : Fields) (p : WorkerPayload Value)
      → prepare E parse_quantity F s now request ≡ ok p
      → IsPrepared request p
  unfolding prepare payload_of
  prepare-IsPrepared s now request p h =
      let asked =
        found_or static_not_found
          (get (value_of E parse_quantity F (lit "nodeStaticSnapshotId") request) s.static) in
      let (static, first, h2) =
        bind-ok (check_required E parse_quantity F request required_fields >> asked) _ p
          (of_request-ok _ _ p h) in
      let (u, given, found) =
        bind-ok (check_required E parse_quantity F request required_fields) (λ v. asked) static
          first in
      let (nodes, resolved, h3) =
        bind-ok (found_or topology_failed (resolve_nodes E s.topology static.nodes).0) _ p h2 in
      let (copy, e, h4) =
        bind-ok (constrained_request E parse_quantity F s static request) _ p h3 in
      let (normalized, f, h5) =
        bind-ok (normalize_worker_resources E parse_quantity copy (map node_fields nodes)) _ p h4 in
      subst (IsPrepared request) (ok-injective _ p h5) (
        check_required-IsGiven request required_fields given,
        get_id _ s.static static (found_or-ok _ _ static found),
      )

  -- A response has groups or says why not.
  abbrev pub IsDecided : List Fields → Text → Option AllocationFailure → Type 0
  IsDecided groups status failure =
      ((groups ≢ []) × (status ≡ lit "SUCCESS") × (failure ≡ none))
      ⊎ ((groups ≡ []) × (status ≡ lit "UNSATISFIABLE") × (is_some failure ≡ true))

  abbrev pub Decides : AllocationResponse → Type 0
  Decides r = IsDecided r.candidate_node_groups r.status r.failure

  decided :
      (groups : List Fields) (failure : AllocationFailure)
      → IsDecided groups
          (if no_groups E parse_quantity F groups then lit "UNSATISFIABLE" else lit "SUCCESS")
          (if no_groups E parse_quantity F groups then some failure else none)
  decided [] failure = inr (refl, refl, refl)
  decided (g ∷ gs) failure = inl (λ e. cc, refl, refl)

  -- The identities of the response are those of the request, and the boot that of the server.
  abbrev pub IsEcho : AllocationService Value → Fields → AllocationResponse → Type 0
  IsEcho s request r =
      (r.request_id ≡ value_of E parse_quantity F (lit "requestId") request)
      × (r.task_uid ≡ value_of E parse_quantity F (lit "taskUID") request)
      × (r.ngd_uid ≡ value_of E parse_quantity F (lit "ngdUID") request)
      × (r.ngd_generation ≡ member (lit "ngdGeneration") request)
      × (r.node_static_snapshot_id
          ≡ value_of E parse_quantity F (lit "nodeStaticSnapshotId") request)
      × (has_member (lit "schedulerStateSnapshotId") request ≡ true
          → r.scheduler_state_snapshot_id
            ≡ some (value_of E parse_quantity F (lit "schedulerStateSnapshotId") request))
      × (r.algorithm_boot_id ≡ s.boot_id)

  respond-IsEcho :
      (s : AllocationService Value) (request : Fields) (p : WorkerPayload Value)
      (result : WorkerResult) (r : AllocationResponse)
      → IsPrepared request p
      → respond E parse_quantity F s request p result ≡ ok r
      → IsEcho s request r × Decides r
  unfolding respond
  respond-IsEcho s request p result r (given, static) h =
      let (groups, e, h1) =
        bind-ok (format_candidate_resources E result.candidate_node_groups) _ r
          (of_request-ok _ _ r h) in
      subst (λ t. IsEcho s request t × Decides t) (ok-injective _ r h1)
        ((refl, refl, refl, refl, static, λ k. rw k refl, refl), decided groups _)

  -- A response of `allocate` names the request, the task, the demand, its generation, the static
  -- snapshot and the state snapshot of the request, and the boot of the server; the names that the
  -- request must have are not empty. It either has groups and the status of success, or none, the
  -- status of an unsatisfiable demand and a failure.
  pub allocate-IsEcho :
      (calculate : WorkerPayload Value → Result ApiError WorkerResult) (s : AllocationService Value)
      (now : ℕ) (request : Fields) (r : AllocationResponse)
      → allocate E parse_quantity F calculate s now request ≡ ok r
      → IsEcho s request r × Decides r × All (IsGiven request) required_fields
  unfolding allocate
  allocate-IsEcho calculate s now request r h =
      let (p, prepared, h1) = bind-ok (prepare E parse_quantity F s now request) _ r h in
      let (result, calculated, h2) = bind-ok (calculate p) _ r h1 in
      let ready = prepare-IsPrepared s now request p prepared in
      let (echo, decides) = respond-IsEcho s request p result r ready h2 in (echo, decides, ready.0)

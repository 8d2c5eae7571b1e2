-- ===== src/Service/Allocation/Asked.antt =====
-- algorithm_server/go/algorithm/service.go allocate: what the worker is asked.
use mathlib.Core.Path.{subst}
use ngd_ngg_scheduling.Base.{
  ℕ, ◌≡◌, refl, sym, ap, ◌∙◌, true, false, List, [], ◌∷◌, map, Option, none, some, Result, ok, err,
  ◌>>◌, ℤ, arith, bind-ok, list_eq, ok-injective,
}
use ngd_ngg_scheduling.Text.{Text, text_Eq, lit}
use ngd_ngg_scheduling.Json.{
  Json, text, array, object, Fields, member, has_member, set_member, delete_member,
}
use ngd_ngg_scheduling.Json.Members.{
  member-set_member, member-delete_member, has_member-delete_member,
}
use ngd_ngg_scheduling.Quantity.Units.{IsInt64}
use ngd_ngg_scheduling.StaticCache.{Encoding, CachedSnapshot, get}
use ngd_ngg_scheduling.Topology.{TopologyCache, Constraints, resolve_nodes, resolve_demand_labels}
use ngd_ngg_scheduling.Service.Usage.{normalize_usage_states}
use ngd_ngg_scheduling.Worker.{ApiError}
use ngd_ngg_scheduling.Quantity.{invalid_request, object_items, normalize_worker_resources}
use ngd_ngg_scheduling.Quantity.Computed.{of_request-ok}
use ngd_ngg_scheduling.Quantity.Decimals.{
  IsForWorker, KeepsOthers, normalize_worker_resources-IsForWorker,
}
use ngd_ngg_scheduling.Metrics.{Floats}
use ngd_ngg_scheduling.Service.Allocation.{
  static_not_found, topology_failed, invalid_labels, state_fields, constraint_fields,
  with_constraints, WorkerPayload, AllocationService, node_fields, required_fields, found_or,
  instead,
}
use ngd_ngg_scheduling.Service.Allocation.Run.{
  value_of, check_required, constrained_request, payload_of, prepare,
}

abbrev pub constraints_name : Text
constraints_name = lit "topologyConstraints"

-- The constraints of a request are those that the labels mean.
abbrev pub AreMeant : TopologyCache → Fields → Fields → Type 0
AreMeant c labelled request =
    has_member constraints_name request ≡ true
    → (constraints : Constraints) × (resolve_demand_labels c labelled ≡ ok (some constraints))
      × (member constraints_name request ≡ object (constraint_fields constraints))

resolve_demand_labels-ngd :
    (c : TopologyCache) (a b : Fields)
    → member (lit "ngd") a ≡ member (lit "ngd") b
    → resolve_demand_labels c a ≡ resolve_demand_labels c b
unfolding resolve_demand_labels
resolve_demand_labels-ngd c a b e = rw (resolve_demand_labels, e) refl

with_constraints-AreMeant :
    (c : TopologyCache) (labelled copy : Fields) (meant : Option Constraints)
    → resolve_demand_labels c labelled ≡ ok meant
    → has_member constraints_name copy ≡ false
    → AreMeant c labelled (with_constraints meant copy)
unfolding with_constraints
with_constraints-AreMeant c labelled copy none e h k = cc
with_constraints-AreMeant c labelled copy (some []) e h k = cc
with_constraints-AreMeant c labelled copy (some (x ∷ xs)) e h k = (
  x ∷ xs,
  e,
  ground (
    arith,
    text_Eq.beq_iff constraints_name constraints_name,
    member-set_member constraints_name constraints_name (object (constraint_fields (x ∷ xs))) copy,
  ),
)

-- What is written before the labels are read leaves the demand.
clean_ngd :
    (v w : Json) (request : Fields)
    → member (lit "ngd") (
        delete_member constraints_name
          (set_member (lit "topologyMode") w (set_member (lit "nodeUsageStates") v request)))
      ≡ member (lit "ngd") request
unfolding list_eq
clean_ngd v w request =
    let with_states = set_member (lit "nodeUsageStates") v request in
    member-delete_member (lit "ngd") constraints_name
      (set_member (lit "topologyMode") w with_states)
    ∙ member-set_member (lit "ngd") (lit "topologyMode") w with_states
    ∙ member-set_member (lit "ngd") (lit "nodeUsageStates") v request

instead-ok :
    {W A : Type 0} (why : ApiError) (r : Result W A) (a : A) → instead why r ≡ ok a → r ≡ ok a
instead-ok why (ok b) a h = ap ok (ok-injective b a h)
instead-ok why (err e) a h = cc h

-- What keeps the fields beside the demand and the states keeps the constraints.
kept-AreMeant :
    (E : Encoding) (parse_quantity : Text → Text → Option ℤ) (c : TopologyCache)
    (labelled copy : Fields) (done : Fields × List Fields)
    → KeepsOthers E parse_quantity copy done
    → AreMeant c labelled copy
    → AreMeant c labelled done.0
unfolding list_eq
kept-AreMeant E parse_quantity c labelled copy done kept meant k =
    let (same_test, same_value) = kept constraints_name refl refl in
    let (constraints, e, f) = meant (sym same_test ∙ k) in (constraints, e, same_value ∙ f)

module _ (E : Encoding) (parse_quantity : Text → Text → Option ℤ) (F : Floats) where
  open F use {Value}

  constrained_request-AreMeant :
      (s : AllocationService Value) (static : CachedSnapshot) (request copy : Fields)
      → constrained_request E parse_quantity F s static request ≡ ok copy
      → AreMeant s.topology request copy
  unfolding constrained_request
  constrained_request-AreMeant s static request copy h =
      let (states, e, h1) =
        bind-ok
          (instead invalid_request (normalize_usage_states E parse_quantity request static.nodes)) _
          copy h in
      let with_states =
        set_member (lit "nodeUsageStates") (array (object_items (map state_fields states)))
          request in
      let with_mode = set_member (lit "topologyMode") (text s.topology.mode) with_states in
      let clean = delete_member constraints_name with_mode in
      let (meant, f, h2) =
        bind-ok (instead invalid_labels (resolve_demand_labels s.topology clean)) _ copy h1 in
      subst (AreMeant s.topology request) (ok-injective _ copy h2) (
        with_constraints-AreMeant s.topology request clean meant
          (resolve_demand_labels-ngd s.topology request clean (sym (clean_ngd _ _ request))
            ∙ instead-ok invalid_labels _ meant f)
          (has_member-delete_member constraints_name with_mode))

  -- Where a parsed quantity is an int64, the request that the worker gets holds normalized
  -- quantities, and topology constraints only where they are those that the labels of the demand
  -- mean in the topology of the server, never those that the caller of the server wrote.
  pub prepare-AreMeant :
      (s : AllocationService Value) (now : ℕ) (request : Fields) (p : WorkerPayload Value)
      → IsInt64 E parse_quantity
      → prepare E parse_quantity F s now request ≡ ok p
      → AreMeant s.topology request p.request
        × IsForWorker E parse_quantity (p.request, p.static_snapshot.nodes)
  unfolding prepare payload_of
  prepare-AreMeant s now request p bounded h =
      let asked =
        found_or static_not_found
          (get (value_of E parse_quantity F (lit "nodeStaticSnapshotId") request) s.static) in
      let (static, first, h2) =
        bind-ok (check_required E parse_quantity F request required_fields >> asked) _ p
          (of_request-ok _ _ p h) in
      let (nodes, resolved, h3) =
        bind-ok (found_or topology_failed (resolve_nodes E s.topology static.nodes).0) _ p h2 in
      let (copy, e, h4) =
        bind-ok (constrained_request E parse_quantity F s static request) _ p h3 in
      let (normalized, f, h5) =
        bind-ok (normalize_worker_resources E parse_quantity copy (map node_fields nodes)) _ p h4 in
      let (fine, kept, computed) =
        normalize_worker_resources-IsForWorker E parse_quantity copy (map node_fields nodes)
          normalized bounded f in
      subst
        (λ x.
          AreMeant s.topology request x.request
          × IsForWorker E parse_quantity (x.request, x.static_snapshot.nodes))
        (ok-injective _ p h5)
        (
          kept-AreMeant E parse_quantity s.topology request copy normalized kept
              (constrained_request-AreMeant s static request copy e),
          fine,
        )

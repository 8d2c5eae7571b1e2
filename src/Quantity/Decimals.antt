-- ===== src/Quantity/Decimals.antt =====
-- What the worker gets for the quantities of a request: algorithm_server/go/algorithm/quantity.go
-- normalizeWorkerResources.
use mathlib.Core.Path.{subst}
use ngd_ngg_scheduling.Base.{
  ◌≡◌, refl, sym, ◌∙◌, false, List, Option, ◌==◌, ok, ℤ, All, bind-ok, ok-injective,
}
use ngd_ngg_scheduling.Text.{Text, text_Eq, lit}
use ngd_ngg_scheduling.Json.{Json, array, object, Fields, member, has_member, set_member, as_object}
use ngd_ngg_scheduling.Json.Members.{member-set_member, member_set, has_member-set_member}
use ngd_ngg_scheduling.Quantity.Units.{
  AllUnits, AllWithin, HasUnits, IsInt64, normalize_resource_map-AllUnits, normalize_items-HasUnits,
  check_minimum-AllWithin,
}
use ngd_ngg_scheduling.Quantity.Computed.{
  of_request-ok, ngd_kept, IsComputed, normalize_worker_resources-IsComputed,
}
use ngd_ngg_scheduling.StaticCache.{Encoding}
use ngd_ngg_scheduling.Quantity.{
  object_items, resource_state_maps, normalize_resource_map, check_minimum, normalize_items,
  resource_sets, normalize_demand, object_or_invalid, objects_or_invalid,
  normalize_worker_resources,
}

module _ (E : Encoding) (parse_quantity : Text → Text → Option ℤ) where
  -- The resource sets of a demand for the worker.
  abbrev pub AreSets : Fields → Type 0
  AreSets sets =
      (minimum : Fields) × (quota : Fields) × (sets ≡ resource_sets E parse_quantity minimum quota)
      × AllUnits minimum
      × AllUnits quota
      × AllWithin quota minimum

  normalize_demand-AreSets :
      (ngd sets : Fields)
      → IsInt64 E parse_quantity
      → normalize_demand E parse_quantity ngd ≡ ok sets
      → AreSets sets
  unfolding normalize_demand
  normalize_demand-AreSets ngd sets bounded h =
      let (minimum, e, h1) =
        bind-ok (normalize_resource_map E parse_quantity (member (lit "minResources") ngd)) _ sets
          h in
      let (quota, f, h2) =
        bind-ok (normalize_resource_map E parse_quantity (member (lit "quota") ngd)) _ sets h1 in
      let (u, checked, h3) = bind-ok (check_minimum E parse_quantity quota minimum) _ sets h2 in
      let low =
        normalize_resource_map-AllUnits E parse_quantity (member (lit "minResources") ngd) minimum
          bounded e in
      let high =
        normalize_resource_map-AllUnits E parse_quantity (member (lit "quota") ngd) quota bounded
          f in
      (
        minimum,
        quota,
        sym (ok-injective _ sets h3),
        low,
        high,
        check_minimum-AllWithin E parse_quantity quota minimum high low checked,
      )

  -- What the worker gets: the resource sets of the demand, the states and the Nodes.
  abbrev pub IsForWorker : Fields × List Fields → Type 0
  IsForWorker (request, nodes) =
      ((ngd : Fields) × (sets : Fields) × (member (lit "ngd") request ≡ object ngd)
        × (member (lit "normalizedResources") ngd ≡ object sets)
        × AreSets sets)
      × ((states : List Fields) × (member (lit "nodeUsageStates") request
            ≡ array (object_items states))
          × All (HasUnits (lit "normalizedRequestedResources")) states)
      × All (HasUnits (lit "normalizedAllocatableResources")) nodes

  -- The fields beside the demand and the states stay.
  abbrev pub KeepsOthers : Fields → Fields × List Fields → Type 0
  KeepsOthers before (request, nodes) =
      (name : Text)
      → (name == lit "ngd") ≡ false
      → (name == lit "nodeUsageStates") ≡ false
      → (has_member name request ≡ has_member name before)
        × (member name request ≡ member name before)

  two_fields-KeepsOthers :
      (v w : Json) (request : Fields) (nodes : List Fields)
      → KeepsOthers request
          (set_member (lit "nodeUsageStates") v (set_member (lit "ngd") w request), nodes)
  two_fields-KeepsOthers v w request nodes name h k =
      let inner = set_member (lit "ngd") w request in
      (
        has_member-set_member name (lit "nodeUsageStates") v inner
            ∙ rw k (has_member-set_member name (lit "ngd") w request ∙ rw h refl),
        member-set_member name (lit "nodeUsageStates") v inner
            ∙ rw k (member-set_member name (lit "ngd") w request ∙ rw h refl),
      )

  normalize_worker_resources-kinds :
      (request : Fields) (nodes : List Fields) (done : Fields × List Fields)
      → IsInt64 E parse_quantity
      → normalize_worker_resources E parse_quantity request nodes ≡ ok done
      → IsForWorker done × KeepsOthers request done
  unfolding normalize_worker_resources
  normalize_worker_resources-kinds request nodes done bounded h =
      let (ngd, e, h1) =
        bind-ok (object_or_invalid E parse_quantity (as_object (member (lit "ngd") request))) _ done
          (of_request-ok _ _ done h) in
      let (sets, f, h2) = bind-ok (normalize_demand E parse_quantity ngd) _ done h1 in
      let (states, g, h3) =
        bind-ok
          (objects_or_invalid E parse_quantity
            (resource_state_maps (member (lit "nodeUsageStates") request)))
          _ done h2 in
      let (used, i, h4) =
        bind-ok
          (normalize_items E parse_quantity (lit "requestedResources")
            (lit "normalizedRequestedResources") states)
          _ done h3 in
      let (given, j, h5) =
        bind-ok
          (normalize_items E parse_quantity (lit "allocatable")
            (lit "normalizedAllocatableResources") nodes)
          _ done h4 in
      subst (λ x. IsForWorker x × KeepsOthers request x) (ok-injective _ done h5)
        (
          (
            (
              set_member (lit "normalizedResources") (object sets) ngd,
              sets,
              ngd_kept _ _ ∙ member_set (lit "ngd") _ request,
              member_set (lit "normalizedResources") (object sets) ngd,
              normalize_demand-AreSets ngd sets bounded f,
            ),
            (
              used,
              member_set (lit "nodeUsageStates") _ _,
              normalize_items-HasUnits E parse_quantity (lit "requestedResources")
                  (lit "normalizedRequestedResources") states used bounded i,
            ),
            normalize_items-HasUnits E parse_quantity (lit "allocatable")
                (lit "normalizedAllocatableResources") nodes given bounded j,
          ),
          two_fields-KeepsOthers _ _ request given,
        )

  -- Where a parsed quantity is an int64, a request and the Nodes that are not refused are passed on
  -- with a normal form beside the minimum and the quota of the demand, beside the requested resources
  -- of each usage state and beside the allocatable resources of each Node, in their order. It has
  -- the same names as the object beside it, and for each the text of the number, not negative, that
  -- the value there means: 0 where it is blank. Each normal minimum that has a quota is no more than
  -- it. The values themselves, and the fields of the request beside the demand and the states, stay.
  pub normalize_worker_resources-IsForWorker :
      (request : Fields) (nodes : List Fields) (done : Fields × List Fields)
      → IsInt64 E parse_quantity
      → normalize_worker_resources E parse_quantity request nodes ≡ ok done
      → IsForWorker done × KeepsOthers request done × IsComputed E parse_quantity request nodes done
  normalize_worker_resources-IsForWorker request nodes done bounded h =
      let kinds = normalize_worker_resources-kinds request nodes done bounded h in
      (
        kinds.0,
        kinds.1,
        normalize_worker_resources-IsComputed E parse_quantity request nodes done h,
      )

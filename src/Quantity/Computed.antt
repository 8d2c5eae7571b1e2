-- ===== src/Quantity/Computed.antt =====
-- What the normalized fields of a request have to do with the quantities that it came with:
-- algorithm_server/go/algorithm/quantity.go normalizeWorkerResources.
use mathlib.Core.Path.{subst}
use ngd_ngg_scheduling.Base.{
  ℕ, ◌≡◌, refl, sym, ap, ◌∙◌, ◌⊎◌, inl, inr, true, false, List, [], ◌∷◌, Option, none, some, Result,
  ok, err, ℤ, pos, negsuc, list_eq, Bool-cases, Option-cases, arith, bind-ok, ok-injective,
}
use ngd_ngg_scheduling.Text.{Text, text_Eq, lit, is_empty, trim_space}
use ngd_ngg_scheduling.Text.Decimal.{format_int}
use ngd_ngg_scheduling.Text.Trimmed.{trim_space-trim_space}
use ngd_ngg_scheduling.Json.{
  Json, null, bool, number, text, array, object, Items, nil, cons, Fields, end, field, member,
  set_member, as_object,
}
use ngd_ngg_scheduling.Json.Members.{member-set_member, member_set}
use ngd_ngg_scheduling.StaticCache.{Encoding, printed}
use ngd_ngg_scheduling.Service.Usage.{parse_quantity_value}
use ngd_ngg_scheduling.Worker.{ApiError, format_uint}
use ngd_ngg_scheduling.Quantity.{
  of_request, object_items, all_objects, resource_state_maps, base_units, normalize_values,
  normalize_resource_map, check_minimum, normalize_items, normalize_demand, object_or_invalid,
  objects_or_invalid, normalize_worker_resources,
}

pub of_request-ok :
    {A : Type 0} (id : Text) (r : Result ApiError A) (a : A) → of_request id r ≡ ok a → r ≡ ok a
unfolding of_request
of_request-ok id (ok x) a h = h
of_request-ok id (err e) a h = cc h

-- The states of a request stand beside its demand.
pub ngd_kept :
    (v : Json) (fs : Fields)
    → member (lit "ngd") (set_member (lit "nodeUsageStates") v fs) ≡ member (lit "ngd") fs
unfolding list_eq
ngd_kept v fs = member-set_member (lit "ngd") (lit "nodeUsageStates") v fs

all_objects-items :
    (items : Items) (states : List Fields)
    → all_objects items ≡ some states
    → items ≡ object_items states
unfolding all_objects object_items as_object
all_objects-items nil states h = ap object_items (found h)
  where
    found : some [] ≡ some states → [] ≡ states
    found e = cc
all_objects-items (cons (object f) rest) states h = elim (Option-cases (all_objects rest)) [
  | inl e ↦ cc (rw e at h)
  | inr (others, e) ↦
      let same : f ∷ others ≡ states = cc (rw e at h) in
      ap (cons (object f)) (all_objects-items rest others e) ∙ ap object_items same
]
all_objects-items (cons null rest) states h = cc
all_objects-items (cons (bool b) rest) states h = cc
all_objects-items (cons (number n) rest) states h = cc
all_objects-items (cons (text s) rest) states h = cc
all_objects-items (cons (array xs) rest) states h = cc

resource_state_maps-array :
    (v : Json) (states : List Fields)
    → resource_state_maps v ≡ some states
    → v ≡ array (object_items states)
unfolding resource_state_maps
resource_state_maps-array (array items) states h = ap array (all_objects-items items states h)
resource_state_maps-array null states h = cc
resource_state_maps-array (bool b) states h = cc
resource_state_maps-array (number n) states h = cc
resource_state_maps-array (text s) states h = cc
resource_state_maps-array (object fs) states h = cc

as_object-object : (v : Json) (fs : Fields) → as_object v ≡ some fs → v ≡ object fs
unfolding as_object
as_object-object (object gs) fs h = cc
as_object-object null fs h = cc
as_object-object (bool b) fs h = cc
as_object-object (number n) fs h = cc
as_object-object (text s) fs h = cc
as_object-object (array xs) fs h = cc

module _ (E : Encoding) (parse_quantity : Text → Text → Option ℤ) where
  -- The number is what the value means as a quantity of the resource: 0 where it is blank.
  abbrev pub Means : Text → Json → ℕ → Type 0
  Means name raw n =
      ((is_empty (trim_space (printed E raw)) ≡ true) × (n ≡ 0))
      ⊎ ((is_empty (trim_space (printed E raw)) ≡ false)
          × (parse_quantity (trim_space (printed E raw)) name ≡ some (pos n)))

  -- The fields have the names of the given ones in their order, each with the text of the number that
  -- the given value means.
  abbrev pub AreUnitsOf : Fields → Fields → Type 0
  AreUnitsOf end end = Unit
  AreUnitsOf (field name raw rest) (field k v others) =
      ((k ≡ name) × ((n : ℕ) × (v ≡ text (format_uint n)) × Means name raw n))
      × AreUnitsOf rest others
  AreUnitsOf _ _ = ⊥

  -- The same for an object that may be missing.
  abbrev pub IsNormalOf : Json → Fields → Type 0
  IsNormalOf null values = values ≡ end
  IsNormalOf (object fs) values = AreUnitsOf fs values
  IsNormalOf _ values = ⊥

  -- Each item has got the normal form of its field as another field, and nothing else has changed.
  abbrev pub AreNormalized : Text → Text → List Fields → List Fields → Type 0
  AreNormalized source target [] [] = Unit
  AreNormalized source target (item ∷ rest) (done ∷ others) =
      ((values : Fields) × IsNormalOf (member source item) values
        × (done ≡ set_member target (object values) item))
      × AreNormalized source target rest others
  AreNormalized source target _ _ = ⊥

  base_units-Means :
      (name : Text) (raw : Json) (units : Text)
      → base_units E parse_quantity
          (parse_quantity_value E parse_quantity (trim_space (printed E raw)) name)
        ≡ ok units
      → (n : ℕ) × (text units ≡ text (format_uint n)) × Means name raw n
  unfolding parse_quantity_value base_units format_int
  base_units-Means name raw units h =
      let blank = is_empty (trim_space (printed E raw)) in
      let twice = trim_space-trim_space (printed E raw) in
      elim (Bool-cases blank) [
        | inl e ↦ (0, ground (arith, twice), inl (e, refl))
        | inr e ↦
            read (parse_quantity (trim_space (printed E raw)) name) refl e (rw (twice, e) at h)
      ]
    where
      read :
          (o : Option ℤ)
          → parse_quantity (trim_space (printed E raw)) name ≡ o
          → is_empty (trim_space (printed E raw)) ≡ false
          → base_units E parse_quantity (parse_quantity (trim_space (printed E raw)) name)
            ≡ ok units
          → (n : ℕ) × (text units ≡ text (format_uint n)) × Means name raw n
      read none f e g = cc (rw f at g)
      read (some (negsuc n)) f e g = cc (rw f at g)
      read (some (pos n)) f e g = (n, cc (rw f at g), inr (e, f))

  normalize_values-AreUnitsOf :
      (fs gs : Fields) → normalize_values E parse_quantity fs ≡ ok gs → AreUnitsOf fs gs
  unfolding normalize_values
  normalize_values-AreUnitsOf end gs h = subst (AreUnitsOf end) (ok-injective end gs h) tt
  normalize_values-AreUnitsOf (field name raw rest) gs h =
      let value = parse_quantity_value E parse_quantity (trim_space (printed E raw)) name in
      let (units, read, h1) = bind-ok (base_units E parse_quantity value) _ gs h in
      let (others, later, h2) = bind-ok (normalize_values E parse_quantity rest) _ gs h1 in
      subst (AreUnitsOf (field name raw rest)) (ok-injective (field name (text units) others) gs h2)
        (
          (refl, base_units-Means name raw units read),
          normalize_values-AreUnitsOf rest others later,
        )

  normalize_resource_map-IsNormalOf :
      (v : Json) (values : Fields)
      → normalize_resource_map E parse_quantity v ≡ ok values
      → IsNormalOf v values
  unfolding normalize_resource_map
  normalize_resource_map-IsNormalOf null values h = sym (ok-injective end values h)
  normalize_resource_map-IsNormalOf (bool b) values h = cc
  normalize_resource_map-IsNormalOf (number n) values h = cc
  normalize_resource_map-IsNormalOf (text s) values h = cc
  normalize_resource_map-IsNormalOf (array items) values h = cc
  normalize_resource_map-IsNormalOf (object fs) values h = normalize_values-AreUnitsOf fs values h

  normalize_items-AreNormalized :
      (source target : Text) (items done : List Fields)
      → normalize_items E parse_quantity source target items ≡ ok done
      → AreNormalized source target items done
  unfolding normalize_items
  normalize_items-AreNormalized source target [] done h =
      subst (AreNormalized source target []) (ok-injective [] done h) tt
  normalize_items-AreNormalized source target (item ∷ rest) done h =
      let (values, read, h1) =
        bind-ok (normalize_resource_map E parse_quantity (member source item)) _ done h in
      let (others, later, h2) =
        bind-ok (normalize_items E parse_quantity source target rest) _ done h1 in
      subst (AreNormalized source target (item ∷ rest))
        (ok-injective (set_member target (object values) item ∷ others) done h2)
        (
          (values, normalize_resource_map-IsNormalOf (member source item) values read, refl),
          normalize_items-AreNormalized source target rest others later,
        )

  -- The normalized sets of a demand, under the names of the two fields that they come from.
  abbrev pub AreSetsOf : Fields → Fields → Type 0
  AreSetsOf ngd sets =
      (minimum : Fields) × (quota : Fields) × IsNormalOf (member (lit "minResources") ngd) minimum
      × IsNormalOf (member (lit "quota") ngd) quota
      × (sets
          ≡ field (lit "minResources") (object minimum) (field (lit "quota") (object quota) end))

  normalize_demand-AreSetsOf :
      (ngd sets : Fields) → normalize_demand E parse_quantity ngd ≡ ok sets → AreSetsOf ngd sets
  unfolding normalize_demand
  normalize_demand-AreSetsOf ngd sets h =
      let (minimum, e, h1) =
        bind-ok (normalize_resource_map E parse_quantity (member (lit "minResources") ngd)) _ sets
          h in
      let (quota, f, h2) =
        bind-ok (normalize_resource_map E parse_quantity (member (lit "quota") ngd)) _ sets h1 in
      let (u, checked, h3) = bind-ok (check_minimum E parse_quantity quota minimum) _ sets h2 in
      (
        minimum,
        quota,
        normalize_resource_map-IsNormalOf (member (lit "minResources") ngd) minimum e,
        normalize_resource_map-IsNormalOf (member (lit "quota") ngd) quota f,
        sym (ok-injective _ sets h3),
      )

  -- What is passed on is the request and the Nodes with the normal forms of their own quantities
  -- beside them.
  abbrev pub IsComputed : Fields → List Fields → Fields × List Fields → Type 0
  IsComputed request nodes (passed, passed_nodes) =
      ((ngd : Fields) × (sets : Fields) × (member (lit "ngd") request ≡ object ngd)
        × AreSetsOf ngd sets
        × (member (lit "ngd") passed
            ≡ object (set_member (lit "normalizedResources") (object sets) ngd)))
      × ((states : List Fields) × (used : List Fields) × (member (lit "nodeUsageStates") request
            ≡ array (object_items states))
          × AreNormalized (lit "requestedResources") (lit "normalizedRequestedResources") states
              used
          × (member (lit "nodeUsageStates") passed ≡ array (object_items used)))
      × AreNormalized (lit "allocatable") (lit "normalizedAllocatableResources") nodes passed_nodes

  object_or_invalid-ok :
      (o : Option Fields) (fs : Fields) → object_or_invalid E parse_quantity o ≡ ok fs → o ≡ some fs
  object_or_invalid-ok none fs h = cc
  object_or_invalid-ok (some gs) fs h = ap some (ok-injective gs fs h)

  objects_or_invalid-ok :
      (o : Option (List Fields)) (fs : List Fields)
      → objects_or_invalid E parse_quantity o ≡ ok fs
      → o ≡ some fs
  objects_or_invalid-ok none fs h = cc
  objects_or_invalid-ok (some gs) fs h = ap some (ok-injective gs fs h)

  pub normalize_worker_resources-IsComputed :
      (request : Fields) (nodes : List Fields) (done : Fields × List Fields)
      → normalize_worker_resources E parse_quantity request nodes ≡ ok done
      → IsComputed request nodes done
  unfolding normalize_worker_resources
  normalize_worker_resources-IsComputed request nodes done h =
      let (ngd, e, h1) =
        bind-ok (object_or_invalid E parse_quantity (as_object (member (lit "ngd") request))) _ done
          (of_request-ok _ _ done h) in
      let (sets, f, h2) = bind-ok (normalize_demand E parse_quantity ngd) _ done h1 in
      let (states, g, h3) =
        bind-ok
          (objects_or_invalid E parse_quantity
            (resource_state_maps (member (lit "nodeUsageStates") request)))
          _ done h2 in
      let (used, i, h4) =
        bind-ok
          (normalize_items E parse_quantity (lit "requestedResources")
            (lit "normalizedRequestedResources") states)
          _ done h3 in
      let (given, j, h5) =
        bind-ok
          (normalize_items E parse_quantity (lit "allocatable")
            (lit "normalizedAllocatableResources") nodes)
          _ done h4 in
      subst (IsComputed request nodes) (ok-injective _ done h5) (
        (
          ngd,
          sets,
          as_object-object (member (lit "ngd") request) ngd (object_or_invalid-ok _ ngd e),
          normalize_demand-AreSetsOf ngd sets f,
          ngd_kept _ _ ∙ member_set (lit "ngd") _ request,
        ),
        (
          states,
          used,
          resource_state_maps-array (member (lit "nodeUsageStates") request) states
              (objects_or_invalid-ok _ states g),
          normalize_items-AreNormalized (lit "requestedResources")
              (lit "normalizedRequestedResources") states used i,
          member_set (lit "nodeUsageStates") _ _,
        ),
        normalize_items-AreNormalized (lit "allocatable") (lit "normalizedAllocatableResources")
            nodes given j,
      )

-- ===== src/Calculation/Demands.antt =====
-- The NodeGroupDemand that a calculation reads, and the check of its spec: validatePlatformDemandSpec
-- and algorithmTimeout of prc/pkg/controller/prc_controller.go. The parser of quantities,
-- k8s.io/apimachinery, is a parameter.
use ngd_ngg_scheduling.Base.{
  ℕ, Bool, true, false, not, ◌&&◌, List, [], ◌∷◌, Option, none, some, if◌then◌else◌, contains, ℤ,
  pos, ltb_ℤ, Result, ok, err, ◌>>◌, reject_if,
}
use ngd_ngg_scheduling.Text.{Text, text_Eq, lit, is_empty, trim_space}
use ngd_ngg_scheduling.Json.{
  Json, null, text, object, Fields, end, field, member, as_object, as_text,
}

pub record PlatformDemand : Type 0 where
  pub name : Text
  pub uid : Text
  pub generation : ℕ
  pub spec : Fields

-- The functions of k8s.io/apimachinery: resource.ParseQuantity, MilliValue and Value, where an
-- int64 is its 64 bits as a number, and unstructured.NestedInt64, which is 0 on a missing value.
pub record Apimachinery : Type 1 where
  pub Quantity : Type 0
  pub parse : Text → Option Quantity
  pub milli_value : Quantity → ℕ
  pub value : Quantity → ℕ
  pub nested_int64 : Fields → Text → ℤ

pub data SpecError : Type 0 where
  no_scheduler_name : SpecError
  invalid_quantity : Text → Text → SpecError
  labels_not_object : SpecError
  unsupported_label : Text → SpecError
  empty_label : Text → SpecError

-- stringValue: the empty string for a value of another type
unfoldable pub string_value : Fields → Text → Text
unfolding member as_text
string_value fields key = elim (as_text (member key fields)) [ none ↦ [] | some s ↦ s ]

-- mapValue
unfoldable pub map_value : Fields → Text → Fields
unfolding member as_object
map_value fields key = elim (as_object (member key fields)) [ none ↦ end | some m ↦ m ]

abbrev pub supported_labels : List Text
supported_labels =
    lit "topology.kubernetes.io/data-center"
    ∷ lit "topology.kubernetes.io/room"
    ∷ lit "topology.kubernetes.io/border-switch"
    ∷ lit "topology.kubernetes.io/spine-switch"
    ∷ lit "topology.kubernetes.io/leaf-switch"
    ∷ []

-- `item, ok := value.(string); !ok || strings.TrimSpace(item) == ""`
unfoldable pub is_blank : Json → Bool
is_blank (text s) = is_empty (trim_space s)
is_blank _ = true

-- The loop over the labels, in the order in which they are listed.
unfoldable pub check_labels : Fields → Result SpecError (Unit {0})
unfolding is_blank
check_labels end = ok tt
check_labels (field key value rest) = do
  reject_if (not (contains key supported_labels)) (unsupported_label key)
  reject_if (is_blank value) (empty_label key)
  check_labels rest

-- The check of `topologyLabels`: an absent value reads as nil.
unfoldable pub check_topology_labels : Json → Result SpecError (Unit {0})
unfolding check_labels
check_topology_labels null = ok tt
check_topology_labels (object labels) = check_labels labels
check_topology_labels _ = err labels_not_object

module _ (K : Apimachinery) where
  open K use {parse, nested_int64}

  abbrev pub fails_to_parse : Text → Bool
  fails_to_parse raw = elim (parse raw) [ none ↦ true | some q ↦ false ]

  unfoldable pub check_quantity : Fields → Text → Text → Result SpecError (Unit {0})
  unfolding string_value map_value
  check_quantity spec resources name =
      let raw = string_value (map_value spec resources) name in
      reject_if (not (is_empty raw) && fails_to_parse raw) (invalid_quantity resources name)

  unfoldable pub validate_spec : Fields → Result SpecError (Unit {0})
  unfolding string_value check_quantity check_topology_labels member
  validate_spec spec = do
    reject_if (is_empty (string_value spec (lit "schedulerName"))) no_scheduler_name
    check_quantity spec (lit "minResources") (lit "cpu")
    check_quantity spec (lit "minResources") (lit "memory")
    check_quantity spec (lit "quota") (lit "cpu")
    check_quantity spec (lit "quota") (lit "memory")
    check_topology_labels (member (lit "topologyLabels") spec)

  -- The timeout in seconds.
  unfoldable pub algorithm_timeout : Fields → ℤ
  unfolding map_value
  algorithm_timeout spec =
      let seconds =
        nested_int64 (map_value spec (lit "grantPolicy")) (lit "algorithmTimeoutSeconds") in
      if ltb_ℤ (pos 0) seconds then seconds else pos 5

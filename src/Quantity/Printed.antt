-- ===== src/Quantity/Printed.antt =====
-- algorithm_server/go/algorithm/quantity.go: the texts that are made of the answers of the worker.
use ngd_ngg_scheduling.Base.{
  ◌/◌, Bool, true, List, [], ◌∷◌, ◌++◌, map, Option, none, some, if◌then◌else◌, ◌==◌, Result, ok,
  err, ◌>>=◌, ℤ, pos, negsuc,
}
use ngd_ngg_scheduling.Text.{Text, text_Eq, lit, is_empty}
use ngd_ngg_scheduling.Text.Decimal.{format_int, parse_int}
use ngd_ngg_scheduling.Sets.{sort_strings}
use ngd_ngg_scheduling.Json.{
  Json, text, array, object, Items, nil, cons, Fields, end, field, member, set_member, as_object,
  as_array,
}
use ngd_ngg_scheduling.StaticCache.{Encoding, printed}
use ngd_ngg_scheduling.Worker.{ApiError}
use ngd_ngg_scheduling.Quantity.{bytes_per_mi, protocol_error}

-- formatMemoryMi
unfoldable pub format_memory_mi : ℤ → Text
format_memory_mi (pos n) = format_int (pos (n / bytes_per_mi)) ++ lit "Mi"
format_memory_mi (negsuc n) = lit "0Mi"

-- workerFailure of algorithm_server/go/algorithm/types.go
pub record WorkerFailure : Type 0 where
  pub code : Text
  pub details : Fields

-- allocationFailure
pub record AllocationFailure : Type 0 where
  pub code : Text
  pub message : Text
  pub details : Fields

-- The names of the fields.
unfoldable pub names_of : Fields → List Text
names_of end = []
names_of (field name v rest) = name ∷ names_of rest

-- strings.Join with ","
unfoldable pub joined : List Text → Text
joined [] = []
joined (s ∷ []) = s
joined (s ∷ t ∷ rest) = s ++ (lit "," ++ joined (t ∷ rest))

module _ (E : Encoding) where
  -- `value, _ := strconv.ParseInt(stringValue(v), 10, 64)`
  abbrev pub integer : Json → ℤ
  integer v = (parse_int (printed E v)).0

  -- A part of formatResourceSet.
  unfoldable pub resource_part : Text → ℤ → Text
  resource_part name value =
      if name == lit "cpu"
      then lit "cpu=" ++ (format_int value ++ lit "m")
      else if name == lit "memory"
      then lit "memory=" ++ format_memory_mi value
      else name ++ (lit "=" ++ format_int value)

  abbrev pub fields_or_none : Option Fields → Fields
  fields_or_none none = end
  fields_or_none (some values) = values

  -- formatResourceSet
  unfoldable pub format_resource_set : Json → Text
  format_resource_set raw =
      let values = fields_or_none (as_object raw) in
      joined (
        map (λ name. resource_part name (integer (member name values)))
          (sort_strings (names_of values)))

  -- The message of formatWorkerFailure.
  unfoldable pub failure_message : Text → Fields → Text
  failure_message code details =
      let count = λ (name : Text). format_int (integer (member name details)) in
      let resources = λ (name : Text). format_resource_set (member name details) in
      if code == lit "NODE_SELECTOR_NO_MATCH"
      then lit "nodeSelector matched 0 of "
        ++ (count (lit "inputNodeCount") ++ lit " topology-resolved nodes")
      else if code == lit "NO_NODES_IN_TOPOLOGY_SCOPE"
      then lit "topology constraints matched 0 of "
        ++ (count (lit "selectorMatchedNodeCount") ++ lit " nodeSelector-matched nodes")
      else if code == lit "ALL_MATCHING_NODES_UNAVAILABLE"
      then lit "all "
        ++ (count (lit "matchingNodeCount")
            ++ lit " matching nodes are unavailable or unschedulable")
      else if code == lit "NO_TOPOLOGY_GROUP"
      then lit "no topology group could be built from "
        ++ (count (lit "eligibleNodeCount") ++ lit " eligible nodes")
      else if code == lit "QUOTA_PREVENTS_MINIMUM"
      then count (lit "eligibleNodeCount")
        ++ (lit " nodes matched, but no node group can satisfy minResources within quota "
            ++ resources (lit "quota"))
      else if code == lit "MAX_NODES_PREVENTS_MINIMUM"
      then lit "minResources "
        ++ (resources (lit "required")
            ++ (lit " cannot be satisfied within maxNodes="
                ++ (count (lit "maxNodes")
                    ++ (lit "; maximum available is " ++ resources (lit "achievable")))))
      else if code == lit "INSUFFICIENT_RESOURCES"
      then lit "required "
        ++ (resources (lit "required")
            ++ (lit "; maximum available within maxNodes="
                ++ (count (lit "maxNodes") ++ (lit " is " ++ resources (lit "achievable")))))
      else lit "Algorithm returned no feasible node group"

  -- formatWorkerFailure
  unfoldable pub format_worker_failure : Option WorkerFailure → Option AllocationFailure
  format_worker_failure none = none
  format_worker_failure (some failure) =
      if is_empty failure.code
      then none
      else some (record {
        code = failure.code;
        message = failure_message failure.code failure.details;
        details = failure.details;
      })

  -- The resources of a Node as they are printed, from its cpu and its memory.
  unfoldable pub printed_resources : ℤ × Bool → ℤ × Bool → Result ApiError Fields
  printed_resources (pos cpu, true) (pos memory, true) = ok (
      field (lit "cpuAvailable") (text (format_int (pos cpu) ++ lit "m"))
        (field (lit "memoryAvailable") (text (format_memory_mi (pos memory))) end))
  printed_resources _ _ = err protocol_error

  -- The turn of the inner loop of formatCandidateResources for a Node that is an object.
  unfoldable pub format_node : Fields → Result ApiError Fields
  format_node node = elim (as_object (member (lit "resources") node)) [
    | none ↦ ok node
    | some internal ↦
        printed_resources (parse_int (printed E (member (lit "cpuMilli") internal)))
          (parse_int (printed E (member (lit "memoryBytes") internal)))
        >>= λ resources. ok (set_member (lit "resources") (object resources) node)
  ]

  abbrev pub node_or_error : Option Fields → Result ApiError Fields
  node_or_error none = err protocol_error
  node_or_error (some node) = ok node

  -- The inner loop.
  unfoldable pub format_nodes : Items → Result ApiError Items
  format_nodes nil = ok nil
  format_nodes (cons raw rest) = node_or_error (as_object raw) >>= λ node.
      format_node node >>= λ done. format_nodes rest >>= λ others. ok (cons (object done) others)

  unfoldable pub format_group : Fields → Result ApiError Fields
  format_group group = elim (as_array (member (lit "nodes") group)) [
    | none ↦ ok group
    | some items ↦ format_nodes items >>= λ done. ok (set_member (lit "nodes") (array done) group)
  ]

  -- formatCandidateResources, which changes the groups in place
  unfoldable pub format_candidate_resources : List Fields → Result ApiError (List Fields)
  format_candidate_resources [] = ok []
  format_candidate_resources (group ∷ rest) = format_group group >>= λ done.
      format_candidate_resources rest >>= λ others. ok (done ∷ others)

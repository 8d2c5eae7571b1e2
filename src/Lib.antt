-- ===== src/Lib.antt =====
-- Verification of the scheduling of NodeGroupDemands (NGD) and NodeGroupGrants (NGG).
--
-- The controller (prc/) watches demands. Each event records the identity of a demand in the refresh
-- scheduler and queues a calculation; a refresh worker runs it and sets a timer for the next one. A
-- calculation reads Nodes and Pods, asks the Algorithm server (algorithm_server/) for candidate
-- groups with the identity of a static Node snapshot, which an independent reconciler keeps in the
-- server, checks the response, and writes the grant and the status of the demand. The topology agent
-- (topology_agent/) puts the leaf switches of each Node into its labels and annotations.
--
-- Files and code:
--   Base, Text, Json    shared types: tests, maps as association lists, Go strings as byte lists and
--                       their decimal numbers, JSON values, results with an error
--   Sets                algorithm_server/go/topology/helpers.go uniqueSorted, sortedKeys, equalSet
--                       (Sorting: the sort; Canonical: the sorted set; Insertion: sort.Slice)
--   Naming              prc/pkg/controller/prc_controller.go grantName, shortHash
--   Scheduler           prc/pkg/controller/refresh_scheduler.go. The record RefreshScheduler is the
--                       struct with the timers and contexts that its pointers lead to; Upsert,
--                       Trigger, emit, Begin, Finish, IsCurrent, ScheduleAfter, Remove, Start are
--                       upsert, trigger, emit, begin, finish, is_current, schedule_after, remove,
--                       start and shut_down. Steps interleaves them as sequences of actions, the
--                       sends to the event channel apart from the locked parts; Refinement: the map of current identities that clients see.
--   Refresh             prc/pkg/controller/refresh_controller.go: reconcile_event and
--                       reconcile_refresh are the two Reconcile methods
--   Response            prc/pkg/controller/algorithm_client.go (types) and validateResponse of
--                       prc/pkg/controller/prc_controller.go; Spec states what is valid
--   StaticSnapshot      prc/pkg/controller/static_snapshot_controller.go: the state and Reconcile
--   Calculation         prc/pkg/controller/prc_controller.go reconcilePlatformDemand as a chain of
--                       functions, one for each point where it may return; Demands: the check of the
--                       spec; Grant: buildPlatformGrantSpec and the capacity of the grant
--   StaticCache         algorithm_server/go/algorithm/cache.go: put, get and status; Versions: the two
--                       versions of the cache; Checked: what put lets through
--   Topology            algorithm_server/go/topology/constraints.go and resolver.go: resolve_labels and
--                       resolve_nodes; Labels and Nodes are the theorems about them
--   Source              algorithm_server/go/topology/source.go: build_cache is buildCache; Domains:
--                       assignLeafDomains and the uplinks; Aliases: the calls of addAlias; Called,
--                       Aliased, Looked and Paired are the theorems about them; status.go in Build
--   Snapshot            prc/pkg/controller/snapshot.go topologyFromNode, nodeReady, nodeInternalIP, with
--                       the decoders of the annotations as parameters; Built: buildStaticSnapshot and
--                       buildSchedulerState; Leaves, Before and Ordered are the theorems about them
--   Facts               topology_agent/pkg/topologyfacts/facts.go: Normalize and LeafSetID; Metadata:
--                       BuildNodeMetadata, and patchNode of topology_agent/kube.go; Normal, Verified
--                       and Recovered lead to what the controller reads of a patched Node
--   Bond                topology_agent/pkg/bond/discovery.go: select_interfaces_at is
--                       selectInterfacesAt, with the files of the host as a record of answers; State:
--                       the bonds; Found: which are discovered; Selected: what may be selected
--   Lldp                topology_agent/lldp.go: parse_lldp_frame is parseLLDPFrame; Tlvs and Frames: its
--                       loop and whole frames
--   Links               topology_agent/agent.go buildLeafLinks and the identities of topology_agent/lldp.go;
--                       Chassis: one leaf for each chassis
--   Service             algorithm_server/go/algorithm/service.go ignoredNGDWarnings; Usage:
--                       normalizeUsageStates and resourcesFull; Reported: the Nodes they are about;
--                       Allocation: allocate, which Run splits at the call of the worker into
--                       prepare and respond, with the theorems in Asked, Echoed and Accepted
--   Quantity            algorithm_server/go/algorithm/quantity.go: normalize_worker_resources is
--                       normalizeWorkerResources; Printed: the texts of answers and failures; Units
--                       Decimals and Computed: what the worker gets
--   Metrics             algorithm_server/go/algorithm/metrics.go: refresh and resolve, with the answer to
--                       each query as an argument; Binding: bindMetricSnapshotToNodes of
--                       metric_binding.go; Catalogue: metrics_config.go; Gathering, Complete, Addresses
--                       and Bound are the theorems about them
--   Worker              algorithm_server/go/algorithm/worker.go: calculate and recycle; Answers: no answer is
--                       left for a later request; Results: whose answer a result is
--   Tests               runs at concrete inputs
--
-- A Go int64 that is only compared is an integer or a natural number; one that is summed is kept
-- modulo 2^64. A loop is structural recursion over a list; only the loop of parseLLDPFrame runs on
-- fuel, as much as the frame has bytes, since each turn takes at least the two bytes of a header,
-- and the digits of a uint64 are printed with fuel for the 20 that it may have. Kubernetes calls
-- and HTTP calls are answers given to the functions, and what they send is a list of effects. The
-- operations on float64, the functions of k8s.io/apimachinery, SHA-256, the printing of a value, the
-- YAML and JSON decoders, the folding of Unicode letters and the files of a host are parameters. A map that is ranged over is a list in some order.
--
-- Not modelled: logging, observers and recorders, the registration with controller-runtime, the HTTP
-- transport and handlers of the Algorithm server, the sockets of the topology agent, the worker in
-- Python, and the vendored code.
pub mod Base
pub mod Text
pub mod Sets
pub mod Scheduler
pub mod Naming
pub mod Refresh
pub mod Json
pub mod Response
pub mod StaticSnapshot
pub mod Calculation
pub mod Tests
pub mod StaticCache
pub mod Topology
pub mod Snapshot
pub mod Facts
pub mod Service
pub mod Bond
pub mod Source
pub mod Metrics
pub mod Quantity
pub mod Worker
pub mod Lldp
pub mod Links

-- ===== src/StaticSnapshot.antt =====
-- prc/pkg/controller/static_snapshot_controller.go: the shared state of the Node static snapshot
-- and the reconciler that keeps it. The answers of the API server and of the Algorithm server in
-- one call of Reconcile are a record; a time is its number of nanoseconds.
pub mod Acknowledged
pub mod Watched
use ngd_ngg_scheduling.Base.{
  ℕ, Bool, true, false, not, ◌&&◌, ◌||◌, List, [], ◌∷◌, Option, none, some, if◌then◌else◌, ◌==◌, ℤ,
  pos, ltb_ℤ, nat_eq,
}
use ngd_ngg_scheduling.Text.{Text, text_Eq, lit, is_empty}

pub record StaticSnapshotStatus : Type 0 where
  pub snapshot_id : Text
  pub algorithm_boot_id : Text
  pub node_count : ℕ
  pub synced_at : ℕ
  pub last_error : Text
  pub last_attempted_at : ℕ

pub record StaticSnapshotState : Type 0 where
  pub status : StaticSnapshotStatus
  pub ready : Bool

abbrev pub no_status : StaticSnapshotStatus
no_status = record {
  snapshot_id = [];
  algorithm_boot_id = [];
  node_count = 0;
  synced_at = 0;
  last_error = [];
  last_attempted_at = 0;
}

-- NewStaticSnapshotState
abbrev pub new_static_snapshot_state : StaticSnapshotState
new_static_snapshot_state = record { status = no_status; ready = false }

-- Current, where no state is a nil pointer.
unfoldable pub current : Option StaticSnapshotState → StaticSnapshotStatus × Bool
current none = (no_status, false)
current (some s) = (s.status, s.ready)

-- `confirmed` does not look at the state before.
unfoldable pub confirmed : Text → Text → ℕ → ℕ → StaticSnapshotState → StaticSnapshotState
confirmed snapshot_id boot_id node_count now s = record {
  status = record {
    snapshot_id = snapshot_id;
    algorithm_boot_id = boot_id;
    node_count = node_count;
    synced_at = now;
    last_error = [];
    last_attempted_at = now;
  };
  ready = true;
}

unfoldable pub syncing : ℕ → StaticSnapshotState → StaticSnapshotState
syncing now s = record {
  status = record s.status { last_attempted_at = now; last_error = [] };
  ready = false;
}

-- `failed` with an error that is not nil: the text is what Error prints.
unfoldable pub failed : Text → ℕ → StaticSnapshotState → StaticSnapshotState
failed message now s = record {
  status = record s.status { last_attempted_at = now; last_error = message };
  ready = s.ready;
}

-- staticCacheStatus of prc/pkg/controller/algorithm_client.go
pub record StaticCacheStatus : Type 0 where
  pub algorithm_boot_id : Text
  pub ready : Bool
  pub accepted_snapshot : Text
  pub node_count : ℕ

pub record StaticAck : Type 0 where
  pub algorithm_boot_id : Text
  pub accepted_snapshot : Text
  pub node_count : ℕ

-- A value, or the text of the error.
pub data Answer (A : Type 0) : Type 0 where
  answered : A → Answer A
  refused : Text → Answer A

-- What one call of Reconcile meets: the number of listed Nodes, the identity that
-- buildStaticSnapshot computes, and the answers to staticStatus and putStatic.
pub record Round : Type 0 where
  pub now : ℕ
  pub listed : Answer ℕ
  pub built : Answer Text
  pub remote : Answer StaticCacheStatus
  pub ack : Answer StaticAck

-- `requeue` is RequeueAfter with the resync interval, `errored` a returned error.
pub data Ended : Type 0 where
  requeue : Ended
  errored : Ended

-- `published` is the state that readers see while putStatic runs, if it is called.
pub record Reconciled : Type 0 where
  pub state : StaticSnapshotState
  pub published : Option StaticSnapshotState
  pub ended : Ended

-- The test of the answer to staticStatus.
unfoldable pub is_synchronized : Text → StaticSnapshotState → Answer StaticCacheStatus → Bool
is_synchronized static_id s (refused message) = false
is_synchronized static_id s (answered remote) =
    remote.ready
    && (remote.accepted_snapshot == static_id
        && remote.algorithm_boot_id == s.status.algorithm_boot_id)

abbrev pub remote_boot_id : Answer StaticCacheStatus → Text
remote_boot_id (answered remote) = remote.algorithm_boot_id
remote_boot_id (refused message) = []

-- The end of Reconcile, after the answer to putStatic.
unfoldable pub acknowledge :
    Text → ℕ → ℕ → Answer StaticAck → StaticSnapshotState → StaticSnapshotState × Ended
unfolding failed confirmed
acknowledge static_id count now (refused message) s = (failed message now s, errored)
acknowledge static_id count now (answered ack) s =
    if not (ack.accepted_snapshot == static_id) || is_empty ack.algorithm_boot_id
    then (failed (lit "Algorithm did not acknowledge static snapshot identity") now s, errored)
    else (confirmed static_id ack.algorithm_boot_id count now s, requeue)

-- syncing, putStatic and what follows
unfoldable pub publish : Text → ℕ → ℕ → Answer StaticAck → StaticSnapshotState → Reconciled
unfolding syncing acknowledge
publish static_id count now ack s =
    let closed = syncing now s in
    let r = acknowledge static_id count now ack closed in
    record { state = r.0; published = some closed; ended = r.1 }

-- Reconcile from the point where the snapshot is built.
unfoldable pub synchronize : Text → ℕ → Round → StaticSnapshotState → Reconciled
unfolding is_synchronized publish confirmed
synchronize static_id count round s =
    if (s.ready && s.status.snapshot_id == static_id) && is_synchronized static_id s round.remote
    then record {
      state = confirmed static_id (remote_boot_id round.remote) count round.now s;
      published = none;
      ended = requeue;
    }
    else publish static_id count round.now round.ack s

-- Reconcile from the point where at least one Node is listed.
unfoldable pub build_and_synchronize : Answer Text → ℕ → Round → StaticSnapshotState → Reconciled
unfolding synchronize failed
build_and_synchronize (refused message) count round s = record {
  state = failed message round.now s;
  published = none;
  ended = requeue;
}
build_and_synchronize (answered static_id) count round s = synchronize static_id count round s

-- `len(nodes.Items) == 0` and what follows
unfoldable pub require_nodes : ℕ → Round → StaticSnapshotState → Reconciled
unfolding build_and_synchronize failed
require_nodes count round s =
    if nat_eq count 0
    then record {
      state = failed (lit "static snapshot requires at least one Node") round.now s;
      published = none;
      ended = requeue;
    }
    else build_and_synchronize round.built count round s

-- NodeStaticSnapshotReconciler.Reconcile
unfoldable pub reconcile : Round → StaticSnapshotState → Reconciled
unfolding require_nodes failed
reconcile round s = elim round.listed [
  | refused message ↦ record {
    state = failed message round.now s;
    published = none;
    ended = errored;
  }
  | answered count ↦ require_nodes count round s
]

-- One call after another: the controller runs a single key, and so no two calls at a time.
unfoldable pub run : List Round → StaticSnapshotState → StaticSnapshotState
unfolding reconcile
run [] s = s
run (round ∷ rounds) s = run rounds (reconcile round s).state

abbrev pub default_static_resync : ℤ
default_static_resync = pos 15000000000

-- The resync interval that SetupWithManager sets.
unfoldable pub resync_interval : ℤ → ℤ
resync_interval given = if ltb_ℤ (pos 0) given then given else default_static_resync

-- What staticNodeChangePredicate reads of a Node. The maps are lists in the order of their keys.
pub record WatchedNode : Type 0 where
  pub uid : Text
  pub labels : List (Text × Text)
  pub leaf_switch_ids : Text
  pub leaf_links : Text
  pub allocatable : List (Text × Text)

unfoldable pub same_map : List (Text × Text) → List (Text × Text) → Bool
same_map [] [] = true
same_map ((k, v) ∷ rest) ((j, w) ∷ others) = k == j && (v == w && same_map rest others)
same_map left right = false

-- staticTopologyAnnotationsChanged
unfoldable pub annotations_changed : WatchedNode → WatchedNode → Bool
annotations_changed old latest =
    not (old.leaf_switch_ids == latest.leaf_switch_ids) || not (old.leaf_links == latest.leaf_links)

-- UpdateFunc of staticNodeChangePredicate, where both objects are Nodes
unfoldable pub update_matters : WatchedNode → WatchedNode → Bool
unfolding same_map annotations_changed
update_matters old latest =
    not (old.uid == latest.uid)
    || (not (same_map old.labels latest.labels)
        || (annotations_changed old latest || not (same_map old.allocatable latest.allocatable)))

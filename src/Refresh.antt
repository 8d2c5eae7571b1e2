-- ===== src/Refresh.antt =====
-- prc/pkg/controller/refresh_controller.go: the controller of NodeGroupDemand events and the
-- refresh workers, over the scheduler. What the API server answers is an argument; what is
-- written to it is a list of effects.
pub mod Events
pub mod Rounds
use ngd_ngg_scheduling.Base.{
  ℕ, Bool, true, false, ◌&&◌, List, [], ◌∷◌, ◌++◌, Option, none, some, if◌then◌else◌, ℤ, pos, ltb_ℤ,
}
use ngd_ngg_scheduling.Text.{Text, lit, is_empty}
use ngd_ngg_scheduling.Naming.{grant_name}
use ngd_ngg_scheduling.Scheduler.{
  NamespacedName, RefreshScheduler, Execution, Emitted, sent, failed, waiting, upsert, trigger,
  begin, finish, is_current, schedule_after, remove,
}

-- What Reconcile reads of a NodeGroupDemand.
pub record Demand : Type 0 where
  pub name : Text
  pub uid : Text
  pub generation : ℕ
  pub phase : Text
  pub grant_ref : Text
  pub resolved_node_count : ℤ

-- The answer of a Get.
pub data Got {ℓ} (A : Type ℓ) : Type ℓ where
  found : A → Got A
  not_found : Got A
  unavailable : Got A

-- The answer of a Delete or an Apply.
pub data Written : Type 0 where
  accepted : Written
  absent : Written
  refused : Written

-- What the controller sends to the API server.
pub data Effect : Type 0 where
  set_status : Text → Text → ℤ → Text → Effect
  delete_grant : Text → Effect

-- `err == nil`, `err != nil`, or the call does not return since emit waits.
pub data Ended : Type 0 where
  done : Ended
  errored : Ended
  blocked : Ended

pub record Reconciled : Type 0 where
  pub scheduler : RefreshScheduler
  pub effects : List Effect
  pub ended : Ended

-- Trigger at the end of Reconcile.
unfoldable pub after_status :
    Bool → Bool → NamespacedName → List Effect → RefreshScheduler → Reconciled
after_status cancelled prefer_send key effects s = elim (trigger cancelled prefer_send key s) [
  | sent s' ↦ record { scheduler = s'; effects = effects; ended = done }
  | failed ↦ record { scheduler = s; effects = effects; ended = errored }
  | waiting ↦ record { scheduler = s; effects = effects; ended = blocked }
]

-- The status that the switch writes, if it writes one.
unfoldable pub status_of : Bool → Bool → Demand → Option Effect
status_of created changed demand =
    if created && is_empty demand.phase
    then some (set_status (lit "Pending") [] (pos 0) (lit "WaitingForInitialCalculation"))
    else if changed
    then some (
        set_status (lit "Updating") demand.grant_ref demand.resolved_node_count
          (lit "DemandSpecChanged"))
    else none

-- Writes the status, if there is one, and goes on; an error of the write ends Reconcile.
unfoldable pub write_status :
    Bool → Bool → Written → NamespacedName → Option Effect → RefreshScheduler → Reconciled
unfolding after_status
write_status cancelled prefer_send written key none s = after_status cancelled prefer_send key [] s
write_status cancelled prefer_send accepted key (some effect) s =
    after_status cancelled prefer_send key (effect ∷ []) s
write_status cancelled prefer_send written key (some effect) s = record {
  scheduler = s;
  effects = effect ∷ [];
  ended = errored;
}

-- The case of a demand that exists. `written` is the answer to the write of the status.
unfoldable pub reconcile_present :
    Bool → Bool → Written → NamespacedName → Demand → RefreshScheduler → Reconciled
unfolding write_status status_of
reconcile_present cancelled prefer_send written key demand s =
    let u = upsert key demand.uid demand.generation s in
    write_status cancelled prefer_send written key (status_of u.1 u.2 demand) u.0

-- The case of a demand that is gone: Remove and deleteGrant.
unfoldable pub reconcile_deleted : Written → NamespacedName → RefreshScheduler → Reconciled
reconcile_deleted grant_deleted key s = record {
  scheduler = remove key s;
  effects = delete_grant (grant_name key.name) ∷ [];
  ended = elim grant_deleted [ accepted ↦ done | absent ↦ done | refused ↦ errored ];
}

-- NodeGroupDemandReconciler.Reconcile
unfoldable pub reconcile_event :
    Bool → Bool → Written → Got Demand → NamespacedName → RefreshScheduler → Reconciled
unfolding reconcile_present reconcile_deleted
reconcile_event cancelled prefer_send written (found demand) key s =
    reconcile_present cancelled prefer_send written key demand s
reconcile_event cancelled prefer_send written not_found key s = reconcile_deleted written key s
reconcile_event cancelled prefer_send written unavailable key s = record {
  scheduler = s;
  effects = [];
  ended = errored;
}

-- What Processor.Process returns: an error, or RequeueAfter.
pub data Processed : Type 0 where
  requeue_after : ℤ → Processed
  process_failed : Processed

-- What the other goroutines do to the scheduler while the worker holds no lock: during Process,
-- between Finish and IsCurrent, and between IsCurrent and ScheduleAfter.
pub record Others : Type 0 where
  pub during_process : RefreshScheduler → RefreshScheduler
  pub after_finish : RefreshScheduler → RefreshScheduler
  pub after_check : RefreshScheduler → RefreshScheduler

-- `if delay <= 0 { delay = r.RefreshInterval }`
abbrev pub delay_of : ℤ → ℤ → ℤ
delay_of requeue interval = if ltb_ℤ (pos 0) requeue then requeue else interval

-- The end of RefreshReconciler.Reconcile, once IsCurrent has been asked.
unfoldable pub conclude :
    ℤ
    → NamespacedName
    → Execution
    → Processed
    → Bool
    → RefreshScheduler
    → RefreshScheduler
    → RefreshScheduler × Ended
conclude interval key x outcome false checked later = (checked, done)
conclude interval key x process_failed true checked later = (checked, errored)
conclude interval key x (requeue_after d) true checked later =
    (schedule_after key x.uid x.generation (delay_of d interval) later, done)

-- RefreshReconciler.Reconcile
unfoldable pub reconcile_refresh :
    ℤ → NamespacedName → Others → Processed → RefreshScheduler → RefreshScheduler × Ended
unfolding conclude
reconcile_refresh interval key others outcome s = elim (begin key s).1 [
  | none ↦ ((begin key s).0, done)
  | some x ↦
      let processed = others.during_process (begin key s).0 in
      let checked = others.after_finish (finish key x.uid x.generation processed) in
      conclude interval key x outcome (is_current key x.uid x.generation checked) checked
        (others.after_check checked)
]

abbrev pub default_demand_refresh_interval : ℤ
default_demand_refresh_interval = pos 15000000000

abbrev pub default_refresh_concurrency : ℤ
default_refresh_concurrency = pos 5

-- controllerOptions: the refresh interval and the number of workers that are used.
unfoldable pub controller_options : ℤ → ℤ → ℤ × ℤ
controller_options interval concurrent = (
  if ltb_ℤ (pos 0) interval then interval else default_demand_refresh_interval,
  if ltb_ℤ (pos 0) concurrent then concurrent else default_refresh_concurrency,
)

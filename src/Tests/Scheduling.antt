-- ===== src/Tests/Scheduling.antt =====
-- Runs of the scheduler and of the two reconcilers that use it.
use ngd_ngg_scheduling.Base.{
  ◌≡◌, refl, ◌↔◌, true, false, List, [], ◌∷◌, none, some, arith, list_eq, lookup, insert, delete,
  contains, ℕ_eq, ℤ, pos, ◌<◌, ◌+◌, ◌≤◌,
}
use ngd_ngg_scheduling.Text.{Text, text_Eq, lit}
use ngd_ngg_scheduling.Naming.{grant_name}
use ngd_ngg_scheduling.Scheduler.{
  NamespacedName, name_eq, name_Eq, RefreshTask, Timer, Execution, new_refresh_scheduler, without,
  stop_timer, call_cancel, same_identity, upsert_found, upsert, is_scheduled, emit, trigger, begin,
  is_current, finish, schedule_after, expire, on_timer, drop_task, remove,
}
use ngd_ngg_scheduling.Scheduler.Steps.{
  World, Action, upserts, removes, begins, finishes, schedules, expires, runs, find_timer,
  begin_running, finish_running, expire_timer, run_timer, step, run, emits, receives, emit_timer,
  send_trigger, receive_event,
}
use ngd_ngg_scheduling.Scheduler.Identity.{task_of, with_timer}
use ngd_ngg_scheduling.Scheduler.Refinement.{currency, abstract_run, run_refines}
use ngd_ngg_scheduling.Scheduler.Tracking.{initial, stale_running_cancelled}
use ngd_ngg_scheduling.Scheduler.Timers.{
  count_published, timer_of, stale_never_published, late_timer_orphans, event_of, refresh_actions,
  scheduled_published,
}
use ngd_ngg_scheduling.Refresh.{
  Demand, found, not_found, accepted, absent, refused, set_status, delete_grant, done, errored,
  after_status, status_of, write_status, reconcile_present, reconcile_deleted, reconcile_event,
  requeue_after, Others, conclude, reconcile_refresh,
}
use ngd_ngg_scheduling.Refresh.Events.{reconcile_event_done, reconcile_event_deleted}
use ngd_ngg_scheduling.Refresh.Rounds.{Knows, refresh_rearms}

program : Unit {0}
unfolding list_eq lookup insert delete contains name_eq new_refresh_scheduler without stop_timer
    call_cancel same_identity upsert_found upsert is_scheduled emit trigger begin is_current finish
    schedule_after expire on_timer drop_task remove find_timer begin_running finish_running
    expire_timer run_timer emit_timer send_trigger receive_event step run after_status status_of
    write_status reconcile_present reconcile_deleted reconcile_event conclude reconcile_refresh
program = tt

abbrev gpu : NamespacedName
gpu = record { namespace = []; name = lit "gpu" }

abbrev cpu : NamespacedName
cpu = record { namespace = []; name = lit "cpu" }

abbrev u1 : Text
u1 = lit "u1"

abbrev second : ℤ
second = pos 1000000000

-- A calculation begins and the demand is changed meanwhile.
abbrev changed_while_running : List Action
changed_while_running = upserts gpu u1 1 ∷ begins gpu ∷ upserts gpu u1 2 ∷ []

abbrev first_execution : Execution
first_execution = record { context = 0; uid = u1; generation = 1 }

stale_running_cancelled_example :
    contains 0 (run changed_while_running (initial (pos 8))).scheduler.cancelled ≡ true
unfolding program
stale_running_cancelled_example =
    stale_running_cancelled (pos 8) changed_while_running gpu first_execution refl refl

-- A demand with a refresh timer.
abbrev armed : World
unfolding program
armed = run (upserts gpu u1 1 ∷ schedules gpu u1 1 second ∷ []) (initial (pos 8))

-- One timer has passed its check before Remove, and sends its event after it.
abbrev racing : World
unfolding program
racing = run (expires 0 ∷ runs 0 ∷ removes gpu ∷ []) armed

stale_never_published_example :
    let w = run (emits false true 0 ∷ upserts gpu u1 2 ∷ receives ∷ []) racing in
    (is_current gpu u1 1 w.scheduler ≡ false)
    × (count_published gpu u1 1 w.published + count_published gpu u1 1 w.emitting ≤ 1)
unfolding program
stale_never_published_example =
    stale_never_published gpu u1 1 (emits false true 0 ∷ upserts gpu u1 2 ∷ receives ∷ []) racing
      (refl, (refl, (refl, tt))) refl

scheduled_published_example :
    let w = run (refresh_actions gpu u1 1 second 1 true) armed in
    (w.published ≡ timer_of gpu u1 1 second 1 ∷ [])
    × (w.scheduler.events ≡ event_of gpu ∷ [])
    × (task_of gpu w.scheduler ≡ with_timer none (task_of gpu armed.scheduler))
unfolding program
scheduled_published_example = scheduled_published gpu u1 1 second true armed refl (omega arith)

abbrev armed_task : RefreshTask
armed_task = record { uid = u1; generation = 1; timer = some 0; cancel = none }

-- The timer 0 has expired when ScheduleAfter sets the timer 1.
abbrev late : World
unfolding program
late = run (expires 0 ∷ schedules gpu u1 1 second ∷ []) armed

abbrev late_timer : Timer
late_timer = timer_of gpu u1 1 second 0

abbrev replacement : Timer
replacement = timer_of gpu u1 1 second 1

late_timer_orphans_example :
    (find_timer 1 (schedule_after gpu u1 1 second (on_timer late_timer late.scheduler).0).pending
      ≡ some replacement)
    × (find_timer 2 (schedule_after gpu u1 1 second (on_timer late_timer late.scheduler).0).pending
        ≡ some (timer_of gpu u1 1 second 2))
    × (task_of gpu (schedule_after gpu u1 1 second (on_timer late_timer late.scheduler).0)
        ≡ some (record armed_task { timer = some 2 }))
unfolding program
late_timer_orphans_example =
    late_timer_orphans late_timer replacement second late.scheduler
      (record armed_task { timer = some 1 }) refl refl refl refl (omega arith)

-- A superseded calculation ends and a demand is removed, from the armed scheduler on.
abbrev mixed : List Action
mixed = begins gpu ∷ upserts gpu u1 2 ∷ upserts cpu (lit "u2") 1 ∷ finishes gpu ∷ removes cpu ∷ []

run_refines_example :
    currency (run mixed armed).scheduler ≡ abstract_run mixed (currency armed.scheduler)
run_refines_example = run_refines mixed armed

abbrev changed_demand : Demand
changed_demand = record {
  name = lit "gpu";
  uid = u1;
  generation = 2;
  phase = lit "Fulfilled";
  grant_ref = lit "ngg-gpu";
  resolved_node_count = pos 2;
}

reconcile_event_done_example :
    (is_current gpu u1 2
        (reconcile_event false true accepted (found changed_demand) gpu armed.scheduler).scheduler
      ≡ true)
    × ((reconcile_event false true accepted
          (found changed_demand)
          gpu
          armed.scheduler).scheduler.events
        ≡ event_of gpu ∷ [])
    × ((reconcile_event false true accepted (found changed_demand) gpu armed.scheduler).effects
        ≡ set_status (lit "Updating") (lit "ngg-gpu") (pos 2) (lit "DemandSpecChanged") ∷ [])
unfolding program
reconcile_event_done_example =
    reconcile_event_done false true accepted changed_demand gpu armed.scheduler refl

reconcile_event_deleted_example :
    (is_current gpu u1 1 (reconcile_event false true absent not_found gpu armed.scheduler).scheduler
      ≡ false)
    × ((reconcile_event false true absent not_found gpu armed.scheduler).effects
        ≡ delete_grant (grant_name (lit "gpu")) ∷ [])
    × (((reconcile_event false true absent not_found gpu armed.scheduler).ended ≡ errored)
        ↔ (absent ≡ refused))
unfolding program
reconcile_event_deleted_example =
    reconcile_event_deleted false true absent gpu gpu u1 1 armed.scheduler

-- Another demand arrives during the calculation; nothing else happens.
abbrev arrives : Others
unfolding program
arrives = record {
  during_process = λ s. (upsert cpu (lit "u2") 1 s).0;
  after_finish = λ s. s;
  after_check = λ s. s;
}

refresh_rearms_example :
    ((reconcile_refresh second gpu arrives (requeue_after (pos 0)) armed.scheduler).1 ≡ done)
    × (find_timer 2
          (reconcile_refresh second gpu arrives (requeue_after (pos 0)) armed.scheduler).0.pending
        ≡ some (timer_of gpu u1 1 second 2))
    × (0 < 1000000000)
    × Knows 2 (
        task_of gpu
          (reconcile_refresh second gpu arrives (requeue_after (pos 0)) armed.scheduler).0)
unfolding program
refresh_rearms_example =
    refresh_rearms second (pos 0) gpu arrives armed.scheduler armed_task refl refl refl refl

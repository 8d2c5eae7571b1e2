-- ===== src/Scheduler.antt =====
-- prc/pkg/controller/refresh_scheduler.go: one refresh task for each NodeGroupDemand, with a timer
-- and the cancel function of the calculation that runs for it.
-- Pointers to timers and cancel functions are numbers. `pending` holds the timers that run,
-- `fired` those that have expired and whose function waits for the mutex: Stop has no effect on
-- them. `cancelled` holds the contexts whose cancel function was called. Each function below is one
-- critical section of the mutex, except `emit`, which runs without it, and `trigger`, which is the
-- check of Trigger and its emit in one.
pub mod Steps
pub mod Identity
pub mod Tracking
pub mod Timers
pub mod Refinement
use ngd_ngg_scheduling.Base.{
  ℕ, suc, ◌≡◌, ◌↔◌, Bool, true, false, not, ◌&&◌, List, [], ◌∷◌, ◌++◌, Option, none, some, ltb, ℤ,
  pos, pos_part, ltb_ℤ, if◌then◌else◌, length, Eq, ◌==◌, lookup, insert, delete, nat_eq, arith,
}
use ngd_ngg_scheduling.Text.{Text, text_Eq}

-- types.NamespacedName
pub record NamespacedName : Type 0 where
  pub namespace : Text
  pub name : Text

unfoldable pub name_eq : NamespacedName → NamespacedName → Bool
name_eq a b = (a.namespace == b.namespace) && (a.name == b.name)

pub name_eq_iff : (a b : NamespacedName) → (name_eq a b ≡ true) ↔ (a ≡ b)
unfolding name_eq
name_eq_iff a b =
    ground (arith, text_Eq.beq_iff a.namespace b.namespace, text_Eq.beq_iff a.name b.name)

instance abbrev pub name_Eq : Eq NamespacedName
name_Eq = record { beq = name_eq; beq_iff = name_eq_iff }

-- refreshTask
pub record RefreshTask : Type 0 where
  pub uid : Text
  pub generation : ℕ
  pub timer : Option ℕ
  pub cancel : Option ℕ

-- A timer of time.AfterFunc with what its function has captured.
pub record Timer : Type 0 where
  pub id : ℕ
  pub key : NamespacedName
  pub uid : Text
  pub generation : ℕ
  pub delay : ℕ

-- RefreshScheduler, and the timers and contexts that its pointers lead to. `ctx` is the context of
-- Start; `next` is a number that no timer and no context has yet.
pub record RefreshScheduler : Type 0 where
  pub tasks : List (NamespacedName × RefreshTask)
  pub events : List NamespacedName
  pub buffer : ℕ
  pub ctx : Option ℕ
  pub pending : List Timer
  pub fired : List Timer
  pub cancelled : List ℕ
  pub next : ℕ

abbrev pub default_refresh_event_buffer : ℕ
default_refresh_event_buffer = 1024

-- NewRefreshScheduler
unfoldable pub new_refresh_scheduler : ℤ → RefreshScheduler
new_refresh_scheduler buffer = record {
  tasks = [];
  events = [];
  buffer = if ltb_ℤ (pos 0) buffer then pos_part buffer else default_refresh_event_buffer;
  ctx = none;
  pending = [];
  fired = [];
  cancelled = [];
  next = 0;
}

unfoldable pub without : ℕ → List Timer → List Timer
without id [] = []
without id (t ∷ ts) = let rest = without id ts in if nat_eq id t.id then rest else t ∷ rest

-- `if task.timer != nil { task.timer.Stop() }`
unfoldable pub stop_timer : Option ℕ → RefreshScheduler → RefreshScheduler
unfolding without
stop_timer none s = s
stop_timer (some id) s = record s { pending = without id s.pending }

-- `if task.cancel != nil { task.cancel() }`
unfoldable pub call_cancel : Option ℕ → RefreshScheduler → RefreshScheduler
call_cancel none s = s
call_cancel (some id) s = record s { cancelled = id ∷ s.cancelled }

unfoldable pub same_identity : RefreshTask → Text → ℕ → Bool
same_identity task uid generation = (task.uid == uid) && nat_eq task.generation generation

abbrev pub set_task : NamespacedName → RefreshTask → RefreshScheduler → RefreshScheduler
set_task key task s = record s { tasks = insert key task s.tasks }

-- What Upsert does with the task that it finds: the new scheduler and `changed`.
unfoldable pub upsert_found :
    NamespacedName → Text → ℕ → RefreshTask → RefreshScheduler → RefreshScheduler × Bool
unfolding stop_timer call_cancel same_identity
upsert_found key uid generation task s = if same_identity task uid generation then (s, false) else (
  set_task key (record { uid = uid; generation = generation; timer = none; cancel = none })
      (call_cancel task.cancel (stop_timer task.timer s)),
  true,
)

-- Upsert: the new scheduler, `created` and `changed`.
unfoldable pub upsert :
    NamespacedName → Text → ℕ → RefreshScheduler → RefreshScheduler × Bool × Bool
unfolding upsert_found
upsert key uid generation s = elim (lookup key s.tasks) [
  | none ↦ (
    set_task key (record { uid = uid; generation = generation; timer = none; cancel = none }) s,
    true,
    false,
  )
  | some task ↦ let r = upsert_found key uid generation task s in (r.0, false, r.1)
]

-- The locked part of Trigger: whether the demand has a task.
unfoldable pub is_scheduled : NamespacedName → RefreshScheduler → Bool
is_scheduled key s = elim (lookup key s.tasks) [ none ↦ false | some task ↦ true ]

-- What a send of emit came to. The select waits where the buffer is full and the context lives.
pub data Emitted : Type 0 where
  sent : RefreshScheduler → Emitted
  failed : Emitted
  waiting : Emitted

-- emit: the event holds the name alone. Where both cases of the select are ready, `prefer_send`
-- is the choice of the runtime.
unfoldable pub emit : Bool → Bool → NamespacedName → RefreshScheduler → Emitted
emit done prefer_send key s =
    let send =
      sent (record s { events = s.events ++ (record { namespace = []; name = key.name } ∷ []) }) in
    let room = ltb (length s.events) s.buffer in
    if room
    then (if done && not prefer_send then failed else send)
    else (if done then failed else waiting)

-- Trigger: nothing where the demand has no task, else emit.
unfoldable pub trigger : Bool → Bool → NamespacedName → RefreshScheduler → Emitted
unfolding is_scheduled emit
trigger done prefer_send key s = if is_scheduled key s then emit done prefer_send key s else sent s

-- An execution context with the identity that Begin returns beside it.
pub record Execution : Type 0 where
  pub context : ℕ
  pub uid : Text
  pub generation : ℕ

-- Begin: `none` where the demand has no task.
unfoldable pub begin : NamespacedName → RefreshScheduler → RefreshScheduler × Option Execution
begin key s = elim (lookup key s.tasks) [
  | none ↦ (s, none)
  | some task ↦ (
    record (set_task key (record task { cancel = some s.next }) s) { next = suc s.next },
    some (record { context = s.next; uid = task.uid; generation = task.generation }),
  )
]

-- IsCurrent
unfoldable pub is_current : NamespacedName → Text → ℕ → RefreshScheduler → Bool
unfolding same_identity
is_current key uid generation s = elim (lookup key s.tasks) [
  | none ↦ false
  | some task ↦ same_identity task uid generation
]

-- Finish
unfoldable pub finish : NamespacedName → Text → ℕ → RefreshScheduler → RefreshScheduler
unfolding call_cancel same_identity
finish key uid generation s = elim (lookup key s.tasks) [
  | none ↦ s
  | some task ↦
      if same_identity task uid generation
      then set_task key (record task { cancel = none }) (call_cancel task.cancel s)
      else s
]

abbrev pub clamp : ℤ → ℕ
clamp delay = if ltb_ℤ delay (pos 0) then 0 else pos_part delay

-- ScheduleAfter
unfoldable pub schedule_after : NamespacedName → Text → ℕ → ℤ → RefreshScheduler → RefreshScheduler
unfolding stop_timer same_identity
schedule_after key uid generation delay s = elim (lookup key s.tasks) [
  | none ↦ s
  | some task ↦
      if same_identity task uid generation
      then record (set_task key (record task { timer = some s.next }) (stop_timer task.timer s)) {
        pending =
            record {
              id = s.next;
              key = key;
              uid = uid;
              generation = generation;
              delay = clamp delay;
            }
            ∷ (stop_timer task.timer s).pending;
        next = suc s.next;
      }
      else s
]

-- The time of a pending timer is over: its function starts.
unfoldable pub expire : Timer → RefreshScheduler → RefreshScheduler
unfolding without
expire t s = record s { pending = without t.id s.pending; fired = t ∷ s.fired }

-- The locked part of a timer's function: the key to emit, if the identity is still current.
unfoldable pub on_timer : Timer → RefreshScheduler → RefreshScheduler × Option NamespacedName
unfolding same_identity without
on_timer t s =
    let s' = record s { fired = without t.id s.fired } in
    elim (lookup t.key s.tasks) [
      | none ↦ (s', none)
      | some task ↦
          if same_identity task t.uid t.generation
          then (set_task t.key (record task { timer = none }) s', some t.key)
          else (s', none)
    ]

-- What Remove and the loop of Start do with one task: stop, cancel, delete.
unfoldable pub drop_task : NamespacedName → RefreshTask → RefreshScheduler → RefreshScheduler
unfolding stop_timer call_cancel
drop_task key task s = record (call_cancel task.cancel (stop_timer task.timer s)) {
  tasks = delete key s.tasks;
}

-- Remove
unfoldable pub remove : NamespacedName → RefreshScheduler → RefreshScheduler
unfolding drop_task
remove key s = elim (lookup key s.tasks) [ none ↦ s | some task ↦ drop_task key task s ]

-- The first locked part of Start.
unfoldable pub start : ℕ → RefreshScheduler → RefreshScheduler
start ctx s = record s { ctx = some ctx }

-- The loop of Start after its context has ended.
unfoldable pub stop_tasks :
    List (NamespacedName × RefreshTask) → RefreshScheduler → RefreshScheduler
unfolding drop_task
stop_tasks [] s = s
stop_tasks ((key, task) ∷ rest) s = stop_tasks rest (drop_task key task s)

unfoldable pub shut_down : RefreshScheduler → RefreshScheduler
unfolding stop_tasks
shut_down s = stop_tasks s.tasks s

-- ===== src/Scheduler/Steps.antt =====
-- The scheduler with the goroutines that use it, as a sequence of atomic actions: the event
-- controller (Upsert, Remove), the refresh workers (Begin, Finish, ScheduleAfter) and the timers.
-- `running` holds the calculations between their Begin and their Finish. The function of a timer is
-- two actions: its locked part, after which the timer is in `emitting`, and the send of its event
-- after the mutex is unlocked, after which it is in `published`, newest first. The send of Trigger is
-- an action of its own, which may come at any time after the check under the mutex. An action that
-- cannot be taken changes nothing; a send that waits for room in the channel is one.
-- The work queue of controller-runtime never runs two reconciles of one key at a time: so a key
-- begins only while it has no calculation running.
use ngd_ngg_scheduling.Base.{
  ℕ, Bool, List, [], ◌∷◌, Option, none, some, if◌then◌else◌, lookup, insert, delete, ℤ, nat_eq,
}
use ngd_ngg_scheduling.Text.{Text}
use ngd_ngg_scheduling.Scheduler.{
  NamespacedName, name_Eq, Timer, Execution, RefreshScheduler, upsert, remove, begin, finish,
  schedule_after, expire, on_timer, without, sent, failed, waiting, emit,
}

pub record World : Type 0 where
  pub scheduler : RefreshScheduler
  pub running : List (NamespacedName × Execution)
  pub emitting : List Timer
  pub published : List Timer

pub data Action : Type 0 where
  upserts : NamespacedName → Text → ℕ → Action
  removes : NamespacedName → Action
  begins : NamespacedName → Action
  finishes : NamespacedName → Action
  schedules : NamespacedName → Text → ℕ → ℤ → Action
  expires : ℕ → Action
  runs : ℕ → Action
  emits : Bool → Bool → ℕ → Action
  sends : Bool → Bool → NamespacedName → Action
  receives : Action

unfoldable pub find_timer : ℕ → List Timer → Option Timer
find_timer id [] = none
find_timer id (t ∷ ts) = if nat_eq id t.id then some t else find_timer id ts

unfoldable pub begin_running : NamespacedName → World → World
begin_running key w = elim (lookup key w.running) [
  | some busy ↦ w
  | none ↦ elim (begin key w.scheduler).1 [
    | none ↦ w
    | some x ↦ record w { scheduler = (begin key w.scheduler).0; running = insert key x w.running }
  ]
]

unfoldable pub finish_running : NamespacedName → World → World
finish_running key w = elim (lookup key w.running) [
  | none ↦ w
  | some x ↦ record w {
    scheduler = finish key x.uid x.generation w.scheduler;
    running = delete key w.running;
  }
]

unfoldable pub expire_timer : ℕ → World → World
expire_timer id w = elim (find_timer id w.scheduler.pending) [
  | none ↦ w
  | some t ↦ record w { scheduler = expire t w.scheduler }
]

-- The locked part of a timer's function: the timer goes on to its send if its identity is current.
unfoldable pub run_timer : ℕ → World → World
run_timer id w = elim (find_timer id w.scheduler.fired) [
  | none ↦ w
  | some t ↦ record w {
    scheduler = (on_timer t w.scheduler).0;
    emitting = elim (on_timer t w.scheduler).1 [ none ↦ w.emitting | some key ↦ t ∷ w.emitting ];
  }
]

-- The send of a timer's function, without the mutex: whatever has happened to the identity since.
unfoldable pub emit_timer : Bool → Bool → ℕ → World → World
emit_timer done prefer_send id w = elim (find_timer id w.emitting) [
  | none ↦ w
  | some t ↦ elim (emit done prefer_send t.key w.scheduler) [
    | sent s ↦ record w {
      scheduler = s;
      emitting = without id w.emitting;
      published = t ∷ w.published;
    }
    | failed ↦ record w { emitting = without id w.emitting }
    | waiting ↦ w
  ]
]

-- The send of Trigger.
unfoldable pub send_trigger : Bool → Bool → NamespacedName → World → World
send_trigger done prefer_send key w = elim (emit done prefer_send key w.scheduler) [
  | sent s ↦ record w { scheduler = s }
  | failed ↦ w
  | waiting ↦ w
]

abbrev rest_of : List NamespacedName → List NamespacedName
rest_of [] = []
rest_of (key ∷ keys) = keys

-- The work queue takes the first event of the channel.
unfoldable pub receive_event : World → World
receive_event w = record w {
  scheduler = record w.scheduler { events = rest_of w.scheduler.events };
}

unfoldable pub step : Action → World → World
step (upserts key uid generation) w = record w {
  scheduler = (upsert key uid generation w.scheduler).0;
}
step (removes key) w = record w { scheduler = remove key w.scheduler }
step (begins key) w = begin_running key w
step (finishes key) w = finish_running key w
step (schedules key uid generation delay) w = record w {
  scheduler = schedule_after key uid generation delay w.scheduler;
}
step (expires id) w = expire_timer id w
step (runs id) w = run_timer id w
step (emits done prefer_send id) w = emit_timer done prefer_send id w
step (sends done prefer_send key) w = send_trigger done prefer_send key w
step receives w = receive_event w

unfoldable pub run : List Action → World → World
run [] w = w
run (a ∷ rest) w = run rest (step a w)

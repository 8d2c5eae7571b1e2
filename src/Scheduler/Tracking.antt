-- ===== src/Scheduler/Tracking.antt =====
-- The calculations that run: each one whose context still lives works for the current identity of
-- its key.
use ngd_ngg_scheduling.Base.{
  ℕ, ◌≡◌, refl, Bool, ◌⊎◌, inl, inr, true, false, List, [], ◌∷◌, Option, none, some, arith, lookup,
  lookup-insert, lookup-delete, ℤ, Option-cases, contains, ℕ_eq,
}
use ngd_ngg_scheduling.Text.{Text, text_Eq}
use ngd_ngg_scheduling.Scheduler.{
  NamespacedName, name_Eq, RefreshTask, Timer, Execution, upsert, is_current, begin, finish,
  schedule_after, expire, on_timer, remove, new_refresh_scheduler, RefreshScheduler,
}
use ngd_ngg_scheduling.Scheduler.Identity.{
  task_of, has_identity, is_current_lem, emit-same, emit-cases,
}
use ngd_ngg_scheduling.Scheduler.Steps.{
  World, Action, upserts, removes, begins, finishes, schedules, expires, runs, step, run,
  find_timer, begin_running, finish_running, expire_timer, run_timer, emits, sends, receives,
  emit_timer, send_trigger, receive_event,
}

-- The task holds the cancel function of the calculation and has its identity.
abbrev Holds : Execution → Option RefreshTask → Type 0
Holds x none = ⊥
Holds x (some task) =
    (task.cancel ≡ some x.context) × (task.uid ≡ x.uid) × (task.generation ≡ x.generation)

-- A calculation that runs has been cancelled, or its task still holds it.
abbrev pub IsTracked : World → Type 0
IsTracked w =
    (key : NamespacedName) (x : Execution)
    → lookup key w.running ≡ some x
    → (contains x.context w.scheduler.cancelled ≡ true) ⊎ Holds x (task_of key w.scheduler)

upsert-IsTracked :
    (k : NamespacedName) (uid : Text) (generation : ℕ) (w : World)
    → IsTracked w
    → IsTracked (record w { scheduler = (upsert k uid generation w.scheduler).0 })
unfolding upsert contains
upsert-IsTracked k uid generation w t key x h =
    grind (arith, t key x h, lookup-insert, name_Eq.beq_iff key k)

remove-IsTracked :
    (k : NamespacedName) (w : World)
    → IsTracked w
    → IsTracked (record w { scheduler = remove k w.scheduler })
unfolding remove contains
remove-IsTracked k w t key x h = grind (arith, t key x h, lookup-delete, name_Eq.beq_iff key k)

schedules-IsTracked :
    (k : NamespacedName) (uid : Text) (generation : ℕ) (delay : ℤ) (w : World)
    → IsTracked w
    → IsTracked (record w { scheduler = schedule_after k uid generation delay w.scheduler })
unfolding schedule_after contains
schedules-IsTracked k uid generation delay w t key x h =
    grind (arith, t key x h, lookup-insert, name_Eq.beq_iff key k)

begins-IsTracked : (k : NamespacedName) (w : World) → IsTracked w → IsTracked (begin_running k w)
unfolding begin_running begin contains
begins-IsTracked k w t key x h = grind (arith, t key x, lookup-insert, name_Eq.beq_iff key k)

finishes-IsTracked : (k : NamespacedName) (w : World) → IsTracked w → IsTracked (finish_running k w)
unfolding finish_running finish contains
finishes-IsTracked k w t key x h =
    grind (arith, t key x, lookup-insert, lookup-delete, name_Eq.beq_iff key k)

on_timer-IsTracked :
    (tm : Timer) (w : World)
    → IsTracked w
    → IsTracked (record w { scheduler = (on_timer tm w.scheduler).0 })
unfolding on_timer contains
on_timer-IsTracked tm w t key x h =
    grind (arith, t key x h, lookup-insert, name_Eq.beq_iff key tm.key)

runs-IsTracked : (id : ℕ) (w : World) → IsTracked w → IsTracked (run_timer id w)
unfolding run_timer
runs-IsTracked id w t = elim (Option-cases (find_timer id w.scheduler.fired)) [
  | inl e ↦ rw (e, run_timer) t
  | inr (tm, e) ↦ rw (e, run_timer) (on_timer-IsTracked tm w t)
]

expires-IsTracked : (id : ℕ) (w : World) → IsTracked w → IsTracked (expire_timer id w)
unfolding expire_timer expire contains
expires-IsTracked id w t key x h = grind (arith, t key x, lookup-insert)

-- The tracking reads the calculations, the tasks and the contexts alone.
same-IsTracked :
    (w : World) (s : RefreshScheduler)
    → (s.tasks ≡ w.scheduler.tasks) × (s.cancelled ≡ w.scheduler.cancelled)
    → IsTracked w
    → IsTracked (record w { scheduler = s })
same-IsTracked w s same t key x h = rw (same.0, same.1) (t key x h)

emits-IsTracked :
    (over prefer_send : Bool) (id : ℕ) (w : World)
    → IsTracked w
    → IsTracked (emit_timer over prefer_send id w)
unfolding emit_timer
emits-IsTracked over prefer_send id w t = elim (Option-cases (find_timer id w.emitting)) [
  | inl e ↦ rw (e, emit_timer) t
  | inr (tm, e) ↦ elim (emit-cases over prefer_send tm.key w.scheduler) [
    | inl (s, f) ↦
        rw (e, f, emit_timer)
          (same-IsTracked w s (emit-same over prefer_send tm.key w.scheduler s f) t)
    | inr (inl f) ↦ rw (e, f, emit_timer) t
    | inr (inr f) ↦ rw (e, f, emit_timer) t
  ]
]

sends-IsTracked :
    (over prefer_send : Bool) (k : NamespacedName) (w : World)
    → IsTracked w
    → IsTracked (send_trigger over prefer_send k w)
unfolding send_trigger
sends-IsTracked over prefer_send k w t = elim (emit-cases over prefer_send k w.scheduler) [
  | inl (s, f) ↦
      rw (f, send_trigger) (same-IsTracked w s (emit-same over prefer_send k w.scheduler s f) t)
  | inr (inl f) ↦ rw (f, send_trigger) t
  | inr (inr f) ↦ rw (f, send_trigger) t
]

step-IsTracked : (a : Action) (w : World) → IsTracked w → IsTracked (step a w)
unfolding step receive_event
step-IsTracked (upserts key uid generation) w t = upsert-IsTracked key uid generation w t
step-IsTracked (removes key) w t = remove-IsTracked key w t
step-IsTracked (begins key) w t = begins-IsTracked key w t
step-IsTracked (finishes key) w t = finishes-IsTracked key w t
step-IsTracked (schedules key uid generation delay) w t =
    schedules-IsTracked key uid generation delay w t
step-IsTracked (expires id) w t = expires-IsTracked id w t
step-IsTracked (runs id) w t = runs-IsTracked id w t
step-IsTracked (emits over prefer_send id) w t = emits-IsTracked over prefer_send id w t
step-IsTracked (sends over prefer_send key) w t = sends-IsTracked over prefer_send key w t
step-IsTracked receives w t = same-IsTracked w (receive_event w).scheduler (refl, refl) t

pub run-IsTracked : (actions : List Action) (w : World) → IsTracked w → IsTracked (run actions w)
unfolding run
run-IsTracked [] w t = t
run-IsTracked (a ∷ rest) w t = run-IsTracked rest (step a w) (step-IsTracked a w t)

-- The world before the first event.
abbrev pub initial : ℤ → World
initial buffer = record {
  scheduler = new_refresh_scheduler buffer;
  running = [];
  emitting = [];
  published = [];
}

initial-IsTracked : (buffer : ℤ) → IsTracked (initial buffer)
unfolding lookup
initial-IsTracked buffer key x h = cc

Holds-is_current :
    (x : Execution) (o : Option RefreshTask) → Holds x o → has_identity x.uid x.generation o ≡ true
Holds-is_current x none h = absurd h
Holds-is_current x (some task) h = ground (arith, text_Eq.beq_iff task.uid x.uid)

-- From a new scheduler, after any actions in any order: a calculation that still runs for an
-- identity which is no longer current, since the demand was changed, replaced or deleted meanwhile,
-- has a cancelled context.
pub stale_running_cancelled :
    (buffer : ℤ) (actions : List Action) (key : NamespacedName) (x : Execution)
    → lookup key (run actions (initial buffer)).running ≡ some x
    → is_current key x.uid x.generation (run actions (initial buffer)).scheduler ≡ false
    → contains x.context (run actions (initial buffer)).scheduler.cancelled ≡ true
stale_running_cancelled buffer actions key x h stale =
    let w = run actions (initial buffer) in
    elim (run-IsTracked actions (initial buffer) (initial-IsTracked buffer) key x h) [
      | inl c ↦ c
      | inr held ↦ cc (
        stale,
        is_current_lem key x.uid x.generation w.scheduler,
        Holds-is_current x (task_of key w.scheduler) held,
      )
    ]

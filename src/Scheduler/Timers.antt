-- ===== src/Scheduler/Timers.antt =====
-- What the timers of the scheduler may publish, and which of them a task knows.
use ngd_ngg_scheduling.Base.{
  ℕ, suc, ◌+◌, ◌≤◌, Bool-cases, ◌<◌, ◌++◌, length, ◌≡◌, inl, inr, Bool, true, false, ◌&&◌, List, [],
  ◌∷◌, none, some, arith, if◌then◌else◌, ◌==◌, nat_eq, ℤ, Option-cases, ℕ_eq, All, ◌∙◌,
  lookup-insert,
}
use ngd_ngg_scheduling.Text.{Text, text_Eq}
use ngd_ngg_scheduling.Scheduler.{
  NamespacedName, name_Eq, RefreshTask, Timer, RefreshScheduler, clamp, without, is_current,
  schedule_after, expire, on_timer, sent, emit,
}
use ngd_ngg_scheduling.Scheduler.Identity.{
  task_of, with_timer, has_identity, is_current-upsert, is_current-remove, is_current-begin,
  is_current-finish, is_current-schedule_after, is_current-on_timer, is_current-tasks, emit-same,
  emit-cases,
}
use ngd_ngg_scheduling.Scheduler.Steps.{
  World, Action, upserts, removes, begins, finishes, schedules, expires, runs, step, run,
  find_timer, begin_running, finish_running, expire_timer, run_timer, emits, sends, receives,
  emit_timer, send_trigger, receive_event,
}

module _ (key : NamespacedName) (uid : Text) (generation : ℕ) where
  -- Whether an action records the identity anew.
  abbrev pub records : Action → Bool
  records (upserts k u g) = (key == k) && ((u == uid) && nat_eq g generation)
  records _ = false

  abbrev pub is_of : Timer → Bool
  is_of t = (key == t.key) && ((t.uid == uid) && nat_eq t.generation generation)

  -- How many of the published events come from timers of the identity.
  abbrev pub count_published : List Timer → ℕ
  count_published [] = 0
  count_published (t ∷ ts) = if is_of t then suc (count_published ts) else count_published ts

  on_timer-none :
      (t : Timer) (s : RefreshScheduler)
      → is_of t ≡ true
      → is_current key uid generation s ≡ false
      → (on_timer t s).1 ≡ none
  unfolding on_timer is_current
  on_timer-none t s m stale = ground (arith, name_Eq.beq_iff key t.key, text_Eq.beq_iff t.uid uid)

  -- The timers of the identity whose event is published or on its way.
  abbrev pub count_released : World → ℕ
  count_released w = count_published w.published + count_published w.emitting

  run_timer-count :
      (id : ℕ) (w : World)
      → is_current key uid generation w.scheduler ≡ false
      → (is_current key uid generation (run_timer id w).scheduler ≡ false)
        × (count_released (run_timer id w) ≤ count_released w)
  unfolding run_timer
  run_timer-count id w stale = elim (Option-cases (find_timer id w.scheduler.fired)) [
    | inl e ↦ rw (e, run_timer) (stale, omega arith)
    | inr (t, e) ↦
        rw (e, run_timer)
          (
            is_current-on_timer key uid generation t w.scheduler ∙ stale,
            ground (arith, on_timer-none t w.scheduler),
          )
  ]

  count-without : (id : ℕ) (ts : List Timer) → count_published (without id ts) ≤ count_published ts
  unfolding without
  count-without id [] = omega arith
  count-without id (t ∷ ts) = ground (arith, count-without id ts)

  count-found :
      (id : ℕ) (ts : List Timer) (t : Timer)
      → find_timer id ts ≡ some t
      → count_published (t ∷ without id ts) ≤ count_published ts
  unfolding without find_timer
  count-found id [] t e = cc
  count-found id (x ∷ ts) t e = elim (Bool-cases (nat_eq id x.id)) [
    | inl same ↦ ground (arith, count-without id ts)
    | inr other ↦ ground (arith, count-found id ts t)
  ]

  emit-stale :
      (over prefer_send : Bool) (k : NamespacedName) (s s' : RefreshScheduler)
      → emit over prefer_send k s ≡ sent s'
      → is_current key uid generation s ≡ false
      → is_current key uid generation s' ≡ false
  emit-stale over prefer_send k s s' e stale =
      is_current-tasks key uid generation s s' (emit-same over prefer_send k s s' e).0 ∙ stale

  emit_timer-stale :
      (over prefer_send : Bool) (id : ℕ) (w : World)
      → is_current key uid generation w.scheduler ≡ false
      → (is_current key uid generation (emit_timer over prefer_send id w).scheduler ≡ false)
        × (count_released (emit_timer over prefer_send id w) ≤ count_released w)
  unfolding emit_timer
  emit_timer-stale over prefer_send id w stale = elim (Option-cases (find_timer id w.emitting)) [
    | inl e ↦ rw (e, emit_timer) (stale, omega arith)
    | inr (t, e) ↦ elim (emit-cases over prefer_send t.key w.scheduler) [
      | inl (s, f) ↦
          rw (e, f, emit_timer)
            (
              emit-stale over prefer_send t.key w.scheduler s f stale,
              ground (arith, count-found id w.emitting t e),
            )
      | inr (inl f) ↦ rw (e, f, emit_timer) (stale, omega (arith, count-without id w.emitting))
      | inr (inr f) ↦ rw (e, f, emit_timer) (stale, omega arith)
    ]
  ]

  send_trigger-stale :
      (over prefer_send : Bool) (k : NamespacedName) (w : World)
      → is_current key uid generation w.scheduler ≡ false
      → (is_current key uid generation (send_trigger over prefer_send k w).scheduler ≡ false)
        × (count_released (send_trigger over prefer_send k w) ≤ count_released w)
  unfolding send_trigger
  send_trigger-stale over prefer_send k w stale = elim (emit-cases over prefer_send k w.scheduler) [
    | inl (s, f) ↦
        rw (f, send_trigger) (emit-stale over prefer_send k w.scheduler s f stale, omega arith)
    | inr (inl f) ↦ rw (f, send_trigger) (stale, omega arith)
    | inr (inr f) ↦ rw (f, send_trigger) (stale, omega arith)
  ]

  begin_running-stale :
      (k : NamespacedName) (w : World)
      → is_current key uid generation w.scheduler ≡ false
      → (is_current key uid generation (begin_running k w).scheduler ≡ false)
        × (count_released (begin_running k w) ≤ count_released w)
  unfolding begin_running
  begin_running-stale k w stale = ground (arith, is_current-begin k key uid generation w.scheduler)

  finish_running-stale :
      (k : NamespacedName) (w : World)
      → is_current key uid generation w.scheduler ≡ false
      → (is_current key uid generation (finish_running k w).scheduler ≡ false)
        × (count_released (finish_running k w) ≤ count_released w)
  unfolding finish_running
  finish_running-stale k w stale = grind (arith, is_current-finish k key uid generation w.scheduler)

  expire_timer-stale :
      (id : ℕ) (w : World)
      → is_current key uid generation w.scheduler ≡ false
      → (is_current key uid generation (expire_timer id w).scheduler ≡ false)
        × (count_released (expire_timer id w) ≤ count_released w)
  unfolding expire_timer is_current expire
  expire_timer-stale id w stale = ground arith

  step-stale :
      (a : Action) (w : World)
      → records a ≡ false
      → is_current key uid generation w.scheduler ≡ false
      → (is_current key uid generation (step a w).scheduler ≡ false)
        × (count_released (step a w) ≤ count_released w)
  unfolding step receive_event is_current
  step-stale (upserts k u g) w other stale =
      ground (arith, is_current-upsert k key uid generation w.scheduler u g)
  step-stale (removes k) w other stale =
      ground (arith, is_current-remove k key uid generation w.scheduler)
  step-stale (begins k) w other stale = begin_running-stale k w stale
  step-stale (finishes k) w other stale = finish_running-stale k w stale
  step-stale (schedules k u g d) w other stale =
      ground (arith, is_current-schedule_after k key uid generation w.scheduler u g d)
  step-stale (expires id) w other stale = expire_timer-stale id w stale
  step-stale (runs id) w other stale = run_timer-count id w stale
  step-stale (emits over prefer_send id) w other stale =
      emit_timer-stale over prefer_send id w stale
  step-stale (sends over prefer_send k) w other stale =
      send_trigger-stale over prefer_send k w stale
  step-stale receives w other stale = (stale, omega arith)

-- From a state where an identity of a key is not current, as after Remove or after an Upsert of
-- another one, and as long as no Upsert records it again: it stays so, and whatever timers are
-- pending or have already expired, no other timer that was set for it goes on to its send. So at
-- most those events of it are still published whose functions had passed their check under the mutex
-- before, and waited for the channel.
pub stale_never_published :
    (key : NamespacedName) (uid : Text) (generation : ℕ) (actions : List Action) (w : World)
    → All (λ a. records key uid generation a ≡ false) actions
    → is_current key uid generation w.scheduler ≡ false
    → (is_current key uid generation (run actions w).scheduler ≡ false)
      × (count_published key uid generation (run actions w).published
            + count_published key uid generation (run actions w).emitting
          ≤ count_published key uid generation w.published
            + count_published key uid generation w.emitting)
unfolding run
stale_never_published key uid generation [] w other stale = (stale, omega arith)
stale_never_published key uid generation (a ∷ rest) w other stale =
    let one = step-stale key uid generation a w other.0 stale in
    let more = stale_never_published key uid generation rest (step a w) other.1 one.0 in
    (more.0, omega (arith, more.1, one.1))

-- The timer that ScheduleAfter sets.
abbrev pub timer_of : NamespacedName → Text → ℕ → ℤ → ℕ → Timer
timer_of key uid generation delay id = record {
  id = id;
  key = key;
  uid = uid;
  generation = generation;
  delay = clamp delay;
}

-- The event that emit sends for a key.
abbrev pub event_of : NamespacedName → NamespacedName
event_of key = record { namespace = []; name = key.name }

-- ScheduleAfter, the expiry of the timer that it sets and the two parts of its function, while the
-- context of Start lives.
abbrev pub refresh_actions : NamespacedName → Text → ℕ → ℤ → ℕ → Bool → List Action
refresh_actions key uid generation delay id prefer_send =
    schedules key uid generation delay ∷ expires id ∷ runs id ∷ emits false prefer_send id ∷ []

-- ScheduleAfter for the current identity sets a timer under a new number. Once it has expired and its
-- function has run, with no other goroutine between them, the timer has published its event, which
-- is the last one in the channel, and the task is as before without a timer, if the channel had room.
pub scheduled_published :
    (key : NamespacedName) (uid : Text) (generation : ℕ) (delay : ℤ) (prefer_send : Bool)
    (w : World)
    → is_current key uid generation w.scheduler ≡ true
    → length w.scheduler.events < w.scheduler.buffer
    → let id = w.scheduler.next in
      let w' = run (refresh_actions key uid generation delay id prefer_send) w in
      (w'.published ≡ timer_of key uid generation delay id ∷ w.published)
      × (w'.scheduler.events ≡ w.scheduler.events ++ (event_of key ∷ []))
      × (task_of key w'.scheduler ≡ with_timer none (task_of key w.scheduler))
unfolding run step expire_timer run_timer emit_timer emit schedule_after expire on_timer find_timer
    is_current
scheduled_published key uid generation delay prefer_send w current room =
    grind (arith, lookup-insert, name_Eq.beq_iff key key)

find_timer-without :
    (id j : ℕ) (ts : List Timer)
    → find_timer j (without id ts) ≡ (if nat_eq id j then none else find_timer j ts)
unfolding find_timer without
find_timer-without id j [] = ground arith
find_timer-without id j (t ∷ ts) = ground (arith, find_timer-without id j ts)

-- ScheduleAfter for the current identity stops the timer that the task knows: of that timer and the
-- new one only the new one is pending, and the task knows it.
pub schedule_after_replaces :
    (key : NamespacedName) (uid : Text) (generation : ℕ) (delay : ℤ) (s : RefreshScheduler)
    (task : RefreshTask) (id : ℕ)
    → task_of key s ≡ some task
    → has_identity uid generation (some task) ≡ true
    → task.timer ≡ some id
    → id < s.next
    → let s' = schedule_after key uid generation delay s in
      (find_timer id s'.pending ≡ none)
      × (find_timer s.next s'.pending ≡ some (timer_of key uid generation delay s.next))
      × (task_of key s' ≡ some (record task { timer = some s.next }))
unfolding schedule_after find_timer
schedule_after_replaces key uid generation delay s task id here same knows below =
    grind (arith, find_timer-without id, lookup-insert, name_Eq.beq_iff key key)

-- A timer that expired before ScheduleAfter replaced it still runs its function, since Stop comes
-- too late for it. Its function then clears the task's pointer to the replacement: the next
-- ScheduleAfter cannot stop the replacement, and two timers of one demand stay pending.
pub late_timer_orphans :
    (late replacement : Timer) (delay : ℤ) (s : RefreshScheduler) (task : RefreshTask)
    → task_of late.key s ≡ some task
    → has_identity late.uid late.generation (some task) ≡ true
    → task.timer ≡ some replacement.id
    → find_timer replacement.id s.pending ≡ some replacement
    → replacement.id < s.next
    → let s' = schedule_after late.key late.uid late.generation delay (on_timer late s).0 in
      (find_timer replacement.id s'.pending ≡ some replacement)
      × (find_timer s.next s'.pending
          ≡ some (timer_of late.key late.uid late.generation delay s.next))
      × (task_of late.key s' ≡ some (record task { timer = some s.next }))
unfolding schedule_after on_timer find_timer
late_timer_orphans late replacement delay s task here same knows there below =
    grind (arith, lookup-insert, name_Eq.beq_iff late.key late.key)

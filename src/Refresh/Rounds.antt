-- ===== src/Refresh/Rounds.antt =====
-- What one round of a refresh worker leaves behind, whatever other goroutines do meanwhile.
use ngd_ngg_scheduling.Base.{
  ℕ, ◌<◌, ◌≡◌, refl, true, Option, none, some, arith, ℤ, pos, ltb_ℤ, lookup-insert,
}
use ngd_ngg_scheduling.Text.{Text, text_Eq}
use ngd_ngg_scheduling.Scheduler.{
  NamespacedName, name_Eq, RefreshTask, RefreshScheduler, clamp, begin, finish, is_current,
  schedule_after,
}
use ngd_ngg_scheduling.Scheduler.Identity.{task_of}
use ngd_ngg_scheduling.Scheduler.Steps.{find_timer}
use ngd_ngg_scheduling.Scheduler.Timers.{timer_of}
use ngd_ngg_scheduling.Refresh.{
  done, Processed, requeue_after, Others, delay_of, conclude, reconcile_refresh,
}

-- The scheduler that the worker asks with IsCurrent, and the one that ScheduleAfter meets.
abbrev pub checked_of : Others → NamespacedName → RefreshTask → RefreshScheduler → RefreshScheduler
checked_of others key task s =
    others.after_finish
      (finish key task.uid task.generation (others.during_process (begin key s).0))

abbrev pub later_of : Others → NamespacedName → RefreshTask → RefreshScheduler → RefreshScheduler
later_of others key task s = others.after_check (checked_of others key task s)

begin_found :
    (key : NamespacedName) (s : RefreshScheduler) (task : RefreshTask)
    → task_of key s ≡ some task
    → (begin key s).1
      ≡ some (record { context = s.next; uid = task.uid; generation = task.generation })
unfolding begin
begin_found key s task h = rw (h, begin)

refresh_found :
    (interval : ℤ) (key : NamespacedName) (others : Others) (outcome : Processed)
    (s : RefreshScheduler) (task : RefreshTask)
    → task_of key s ≡ some task
    → reconcile_refresh interval key others outcome s
      ≡ conclude interval key
          (record { context = s.next; uid = task.uid; generation = task.generation })
          outcome
          (is_current key task.uid task.generation (checked_of others key task s))
          (checked_of others key task s)
          (later_of others key task s)
unfolding reconcile_refresh
refresh_found interval key others outcome s task h =
    rw (begin_found key s task h, reconcile_refresh)

-- The task after ScheduleAfter knows the timer of the number.
abbrev pub Knows : ℕ → Option RefreshTask → Type 0
Knows id none = ⊥
Knows id (some task) = task.timer ≡ some id

schedule_after_sets :
    (key : NamespacedName) (uid : Text) (generation : ℕ) (delay : ℤ) (s : RefreshScheduler)
    → is_current key uid generation s ≡ true
    → let s' = schedule_after key uid generation delay s in
      (find_timer s.next s'.pending ≡ some (timer_of key uid generation delay s.next))
      × Knows s.next (task_of key s')
unfolding schedule_after is_current find_timer
schedule_after_sets key uid generation delay s h =
    grind (arith, lookup-insert, name_Eq.beq_iff key key)

delay_positive : (d interval : ℤ) → ltb_ℤ (pos 0) interval ≡ true → 0 < clamp (delay_of d interval)
delay_positive d interval h = ground arith

-- A round for a key with a task, with any interference of other goroutines: where the task's
-- identity is still current when ScheduleAfter runs and Process gave no error, the round leaves a
-- pending timer with a positive delay for that identity, which the task knows.
pub refresh_rearms :
    (interval d : ℤ) (key : NamespacedName) (others : Others) (s : RefreshScheduler)
    (task : RefreshTask)
    → ltb_ℤ (pos 0) interval ≡ true
    → task_of key s ≡ some task
    → is_current key task.uid task.generation (checked_of others key task s) ≡ true
    → is_current key task.uid task.generation (later_of others key task s) ≡ true
    → let r = reconcile_refresh interval key others (requeue_after d) s in
      let t =
        timer_of key task.uid task.generation
          (delay_of d interval)
          (later_of others key task s).next in
      (r.1 ≡ done)
      × (find_timer t.id r.0.pending ≡ some t)
      × (0 < t.delay)
      × Knows t.id (task_of key r.0)
unfolding conclude
refresh_rearms interval d key others s task positive h checked later =
    let sets =
      schedule_after_sets key task.uid task.generation (delay_of d interval)
        (later_of others key task s) later in
    rw (refresh_found interval key others (requeue_after d) s task h, checked)
      (refl, sets.0, delay_positive d interval positive, sets.1)

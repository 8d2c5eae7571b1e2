-- ===== src/Scheduler/Refinement.antt =====
-- The scheduler as its clients see it: a map from each key to the identity that is current there.
-- The abstract machine has no timers, contexts or events, and only Upsert and Remove change it.
use ngd_ngg_scheduling.Base.{
  ℕ, ◌≡◌, refl, inl, inr, Bool, false, ◌&&◌, List, [], ◌∷◌, arith, if◌then◌else◌, ◌==◌, nat_eq,
  Option-cases,
}
use ngd_ngg_scheduling.Text.{Text, text_Eq}
use ngd_ngg_scheduling.Scheduler.{
  NamespacedName, name_Eq, RefreshScheduler, is_current, expire, sent, emit,
}
use ngd_ngg_scheduling.Scheduler.Identity.{
  is_current-upsert, is_current-remove, is_current-begin, is_current-finish,
  is_current-schedule_after, is_current-on_timer, is_current-tasks, emit-same, emit-cases,
}
use ngd_ngg_scheduling.Scheduler.Steps.{
  World, Action, upserts, removes, begins, finishes, schedules, expires, runs, step, run,
  find_timer, begin_running, finish_running, expire_timer, run_timer, emits, sends, receives,
  emit_timer, send_trigger, receive_event,
}

-- Which identities, UID and generation, are current for which key.
abbrev pub Currency : Type 0
Currency = NamespacedName → Text → ℕ → Bool

abbrev pub currency : RefreshScheduler → Currency
currency s key uid generation = is_current key uid generation s

unfoldable pub abstract_step : Action → Currency → Currency
abstract_step (upserts key uid generation) c j u g =
    if j == key then (uid == u) && nat_eq generation g else c j u g
abstract_step (removes key) c j u g = if j == key then false else c j u g
abstract_step _ c j u g = c j u g

unfoldable pub abstract_run : List Action → Currency → Currency
abstract_run [] c = c
abstract_run (a ∷ rest) c = abstract_run rest (abstract_step a c)

module _ (j : NamespacedName) (u : Text) (g : ℕ) where
  begin_running-current :
      (key : NamespacedName) (w : World)
      → is_current j u g (begin_running key w).scheduler ≡ is_current j u g w.scheduler
  unfolding begin_running
  begin_running-current key w = ground (arith, is_current-begin key j u g w.scheduler)

  finish_running-current :
      (key : NamespacedName) (w : World)
      → is_current j u g (finish_running key w).scheduler ≡ is_current j u g w.scheduler
  unfolding finish_running
  finish_running-current key w = grind (arith, is_current-finish key j u g w.scheduler)

  expire_timer-current :
      (id : ℕ) (w : World)
      → is_current j u g (expire_timer id w).scheduler ≡ is_current j u g w.scheduler
  unfolding expire_timer is_current expire
  expire_timer-current id w = ground arith

  run_timer-current :
      (id : ℕ) (w : World)
      → is_current j u g (run_timer id w).scheduler ≡ is_current j u g w.scheduler
  unfolding run_timer
  run_timer-current id w = elim (Option-cases (find_timer id w.scheduler.fired)) [
    | inl e ↦ rw (e, run_timer) refl
    | inr (t, e) ↦ rw (e, run_timer) (is_current-on_timer j u g t w.scheduler)
  ]

  -- A send of an event leaves the current identities.
  emit-current :
      (over prefer_send : Bool) (key : NamespacedName) (s s' : RefreshScheduler)
      → emit over prefer_send key s ≡ sent s'
      → is_current j u g s' ≡ is_current j u g s
  emit-current over prefer_send key s s' e =
      is_current-tasks j u g s s' (emit-same over prefer_send key s s' e).0

  emit_timer-current :
      (over prefer_send : Bool) (id : ℕ) (w : World)
      → is_current j u g (emit_timer over prefer_send id w).scheduler ≡ is_current j u g w.scheduler
  unfolding emit_timer
  emit_timer-current over prefer_send id w = elim (Option-cases (find_timer id w.emitting)) [
    | inl e ↦ rw (e, emit_timer) refl
    | inr (t, e) ↦ elim (emit-cases over prefer_send t.key w.scheduler) [
      | inl (s, f) ↦ rw (e, f, emit_timer) (emit-current over prefer_send t.key w.scheduler s f)
      | inr (inl f) ↦ rw (e, f, emit_timer) refl
      | inr (inr f) ↦ rw (e, f, emit_timer) refl
    ]
  ]

  send_trigger-current :
      (over prefer_send : Bool) (key : NamespacedName) (w : World)
      → is_current j u g (send_trigger over prefer_send key w).scheduler
        ≡ is_current j u g w.scheduler
  unfolding send_trigger
  send_trigger-current over prefer_send key w = elim (emit-cases over prefer_send key w.scheduler) [
    | inl (s, f) ↦ rw (f, send_trigger) (emit-current over prefer_send key w.scheduler s f)
    | inr (inl f) ↦ rw (f, send_trigger) refl
    | inr (inr f) ↦ rw (f, send_trigger) refl
  ]

  step-current :
      (a : Action) (w : World)
      → is_current j u g (step a w).scheduler ≡ abstract_step a (currency w.scheduler) j u g
  unfolding step abstract_step receive_event
  step-current (upserts key uid generation) w =
      is_current-upsert key j u g w.scheduler uid generation
  step-current (removes key) w = is_current-remove key j u g w.scheduler
  step-current (begins key) w = begin_running-current key w
  step-current (finishes key) w = finish_running-current key w
  step-current (schedules key uid generation delay) w =
      is_current-schedule_after key j u g w.scheduler uid generation delay
  step-current (expires id) w = expire_timer-current id w
  step-current (runs id) w = run_timer-current id w
  step-current (emits over prefer_send id) w = emit_timer-current over prefer_send id w
  step-current (sends over prefer_send key) w = send_trigger-current over prefer_send key w
  step-current receives w = is_current-tasks j u g w.scheduler (receive_event w).scheduler refl

-- One action changes the current identities as the abstract machine does.
step-refines :
    (a : Action) (w : World)
    → currency (step a w).scheduler ≡ abstract_step a (currency w.scheduler)
step-refines a w = λ i. λ j u g. step-current j u g a w i

-- Whatever the event controller, the refresh workers and the timers do, in any order: the
-- identities that IsCurrent then accepts are those of the abstract machine, in which each Upsert
-- replaces the identity of its key, each Remove clears it, and nothing else has an effect.
pub run_refines :
    (actions : List Action) (w : World)
    → currency (run actions w).scheduler ≡ abstract_run actions (currency w.scheduler)
unfolding run abstract_run
run_refines [] w = refl
run_refines (a ∷ rest) w = rw (run_refines rest (step a w), step-refines a w) refl

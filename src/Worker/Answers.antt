-- ===== src/Worker/Answers.antt =====
-- Whose answer a request gets from the Python worker.
use ngd_ngg_scheduling.Base.{
  ℕ, ◌≡◌, refl, ◌⊎◌, inl, inr, Bool, true, false, not, ◌||◌, Option, none, some, nat_eq,
  if◌then◌else◌, ◌==◌, Result, Option-cases, Bool-cases,
}
use mathlib.Core.Path.{subst}
use ngd_ngg_scheduling.Text.{Text, text_Eq, is_empty}
use ngd_ngg_scheduling.Worker.{
  WorkerProcess, PythonWorker, ApiError, WorkerError, format_uint, add_id, Waited, passed,
  request_ended, worker_ended, Answer, line, no_output, pipe_failed, request_cancelled,
  worker_cancelled, Meeting, recycle, is_stopping, Response, give_up, verdict, judge, receive,
  on_answer, exchange, send, start_process, restart, revive, calculate,
}

-- A process that the next request may use has no response that nobody has read.
abbrev pub is_clean : Option WorkerProcess → Bool
is_clean none = true
is_clean (some p) = p.stopping || nat_eq p.unread 0

recycle_clean :
    (reaped : Bool) (now : ℕ) (w : PythonWorker) → is_clean (recycle reaped now w).0.process ≡ true
unfolding recycle
recycle_clean reaped now w = elim (Option-cases w.process) [
  | inl e ↦ rw (e, recycle) (rw e refl)
  | inr (p, e) ↦ elim (Bool-cases reaped) [
    | inl r ↦ rw (e, r, recycle) refl
    | inr r ↦ rw (e, r, recycle) refl
  ]
]

pub Waited-cases : (a : Waited) → (a ≡ passed) ⊎ ((a ≡ request_ended) ⊎ (a ≡ worker_ended))
Waited-cases passed = inl refl
Waited-cases request_ended = inr (inl refl)
Waited-cases worker_ended = inr (inr refl)

-- What holds of both branches holds of a conditional.
pub either : {A : Type 0} (P : A → Type 0) (b : Bool) (x y : A) → P x → P y → P (if b then x else y)
either P true x y h k = h
either P false x y h k = k

module _ {R : Type 0} (decode : Text → Option (Response R)) (m : Meeting) where
  abbrev IsCleanOutcome : PythonWorker × Result ApiError R → Type 0
  IsCleanOutcome o = is_clean o.0.process ≡ true

  give_up_clean :
      (why : ApiError) (w : PythonWorker) → is_clean (give_up decode m why w).0.process ≡ true
  unfolding give_up
  give_up_clean why w = recycle_clean m.reaped m.now w

  verdict_clean :
      (result : Option R) (error : Option WorkerError) (w : PythonWorker)
      → is_clean w.process ≡ true
      → is_clean (verdict decode m result error w).0.process ≡ true
  verdict_clean (some v) none w h = h
  verdict_clean none (some x) w h = h
  verdict_clean none none w h = give_up_clean _ w
  verdict_clean (some v) (some x) w h = give_up_clean _ w

  judge_clean :
      (id : Text) (r : Response R) (w : PythonWorker)
      → is_clean w.process ≡ true
      → is_clean (judge decode m id r w).0.process ≡ true
  unfolding judge
  judge_clean id r w h = elim (Bool-cases (r.id == id)) [
    | inl e ↦ rw e (verdict_clean r.result r.error w h)
    | inr e ↦ rw e (give_up_clean _ w)
  ]

  receive_clean :
      (id raw : Text) (w : PythonWorker)
      → is_clean w.process ≡ true
      → is_clean (receive decode m id raw w).0.process ≡ true
  unfolding receive
  receive_clean id raw w h = elim (Bool-cases m.response_logged) [
    | inr unlogged ↦ rw unlogged h
    | inl logged ↦ elim (Option-cases (decode raw)) [
      | inl e ↦ rw (logged, e, receive) (give_up_clean _ w)
      | inr (r, e) ↦ rw (logged, e, receive) (judge_clean id r w h)
    ]
  ]

  on_answer_clean :
      (id : Text) (p : WorkerProcess) (w : PythonWorker) (a : Answer)
      → is_clean (some p) ≡ true
      → is_clean (on_answer decode m id p w a).0.process ≡ true
  unfolding on_answer
  on_answer_clean id p w (line raw) h =
      either IsCleanOutcome (is_empty raw) _ _ (give_up_clean _ (record w { process = some p }))
        (receive_clean id raw _ h)
  on_answer_clean id p w no_output h = give_up_clean _ _
  on_answer_clean id p w pipe_failed h = give_up_clean _ _
  on_answer_clean id p w request_cancelled h = give_up_clean _ _
  on_answer_clean id p w worker_cancelled h = give_up_clean _ _

  exchange_clean :
      (id : Text) (p : WorkerProcess) (w : PythonWorker)
      → is_clean (some p) ≡ true
      → is_clean (exchange decode m id p w).0.process ≡ true
  unfolding exchange
  exchange_clean id p w h = on_answer_clean id p w m.answer h

  send_clean :
      (p : WorkerProcess) (w : PythonWorker)
      → w.process ≡ some p
      → is_clean (some p) ≡ true
      → is_clean (send decode m p w).0.process ≡ true
  unfolding send
  send_clean p w e h = elim (Bool-cases (not m.encodes || not m.request_logged)) [
    | inl early ↦ rw (early, e) h
    | inr on ↦ rw on (exchange_clean (format_uint (add_id w.next_id)) p _ h)
  ]

  start_process_clean :
      (w : PythonWorker)
      → is_clean w.process ≡ true
      → is_clean (start_process decode m w).0.process ≡ true
  unfolding start_process
  start_process_clean w h = either IsCleanOutcome m.starts _ _ (send_clean _ _ refl refl) h

  restart_clean :
      (w : PythonWorker)
      → is_clean w.process ≡ true
      → is_clean (restart decode m w).0.process ≡ true
  unfolding restart
  restart_clean w h = elim (Option-cases w.process) [
    | inr (p, e) ↦ rw (e, restart) (send_clean p w e (subst (λ o. is_clean o ≡ true) e h))
    | inl e ↦ elim (Waited-cases m.backoff) [
      | inl b ↦ rw (e, b, restart) (start_process_clean w h)
      | inr (inl b) ↦ rw (e, b, restart) h
      | inr (inr b) ↦ rw (e, b, restart) h
    ]
  ]

  revive_clean :
      (w : PythonWorker) → is_clean w.process ≡ true → is_clean (revive decode m w).0.process ≡ true
  unfolding revive
  revive_clean w h =
      let recycled = recycle_clean m.old_reaped m.now w in
      either IsCleanOutcome (is_stopping w.process) _ _
        (either IsCleanOutcome (recycle m.old_reaped m.now w).1 _ _
          (restart_clean (recycle m.old_reaped m.now w).0 recycled) recycled)
        (restart_clean w h)

  -- However a calculation ends, with a result, with an error of the worker or of its process, or
  -- cancelled while the response is on its way: a process that stays in use has no response that
  -- was not read. So no later request can read the answer of an earlier one.
  pub calculate_clean :
      (w : PythonWorker)
      → is_clean w.process ≡ true
      → is_clean (calculate decode m w).0.process ≡ true
  unfolding calculate
  calculate_clean w h = elim (Waited-cases m.gate) [
    | inr (inl g) ↦ rw (g, calculate) h
    | inr (inr g) ↦ rw (g, calculate) h
    | inl g ↦
        rw (g, calculate)
          (either IsCleanOutcome m.request_over _ _ h
            (either IsCleanOutcome m.worker_over _ _ h (revive_clean w h)))
  ]

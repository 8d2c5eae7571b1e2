-- ===== src/Worker/Results.antt =====
-- Which line of the Python worker a result was read from.
use ngd_ngg_scheduling.Base.{
  ℕ, ◌≡◌, refl, inl, inr, Bool, not, ◌||◌, Option, none, some, ◌==◌, Result, ok, err, arith,
  Option-cases, Bool-cases,
}
use ngd_ngg_scheduling.Text.{Text, text_Eq, is_empty}
use ngd_ngg_scheduling.Worker.{
  internal_worker_error, WorkerProcess, PythonWorker, ApiError, WorkerError, format_uint, add_id,
  Answer, line, no_output, pipe_failed, request_cancelled, worker_cancelled, Meeting, recycle,
  is_stopping, Response, asked, give_up, verdict, judge, receive, on_answer, exchange, send,
  start_process, restart, revive, calculate,
}
use ngd_ngg_scheduling.Worker.Answers.{either, Waited-cases}
use mathlib.Core.Path.{subst}

recycle_next_id :
    (reaped : Bool) (now : ℕ) (w : PythonWorker) → (recycle reaped now w).0.next_id ≡ w.next_id
unfolding recycle
recycle_next_id reaped now w = elim (Option-cases w.process) [
  | inl e ↦ rw (e, recycle) refl
  | inr (p, e) ↦ elim (Bool-cases reaped) [
    | inl r ↦ rw (e, r, recycle) refl
    | inr r ↦ rw (e, r, recycle) refl
  ]
]

module _ {R : Type 0} (decode : Text → Option (Response R)) (m : Meeting) where
  -- The result is that of the line which the exchange has read, and the line carries the number of
  -- the request and no error.
  abbrev pub IsAnswer : ℕ → R → Type 0
  IsAnswer number v =
      (raw : Text) × ((r : Response R) × ((m.answer ≡ line raw)
          × ((decode raw ≡ some r)
              × ((r.id ≡ format_uint number) × ((r.result ≡ some v) × (r.error ≡ none))))))

  abbrev HasAnswer : ℕ → PythonWorker × Result ApiError R → Type 0
  HasAnswer number o = (v : R) → o.1 ≡ ok v → IsAnswer number v

  failed_answer : (number : ℕ) (w : PythonWorker) (why : ApiError) → HasAnswer number (w, err why)
  failed_answer number w why v e = cc

  given_up :
      (number : ℕ) (why : ApiError) (w : PythonWorker) → HasAnswer number (give_up decode m why w)
  unfolding give_up
  given_up number why w v e = cc

  verdict_lem :
      (result : Option R) (error : Option WorkerError) (w : PythonWorker) (v : R)
      → (verdict decode m result error w).1 ≡ ok v
      → (result ≡ some v) × (error ≡ none)
  unfolding give_up
  verdict_lem (some u) none w v e = (ground arith, refl)
  verdict_lem none (some x) w v e = cc
  verdict_lem none none w v e = cc
  verdict_lem (some u) (some x) w v e = cc

  receive_answer :
      (number : ℕ) (raw : Text) (w : PythonWorker)
      → m.answer ≡ line raw
      → HasAnswer number (receive decode m (format_uint number) raw w)
  unfolding receive judge give_up
  receive_answer number raw w read v e = elim (Bool-cases m.response_logged) [
    | inr unlogged ↦ absurd (ground arith)
    | inl logged ↦ elim (Option-cases (decode raw)) [
      | inl bad ↦ absurd (ground arith)
      | inr (r, good) ↦ elim (Bool-cases (r.id == format_uint number)) [
        | inr other ↦ absurd (ground arith)
        | inl same ↦
            let (got, clean) = verdict_lem r.result r.error w v (ground arith) in
            (
              raw,
              (
                r,
                (read, (good, ((text_Eq.beq_iff r.id (format_uint number)).0 same, (got, clean)))),
              ),
            )
      ]
    ]
  ]

  on_answer_lem :
      (number : ℕ) (p : WorkerProcess) (w : PythonWorker) (a : Answer)
      → m.answer ≡ a
      → HasAnswer number (on_answer decode m (format_uint number) p w a)
  unfolding on_answer
  on_answer_lem number p w (line raw) e =
      let told = record w { process = some p } in
      either (HasAnswer number) (is_empty raw) (give_up decode m internal_worker_error told)
        (receive decode m (format_uint number) raw told)
        (given_up number internal_worker_error told) (receive_answer number raw told e)
  on_answer_lem number p w no_output e = given_up number _ (asked p w)
  on_answer_lem number p w pipe_failed e = given_up number _ (asked p w)
  on_answer_lem number p w request_cancelled e = given_up number _ (asked p w)
  on_answer_lem number p w worker_cancelled e = given_up number _ (asked p w)

  send_answer :
      (p : WorkerProcess) (w : PythonWorker) → HasAnswer (add_id w.next_id) (send decode m p w)
  unfolding send exchange
  send_answer p w =
      let n = add_id w.next_id in
      either (HasAnswer n) (not m.encodes || not m.request_logged) _ _ (failed_answer n w _)
        (on_answer_lem n p _ m.answer refl)

  start_process_answer :
      (w : PythonWorker) → HasAnswer (add_id w.next_id) (start_process decode m w)
  unfolding start_process
  start_process_answer w =
      let n = add_id w.next_id in
      either (HasAnswer n) m.starts _ _ (send_answer _ _) (failed_answer n w _)

  restart_answer : (w : PythonWorker) → HasAnswer (add_id w.next_id) (restart decode m w)
  unfolding restart
  restart_answer w = elim (Option-cases w.process) [
    | inr (p, e) ↦ rw (e, restart) (send_answer p w)
    | inl e ↦ elim (Waited-cases m.backoff) [
      | inl b ↦ rw (e, b, restart) (start_process_answer w)
      | inr (inl b) ↦ rw (e, b, restart) (failed_answer (add_id w.next_id) w _)
      | inr (inr b) ↦ rw (e, b, restart) (failed_answer (add_id w.next_id) w _)
    ]
  ]

  revive_answer : (w : PythonWorker) → HasAnswer (add_id w.next_id) (revive decode m w)
  unfolding revive
  revive_answer w =
      let n = add_id w.next_id in
      let old = recycle m.old_reaped m.now w in
      either (HasAnswer n) (is_stopping w.process) _ _
        (either (HasAnswer n) old.1 _ _
          (subst (λ i. HasAnswer (add_id i) (restart decode m old.0))
            (recycle_next_id m.old_reaped m.now w) (restart_answer old.0))
          (failed_answer n w _))
        (restart_answer w)

  -- A result is that of the one line that was read in this exchange: the line carries the number of
  -- this request, the next one of the worker, and a result without an error.
  pub calculate-IsAnswer :
      (w : PythonWorker) (v : R) → (calculate decode m w).1 ≡ ok v → IsAnswer (add_id w.next_id) v
  unfolding calculate
  calculate-IsAnswer w = elim (Waited-cases m.gate) [
    | inr (inl g) ↦ rw (g, calculate) (failed_answer (add_id w.next_id) w _)
    | inr (inr g) ↦ rw (g, calculate) (failed_answer (add_id w.next_id) w _)
    | inl g ↦
        let n = add_id w.next_id in
        rw (g, calculate)
          (either (HasAnswer n) m.request_over _ _ (failed_answer n w _)
            (either (HasAnswer n) m.worker_over _ _ (failed_answer n w _) (revive_answer w)))
  ]

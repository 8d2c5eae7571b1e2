-- ===== src/Worker.antt =====
-- algorithm_server/go/algorithm/worker.go: the Python process that calculates, one request at a
-- time, and its protocol of one JSON line for each request and each response.
-- Each call of calculate that has passed the gate is one function of the worker; what it meets on
-- its way (the contexts, the process, the files) is a record of answers. `unread` of a process counts
-- the requests that were written to it and whose response was not read: no field of the program. The
-- JSON of a response is decoded by a parameter, and the texts of error messages are left out.
pub mod Answers
pub mod Results
use ngd_ngg_scheduling.Base.{
  ℕ, zero, suc, ◌+◌, ◌/◌, ◌%◌, ◌≡◌, Bool, true, false, not, ◌&&◌, ◌||◌, List, [], ◌∷◌, Option, none,
  some, ltb, nat_eq, if◌then◌else◌, ◌==◌, Result, ok, err, is_some,
}
use ngd_ngg_scheduling.Text.{Text, text_Eq, lit, is_empty}

-- workerProcess, with a number for each process that was started.
pub record WorkerProcess : Type 0 where
  pub generation : ℕ
  pub stopping : Bool
  pub unread : ℕ

-- pythonWorker; times are milliseconds.
pub record PythonWorker : Type 0 where
  pub process : Option WorkerProcess
  pub next_start : ℕ
  pub next_id : ℕ
  pub started : ℕ

abbrev pub worker_restart_backoff : ℕ
worker_restart_backoff = 100

-- apiError
pub record ApiError : Type 0 where
  pub request_id : Text
  pub code : Text
  pub retryable : Bool
  pub status : ℕ

-- workerTimeout
abbrev pub worker_timeout : ApiError
worker_timeout = record {
  request_id = [];
  code = lit "ALGORITHM_TIMEOUT";
  retryable = true;
  status = 504;
}

-- internalWorkerError
abbrev pub internal_worker_error : ApiError
internal_worker_error = record {
  request_id = [];
  code = lit "ALGORITHM_WORKER_UNAVAILABLE";
  retryable = true;
  status = 503;
}

-- workerError
pub record WorkerError : Type 0 where
  pub request_id : Text
  pub code : Text
  pub retryable : Bool
  pub status : ℕ

-- The error of a worker as that of the server.
unfoldable pub worker_failed : WorkerError → ApiError
worker_failed e = record {
  request_id = e.request_id;
  code = e.code;
  retryable = e.retryable;
  status = if nat_eq e.status 0 then 500 else e.status;
}

-- The last digits of a number before a text.
unfoldable pub digits : ℕ → ℕ → Text → Text
digits zero n s = s
digits (suc fuel) n s =
    let last = (b'0' + n % 10) ∷ s in
    let more = digits fuel (n / 10) last in if ltb n 10 then last else more

-- strconv.FormatUint of a uint64, which has at most 20 digits.
unfoldable pub format_uint : ℕ → Text
format_uint n = digits 20 n []

-- nextID.Add(1) of a uint64
unfoldable pub add_id : ℕ → ℕ
add_id n = (n + 1) % 18446744073709551616

-- What a select on the two contexts comes to: its third case, or the end of one of them.
pub data Waited : Type 0 where
  passed request_ended worker_ended : Waited

-- What the exchange comes to: a line, the end of the output, an error of the pipes, or the end of a
-- context.
pub data Answer : Type 0 where
  line : Text → Answer
  no_output pipe_failed request_cancelled worker_cancelled : Answer

-- What one call of calculate meets: whether a process that is to stop is reaped in time, whether a
-- new one starts, whether the request is encoded and the evidence of the lines is written, and the
-- time.
pub record Meeting : Type 0 where
  pub gate : Waited
  pub request_over : Bool
  pub worker_over : Bool
  pub old_reaped : Bool
  pub backoff : Waited
  pub starts : Bool
  pub encodes : Bool
  pub request_logged : Bool
  pub answer : Answer
  pub response_logged : Bool
  pub reaped : Bool
  pub now : ℕ

-- recycle: the process is gone, or it stays and is marked; and whether it is gone.
unfoldable pub recycle : Bool → ℕ → PythonWorker → PythonWorker × Bool
recycle reaped now w = elim w.process [
  | none ↦ (w, true)
  | some p ↦
      if reaped
      then (record w { process = none; next_start = now + worker_restart_backoff }, true)
      else (record w { process = some (record p { stopping = true }) }, false)
]

abbrev pub is_stopping : Option WorkerProcess → Bool
is_stopping none = false
is_stopping (some p) = p.stopping

-- The process has the request.
abbrev pub asked : WorkerProcess → PythonWorker → PythonWorker
asked p w = record w { process = some (record p { unread = suc p.unread }) }

-- The response that a line holds, with either a result or an error.
pub record Response (R : Type 0) : Type 0 where
  pub id : Text
  pub result : Option R
  pub error : Option WorkerError

module _ {R : Type 0} (decode : Text → Option (Response R)) where
  abbrev pub Outcome : Type 0
  Outcome = PythonWorker × Result ApiError R

  -- `_ = w.recycle()` and the error.
  unfoldable pub give_up : Meeting → ApiError → PythonWorker → Outcome
  give_up m why w = ((recycle m.reaped m.now w).0, err why)

  abbrev pub verdict : Meeting → Option R → Option WorkerError → PythonWorker → Outcome
  verdict m (some result) none w = (w, ok result)
  verdict m none (some error) w = (w, err (worker_failed error))
  verdict m _ _ w = give_up m internal_worker_error w

  -- The tests of a response: its number, and that it has exactly one of result and error.
  unfoldable pub judge : Meeting → Text → Response R → PythonWorker → Outcome
  judge m id r w =
      if not (r.id == id) then give_up m internal_worker_error w else verdict m r.result r.error w

  -- What is done with a line.
  unfoldable pub receive : Meeting → Text → Text → PythonWorker → Outcome
  receive m id raw w =
      if not m.response_logged
      then (w, err internal_worker_error)
      else elim (decode raw) [ none ↦ give_up m internal_worker_error w | some r ↦ judge m id r w ]

  -- What is done with the answer of a process. The copy of an empty line is nil, as no line is.
  unfoldable pub on_answer : Meeting → Text → WorkerProcess → PythonWorker → Answer → Outcome
  on_answer m id p w (line raw) =
      let told = record w { process = some p } in
      if is_empty raw then give_up m internal_worker_error told else receive m id raw told
  on_answer m id p w no_output = give_up m internal_worker_error (asked p w)
  on_answer m id p w pipe_failed = give_up m internal_worker_error (asked p w)
  on_answer m id p w request_cancelled = give_up m worker_timeout (asked p w)
  on_answer m id p w worker_cancelled = give_up m internal_worker_error (asked p w)

  -- The write, the scan and the select on their end, with the process that has the request.
  unfoldable pub exchange : Meeting → Text → WorkerProcess → PythonWorker → Outcome
  exchange m id p w = on_answer m id p w m.answer

  -- From the number of the request on.
  unfoldable pub send : Meeting → WorkerProcess → PythonWorker → Outcome
  send m p w =
      let numbered = record w { next_id = add_id w.next_id } in
      if not m.encodes || not m.request_logged
      then (numbered, err internal_worker_error)
      else exchange m (format_uint (add_id w.next_id)) p numbered

  unfoldable pub start_process : Meeting → PythonWorker → Outcome
  start_process m w =
      let p : WorkerProcess = record { generation = w.started; stopping = false; unread = 0 } in
      if m.starts
      then send m p (record w { process = some p; started = suc w.started })
      else (record w { next_start = m.now + worker_restart_backoff }, err internal_worker_error)

  -- A worker without a process waits and starts one.
  unfoldable pub restart : Meeting → PythonWorker → Outcome
  restart m w = elim w.process [
    | some p ↦ send m p w
    | none ↦ elim m.backoff [
      | request_ended ↦ (w, err worker_timeout)
      | worker_ended ↦ (w, err internal_worker_error)
      | passed ↦ start_process m w
    ]
  ]

  -- A process that is to stop is recycled first.
  unfoldable pub revive : Meeting → PythonWorker → Outcome
  revive m w =
      let old = recycle m.old_reaped m.now w in
      if is_stopping w.process
      then (if old.1 then restart m old.0 else (old.0, err internal_worker_error))
      else restart m w

  -- calculate
  unfoldable pub calculate : Meeting → PythonWorker → Outcome
  calculate m w = elim m.gate [
    | request_ended ↦ (w, err worker_timeout)
    | worker_ended ↦ (w, err internal_worker_error)
    | passed ↦
        if m.request_over
        then (w, err worker_timeout)
        else if m.worker_over
        then (w, err internal_worker_error)
        else revive m w
  ]

-- close for the first time: whether the gate was got, and the process reaped, in time; `false` is an
-- error.
unfoldable pub close : Bool → Bool → ℕ → PythonWorker → PythonWorker × Bool
close got_gate reaped now w = if got_gate then recycle reaped now w else (w, false)

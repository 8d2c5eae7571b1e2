-- ===== src/Tests/Workers.antt =====
-- Requests to the Python worker: one that is answered, and one that is cancelled.
use ngd_ngg_scheduling.Base.{ℕ, ◌≡◌, refl, true, false, Option, none, some, err, list_eq}
use ngd_ngg_scheduling.Text.{Text, lit}
use ngd_ngg_scheduling.Worker.{
  PythonWorker, digits, format_uint, add_id, passed, line, request_cancelled, Meeting, recycle,
  Response, worker_timeout, give_up, judge, receive, on_answer, exchange, send, start_process,
  restart, revive, calculate,
}
use ngd_ngg_scheduling.Worker.Answers.{is_clean, calculate_clean}
use ngd_ngg_scheduling.Worker.Results.{IsAnswer, calculate-IsAnswer}

program : Unit {0}
unfolding list_eq digits format_uint add_id recycle give_up judge receive on_answer exchange send
    start_process restart revive calculate
program = tt

-- A line is the number of its request, and the result is 7.
abbrev decode : Text → Option (Response ℕ)
decode raw = some (record { id = raw; result = some 7; error = none })

abbrev idle : PythonWorker
idle = record { process = none; next_start = 0; next_id = 41; started = 3 }

abbrev answered : Meeting
answered = record {
  gate = passed;
  request_over = false;
  worker_over = false;
  old_reaped = true;
  backoff = passed;
  starts = true;
  encodes = true;
  request_logged = true;
  answer = line (lit "42");
  response_logged = true;
  reaped = true;
  now = 1000;
}

-- The request ends while the response is on its way, and the process is not reaped in time.
abbrev cancelled : Meeting
cancelled = record answered { answer = request_cancelled; reaped = false }

-- A line with another number is no answer.
other_line :
    ((calculate decode (record answered { answer = line (lit "41") }) idle).0.process ≡ none)
    × ((calculate decode cancelled idle).1 ≡ err worker_timeout)
unfolding program
other_line = (refl, refl)

calculate-IsAnswer_example : IsAnswer decode answered 42 7
unfolding program
calculate-IsAnswer_example = calculate-IsAnswer decode answered idle 7 refl

calculate_clean_example : is_clean (calculate decode cancelled idle).0.process ≡ true
calculate_clean_example = calculate_clean decode cancelled idle refl

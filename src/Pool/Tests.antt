-- ===== src/Pool/Tests.antt =====
-- The theorems on the pool at a concrete run.
use voxtral_server.Pool.{
  InferenceJob, waiting, stopped, success, Call, Inference, returned, with_deadline, submit, close,
  call_error, call_success, take_job, check_deadline, finish_inference, deliver, release,
  worker_step,
}
use voxtral_server.Pool.System.{System, submitted, Reach, here, next, submits, works}
use voxtral_server.Pool.Invariant.{accepted_jobs}
use voxtral_server.Pool.Invariant.Defs.{guarded, held, job_of}
use voxtral_server.Pool.Liveness.{work_left, accepted_answered}
use voxtral_server.Pool.Fifo.{FifoRun, BackedReach, begins, goes, fifo}
use voxtral_server.Pool.Fifo.Refines.{fifo-refines}
use voxtral_server.Pool.Drain.{run_worker, shutdown, steps_left, shutdown_answered}
use voxtral_server.Base.{ℕ, ◌≤◌, ◌≡◌, refl, true, false, List, [], ◌∷◌, ◌++◌, map, arith, length}

-- A pool of one place with a timeout of one second.
abbrev start : System ℕ ℕ
start = record {
  pool = record {
    max_queue_depth = 1;
    request_timeout_seconds = 1;
    queue = [];
    accepting = true;
    active = 0;
    expired = 0;
    worker = waiting;
    calls = [];
  };
  accepted = [];
}

abbrev job : InferenceJob ℕ
job = record { request = 7; deadline = 0; on_success = true; on_error = true }

abbrev queued : System ℕ ℕ
queued = submitted start job 5

abbrev work : System ℕ ℕ → System ℕ ℕ
work s = record s { pool = worker_step s.pool 6 (returned 9) }

abbrev answered : System ℕ ℕ
answered = work (work (work (work queued)))

abbrev ended : System ℕ ℕ
ended = work (work (record answered { pool = close answered.pool }))

to_queued : Reach start queued
to_queued = next here (submits job 5 (refl, refl))

to_answer : Reach start answered
to_answer =
    next
      (next (next (next to_queued (works 6 (returned 9))) (works 6 (returned 9)))
        (works 6 (returned 9)))
      (works 6 (returned 9))

runs : Unit {0}
unfolding submit with_deadline close call_error call_success take_job check_deadline
    finish_inference deliver release worker_step
runs = tt

-- The job is answered with the result, in time, and then the worker stops.
one_answer : map (λ (c : Call ℕ ℕ). c.answer) ended.pool.calls ≡ success 9 ∷ []
unfolding runs
one_answer = refl

ends : ended.pool.worker ≡ stopped
unfolding runs
ends = refl

-- A second job finds the queue full.
queue_full : (submit queued.pool job 5).1 ≡ false
unfolding runs
queue_full = refl

-- The job is still counted when its callback is called.
still_counted : answered.pool.active ≡ 1
unfolding runs
still_counted = refl

accepted_jobs_example :
    (length answered.pool.queue ≤ answered.pool.max_queue_depth)
    × (answered.pool.active ≡ guarded answered.pool.worker)
    × (map job_of answered.pool.calls ++ (held answered.pool.worker ++ answered.pool.queue)
        ≡ answered.accepted)
accepted_jobs_example = accepted_jobs (refl, refl, refl, refl, refl, refl) to_answer

six_steps : steps_left queued.pool ≤ 6
unfolding runs
six_steps = omega arith

abbrev five_inputs : List (ℕ × Inference ℕ)
five_inputs =
    (6, returned 9) ∷ (6, returned 9) ∷ (6, returned 9) ∷ (6, returned 9) ∷ (6, returned 9) ∷ []

abbrev inputs : List (ℕ × Inference ℕ)
inputs = (6, returned 9) ∷ five_inputs

shutdown_answered_example :
    ((shutdown queued.pool inputs).worker ≡ stopped)
    × (map job_of (shutdown queued.pool inputs).calls ≡ queued.accepted)
shutdown_answered_example =
    shutdown_answered inputs (refl, refl, refl, refl, refl, refl) to_queued six_steps

abbrev shut : System ℕ ℕ
shut = record queued { pool = close queued.pool }

is_shut : shut.pool.accepting ≡ false
unfolding close
is_shut = refl

five_steps : work_left queued.pool ≤ 5
unfolding runs
five_steps = omega arith

accepted_answered_example : map job_of (run_worker queued.pool five_inputs).calls ≡ queued.accepted
accepted_answered_example =
    accepted_answered five_inputs (refl, refl, refl, refl, refl, refl) to_queued five_steps

-- A backend that makes 9 of everything.
abbrev Nine : ℕ → ℕ → Type 0
Nine request result = result ≡ 9

-- The rounds up to the answer, each of which meets a 9.
to_answered : BackedReach Nine start answered
to_answered =
    goes
      (goes
        (goes
          (goes (goes begins (submits job 5 (refl, refl)) tt) (works 6 (returned 9))
            λ j r w e. nine r e)
          (works 6 (returned 9)) λ j r w e. nine r e)
        (works 6 (returned 9)) λ j r w e. nine r e)
      (works 6 (returned 9)) λ j r w e. nine r e
  where
    nine : (r : ℕ) → returned 9 ≡ returned r → r ≡ 9
    nine r e = cc e

fifo-refines_example : FifoRun Nine 1 (fifo start.pool) (fifo answered.pool)
fifo-refines_example = fifo-refines Nine (refl, refl, refl, refl, refl, refl) to_answered

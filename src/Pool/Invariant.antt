-- ===== src/Pool/Invariant.antt =====
-- What holds of every pool that its clients can reach.
pub mod Defs
pub mod Clients
pub mod Steps
use mathlib.Core.List.{append-nil}
use voxtral_server.Pool.{
  InferenceJob, Worker, waiting, taken, running, synthesized, leaving, stopped, Call, InferencePool,
  Inference, submit, close, worker_step, take_job, check_deadline, finish_inference, deliver,
  release,
}
use voxtral_server.Pool.System.{System, IsNew, Step, submits, closes, works, Reach, here, next}
use Defs.{held, guarded, Ended, IsTimely, job_of, Inv}
use Clients.{IsNew-Inv, submitted-Inv}
use Steps.{take_job-Inv, check_deadline-Inv, finish_inference-Inv, deliver-Inv, release-Inv}
use voxtral_server.Base.{
  ℕ, ◌≤◌, ◌≡◌, refl, sym, ◌∙◌, Bool, false, List, ◌++◌, map, arith, length, All,
}

module _ {Req Res : Type 0} where
  -- Which part of the loop a step is.
  unfoldable pub part :
      InferencePool Req Res → ℕ → Inference Res → Worker Req Res → InferencePool Req Res
  part p now inference waiting = take_job p
  part p now inference (taken job) = check_deadline p job now
  part p now inference (running job) = finish_inference p job inference now
  part p now inference (synthesized job result) = deliver p job result now
  part p now inference leaving = release p
  part p now inference stopped = p

  pub worker_step-part :
      (p : InferencePool Req Res) (now : ℕ) (inference : Inference Res) (w : Worker Req Res)
      → p.worker ≡ w
      → worker_step p now inference ≡ part p now inference w
  unfolding worker_step part
  worker_step-part p now inference waiting e = ground arith
  worker_step-part p now inference (taken job) e = ground arith
  worker_step-part p now inference (running job) e = ground arith
  worker_step-part p now inference (synthesized job result) e = ground arith
  worker_step-part p now inference leaving e = ground arith
  worker_step-part p now inference stopped e = ground arith

  part-Inv :
      (s : System Req Res) (now : ℕ) (inference : Inference Res) (w : Worker Req Res)
      → s.pool.worker ≡ w
      → Inv s
      → Inv (record s { pool = part s.pool now inference w })
  unfolding part
  part-Inv s now inference waiting e v = take_job-Inv s s.pool.queue refl e v
  part-Inv s now inference (taken job) e v = check_deadline-Inv s job now e v
  part-Inv s now inference (running job) e v = finish_inference-Inv s job inference now e v
  part-Inv s now inference (synthesized job result) e v = deliver-Inv s job result now e v
  part-Inv s now inference leaving e v = release-Inv s e v
  part-Inv s now inference stopped e v = v

  closed-Inv : (s : System Req Res) → Inv s → Inv (record s { pool = close s.pool })
  unfolding close
  closed-Inv s v = record {
    bounded = v.bounded;
    counted = v.counted;
    ended = closed-Ended s.pool.worker s.pool.accepting s.pool.queue v.ended;
    timely = v.timely;
    callbacks = v.callbacks;
    answered = v.answered;
  }
    where
      closed-Ended :
          (w : Worker Req Res) (a : Bool) (q : List (InferenceJob Req))
          → Ended w a q
          → Ended w false q
      closed-Ended stopped a q h = (refl, h.1)
      closed-Ended waiting a q h = tt
      closed-Ended (taken job) a q h = tt
      closed-Ended (running job) a q h = tt
      closed-Ended (synthesized job r) a q h = tt
      closed-Ended leaving a q h = tt

  -- Every critical section of a client and every step of the worker keeps the invariant.
  pub Step-Inv : {s t : System Req Res} → Step s t → Inv s → Inv t
  Step-Inv {s} (submits job now a) v = submitted-Inv s job now a v
  Step-Inv {s} closes v = closed-Inv s v
  Step-Inv {s} (works now inference) v =
      rw (worker_step-part s.pool now inference s.pool.worker refl)
        (part-Inv s now inference s.pool.worker refl v)

  pub Reach-Inv : {s t : System Req Res} → IsNew s → Reach s t → Inv t
  Reach-Inv {s} h here = IsNew-Inv s h
  Reach-Inv h (next r st) = Step-Inv st (Reach-Inv h r)

  -- In every state that a pool reaches from its constructor's, under any interleaving of
  -- clients that set both callbacks with the worker, the queue is within its bound, the
  -- counter of active jobs is 1 from the synthesis of a job up to the end of its guard,
  -- behind the callback, and 0 otherwise, and the accepted jobs are, in order, those that
  -- were answered, the one in the worker's hands and those in the queue: none is lost,
  -- answered twice or overtaken.
  pub accepted_jobs :
      {s t : System Req Res}
      → IsNew s
      → Reach s t
      → (length t.pool.queue ≤ t.pool.max_queue_depth)
        × (t.pool.active ≡ guarded t.pool.worker)
        × (map job_of t.pool.calls ++ (held t.pool.worker ++ t.pool.queue) ≡ t.accepted)
  accepted_jobs h r = let v = Reach-Inv h r in (v.bounded, v.counted, v.answered)

  -- In every state that a pool reaches from its constructor's, with clients that set both
  -- callbacks, in which the worker has stopped, the pool is closed, every accepted job has
  -- been answered by one call of a callback, in the order of acceptance, and each success was
  -- delivered before its job's deadline.
  pub stopped_answered :
      {s t : System Req Res}
      → IsNew s
      → Reach s t
      → t.pool.worker ≡ stopped
      → (t.pool.accepting ≡ false)
        × (map job_of t.pool.calls ≡ t.accepted)
        × All IsTimely t.pool.calls
  stopped_answered {t} h r e =
      let v = Reach-Inv h r in
      let (shut, empty) = rw e at v.ended in
      (shut, sym (append-nil (map job_of t.pool.calls)) ∙ (rw (e, empty) at v.answered), v.timely)

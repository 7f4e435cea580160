-- ===== src/Pool.antt =====
-- `InferencePool` (include/tts/inference_pool.hpp, src/tts/inference_pool.cpp): a bounded queue and
-- one worker thread. A time point is a number of nanoseconds. The request and result types are
-- those of src `SynthesisRequest` and `SynthesisResult`, and the pool looks into neither.
pub mod System
pub mod Invariant
pub mod Drain
pub mod Liveness
pub mod Fifo
mod Tests
use voxtral_server.Base.{
  ℕ, ◌+◌, ◌-◌, ◌*◌, Bool, true, false, not, List, ◌∷◌, ◌++◌, leb, ◌==◌, if◌then◌else◌, length,
  Bytes, bytes, [],
}
use voxtral_server.Base.Int.{ℤ, pos, negsuc, pos_part, neg_part, ltb_ℤ, ◌≤ℤ◌}

pub record InferenceJob (Req : Type 0) : Type 0 where
  pub request : Req
  -- 0 stands for the epoch, which asks for the default.
  pub deadline : ℕ
  -- Whether the callbacks are set.
  pub on_success : Bool
  pub on_error : Bool

-- Where the worker thread stands in `worker_loop`, with its locals.
pub data Worker (Req Res : Type 0) : Type 0 where
  -- in `cv_.wait`
  waiting : Worker Req Res
  -- a job is taken off the queue, before the first look at its deadline
  taken : InferenceJob Req → Worker Req Res
  -- inside `backend_->synthesize`, under the guard
  running : InferenceJob Req → Worker Req Res
  -- after it, before the second look at the deadline
  synthesized : InferenceJob Req → Res → Worker Req Res
  -- inside the guard still, once a callback is called
  leaving : Worker Req Res
  -- the loop has returned
  stopped : Worker Req Res

pub data Answer (Res : Type 0) : Type 0 where
  success : Res → Answer Res
  error : Bytes → Answer Res

-- A callback that the worker has called, with the clock reading that led to it.
pub record Call (Req Res : Type 0) : Type 0 where
  pub job : InferenceJob Req
  pub answer : Answer Res
  pub at : ℕ

pub record InferencePool (Req Res : Type 0) : Type 0 where
  pub max_queue_depth : ℕ
  pub request_timeout_seconds : ℕ
  pub queue : List (InferenceJob Req)
  pub accepting : Bool
  pub active : ℕ
  pub expired : ℕ
  pub worker : Worker Req Res
  -- oldest first
  pub calls : List (Call Req Res)

-- What `synthesize` did: it returned, or it threw an exception with this `what()`.
pub data Inference (Res : Type 0) : Type 0 where
  returned : Res → Inference Res
  threw : Bytes → Inference Res

pub data Constructed (Req Res : Type 0) : Type 0 where
  constructed : InferencePool Req Res → Constructed Req Res
  invalid_argument : Bytes → Constructed Req Res

abbrev pub second : ℕ
second = 1_000_000_000

module _ {Req Res : Type 0} where
  -- The constructor. The sizes that it lets through are positive.
  unfoldable pub construct : Bool → ℤ → ℤ → Constructed Req Res
  construct has_backend max_queue_depth request_timeout_seconds =
      if not has_backend
      then invalid_argument (bytes "InferencePool requires a non-null backend")
      else if ltb_ℤ max_queue_depth (pos 1)
      then invalid_argument (bytes "max_queue_depth must be >= 1")
      else if ltb_ℤ request_timeout_seconds (pos 1)
      then invalid_argument (bytes "request_timeout_seconds must be >= 1")
      else constructed (record {
        max_queue_depth = pos_part max_queue_depth;
        request_timeout_seconds = pos_part request_timeout_seconds;
        queue = [];
        accepting = true;
        active = 0;
        expired = 0;
        worker = waiting;
        calls = [];
      })

  -- The deadline that `submit` fills in.
  unfoldable pub with_deadline : InferencePool Req Res → ℕ → InferenceJob Req → InferenceJob Req
  with_deadline p now job =
      if job.deadline == 0
      then record job { deadline = now + p.request_timeout_seconds * second }
      else job

  unfoldable pub submit :
      InferencePool Req Res → InferenceJob Req → ℕ → InferencePool Req Res × Bool
  submit p job now =
      if not p.accepting
      then (p, false)
      else if leb p.max_queue_depth (length p.queue)
      then (p, false)
      else (record p { queue = p.queue ++ with_deadline p now job ∷ [] }, true)

  -- The critical section of `shutdown`; what is left of it waits for the worker to stop.
  unfoldable pub close : InferencePool Req Res → InferencePool Req Res
  close p = record p { accepting = false }

  -- `if (job.on_error) job.on_error(message)`, with what the callback throws caught.
  unfoldable pub call_error :
      InferencePool Req Res → InferenceJob Req → Bytes → ℕ → InferencePool Req Res
  call_error p job message now =
      if job.on_error
      then record p {
        calls = p.calls ++ record { job = job; answer = error message; at = now } ∷ [];
      }
      else p

  -- `if (job.on_success) job.on_success(std::move(result))`
  unfoldable pub call_success :
      InferencePool Req Res → InferenceJob Req → Res → ℕ → InferencePool Req Res
  call_success p job result now =
      if job.on_success
      then record p {
        calls = p.calls ++ record { job = job; answer = success result; at = now } ∷ [];
      }
      else p

  -- The wait on the condition variable, the test for the end, and the removal of the front.
  unfoldable pub take_job : InferencePool Req Res → InferencePool Req Res
  take_job p = elim p.queue [
    | [] ↦ if p.accepting then p else record p { worker = stopped }
    | job ∷ rest ↦ record p { queue = rest; worker = taken job }
  ]

  unfoldable pub check_deadline :
      InferencePool Req Res → InferenceJob Req → ℕ → InferencePool Req Res
  check_deadline p job now =
      if leb job.deadline now
      then call_error (record p { expired = p.expired + 1; worker = waiting }) job
          (bytes "Request timed out in queue") now
      else record p { active = p.active + 1; worker = running job }

  unfoldable pub finish_inference :
      InferencePool Req Res → InferenceJob Req → Inference Res → ℕ → InferencePool Req Res
  finish_inference p job (returned result) now = record p { worker = synthesized job result }
  finish_inference p job (threw what) now =
      call_error (record p { worker = leaving }) job (bytes "Inference failed: " ++ what) now

  unfoldable pub deliver :
      InferencePool Req Res → InferenceJob Req → Res → ℕ → InferencePool Req Res
  deliver p job result now =
      let after = record p { worker = leaving } in
      if leb job.deadline now
      then call_error after job (bytes "Request exceeded deadline during inference") now
      else call_success after job result now

  -- The end of the guard.
  unfoldable pub release : InferencePool Req Res → InferencePool Req Res
  release p = record p { active = p.active - 1; worker = waiting }

  -- One step of the worker thread, with the clock reading and the inference that it meets. A
  -- worker that waits on an open pool with no job stays where it is.
  unfoldable pub worker_step : InferencePool Req Res → ℕ → Inference Res → InferencePool Req Res
  worker_step p now inference = elim p.worker [
    | waiting ↦ take_job p
    | taken job ↦ check_deadline p job now
    | running job ↦ finish_inference p job inference now
    | synthesized job result ↦ deliver p job result now
    | leaving ↦ release p
    | stopped ↦ p
  ]

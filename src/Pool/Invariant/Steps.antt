-- ===== src/Pool/Invariant/Steps.antt =====
-- Each step of the worker thread keeps the invariant.
use mathlib.Core.List.{map-append, append_assoc}
use voxtral_server.Pool.{
  InferenceJob, Worker, waiting, taken, running, synthesized, leaving, stopped, success, error,
  Call, InferencePool, Inference, returned, threw, call_error, call_success, take_job,
  check_deadline, finish_inference, deliver, release,
}
use voxtral_server.Pool.System.{System, IsAnswerable}
use voxtral_server.Pool.Invariant.Defs.{held, guarded, Ended, IsTimely, Inv}
use voxtral_server.Base.{
  ℕ, ◌+◌, ◌≡◌, refl, ap, ◌∙◌, inl, inr, true, false, List, [], ◌∷◌, ◌++◌, arith, leb, if◌then◌else◌,
  Bool-cases, length, All-append, Bytes,
}

module _ {Req Res : Type 0} where
  -- The worker has answered its job, and stands at `w`.
  abbrev finished : System Req Res → Call Req Res → Worker Req Res → ℕ → System Req Res
  finished s c w expired = record {
    pool = record (s.pool) { calls = s.pool.calls ++ c ∷ []; worker = w; expired = expired };
    accepted = s.accepted;
  }

  finished-Inv :
      (s : System Req Res) (c : Call Req Res) (w : Worker Req Res) (expired : ℕ)
      → held s.pool.worker ≡ c.job ∷ []
      → held w ≡ []
      → s.pool.active ≡ guarded w
      → Ended w s.pool.accepting s.pool.queue
      → IsTimely c
      → Inv s
      → Inv (finished s c w expired)
  finished-Inv s c w expired h free counted open_ timely v = record {
    bounded = v.bounded;
    counted = counted;
    ended = open_;
    timely = All-append IsTimely s.pool.calls (c ∷ []) v.timely (timely, tt);
    callbacks = rw free (rw h at v.callbacks).1;
    answered = rw free simp (map-append, append_assoc) (rw h at v.answered);
  }

  pub take_job_cons :
      (p : InferencePool Req Res) (job : InferenceJob Req) (rest : List (InferenceJob Req))
      → p.queue ≡ job ∷ rest
      → take_job p ≡ record p { queue = rest; worker = taken job }
  unfolding take_job
  take_job_cons p job rest q = ground arith

  pub take_job_nil :
      (p : InferencePool Req Res)
      → p.queue ≡ []
      → take_job p ≡ (if p.accepting then p else record p { worker = stopped })
  unfolding take_job
  take_job_nil p q = ground arith

  pub take_job-Inv :
      (s : System Req Res) (queue : List (InferenceJob Req))
      → s.pool.queue ≡ queue
      → s.pool.worker ≡ waiting
      → Inv s
      → Inv (record s { pool = take_job s.pool })
  take_job-Inv s [] q w v = elim (Bool-cases s.pool.accepting) [
    | inl ready ↦ rw (same ready) v
    | inr shut ↦ rw (ends shut) (record {
      bounded = v.bounded;
      counted = v.counted ∙ ap guarded w;
      ended = (shut, q);
      timely = v.timely;
      callbacks = rw w at v.callbacks;
      answered = rw w at v.answered;
    })
  ]
    where
      same : s.pool.accepting ≡ true → take_job s.pool ≡ s.pool
      same ready = ground (arith, take_job_nil s.pool q)

      ends : s.pool.accepting ≡ false → take_job s.pool ≡ record (s.pool) { worker = stopped }
      ends shut = ground (arith, take_job_nil s.pool q)
  take_job-Inv s (job ∷ rest) q w v = rw (take_job_cons s.pool job rest q) (record {
    bounded = omega (arith, v.bounded, ap length q);
    counted = v.counted ∙ ap guarded w;
    ended = tt;
    timely = v.timely;
    callbacks = rw (w, q) at v.callbacks;
    answered = rw (w, q) at v.answered;
  })

  pub call_error-finished :
      (p : InferencePool Req Res) (job : InferenceJob Req) (message : Bytes) (now : ℕ)
      → IsAnswerable job
      → call_error p job message now ≡ record p {
        calls = p.calls ++ record { job = job; answer = error message; at = now } ∷ [];
      }
  unfolding call_error
  call_error-finished p job message now a = ground arith

  pub call_success-finished :
      (p : InferencePool Req Res) (job : InferenceJob Req) (result : Res) (now : ℕ)
      → IsAnswerable job
      → call_success p job result now ≡ record p {
        calls = p.calls ++ record { job = job; answer = success result; at = now } ∷ [];
      }
  unfolding call_success
  call_success-finished p job result now a = ground arith

  -- What holds of the job in the worker's hands.
  pub held-IsAnswerable :
      (s : System Req Res) (job : InferenceJob Req)
      → held s.pool.worker ≡ job ∷ []
      → Inv s
      → IsAnswerable job
  held-IsAnswerable s job h v = (rw h at v.callbacks).0

  error-Inv :
      (s : System Req Res) (job : InferenceJob Req) (message : Bytes) (now : ℕ) (w : Worker Req Res)
      (expired : ℕ)
      → held s.pool.worker ≡ job ∷ []
      → held w ≡ []
      → s.pool.active ≡ guarded w
      → Ended w s.pool.accepting s.pool.queue
      → Inv s
      → Inv (record s {
        pool = call_error (record (s.pool) { expired = expired; worker = w }) job message now;
      })
  error-Inv s job message now w expired h free counted open_ v =
      rw (call_error-finished _ job message now (held-IsAnswerable s job h v)) (
        finished-Inv s (record { job = job; answer = error message; at = now }) w expired h free
          counted open_ tt v)

  pub check_deadline-Inv :
      (s : System Req Res) (job : InferenceJob Req) (now : ℕ)
      → s.pool.worker ≡ taken job
      → Inv s
      → Inv (record s { pool = check_deadline s.pool job now })
  unfolding check_deadline
  check_deadline-Inv s job now w v = elim (Bool-cases (leb job.deadline now)) [
    | inl late ↦ rw late (
        error-Inv s job _ now waiting (s.pool.expired + 1) (ap held w) refl
          (v.counted ∙ ap guarded w) tt v)
    | inr early ↦ rw early (record {
      bounded = v.bounded;
      counted = omega (arith, v.counted, ap guarded w);
      ended = tt;
      timely = v.timely;
      callbacks = rw w at v.callbacks;
      answered = rw w at v.answered;
    })
  ]

  pub finish_inference-Inv :
      (s : System Req Res) (job : InferenceJob Req) (inference : Inference Res) (now : ℕ)
      → s.pool.worker ≡ running job
      → Inv s
      → Inv (record s { pool = finish_inference s.pool job inference now })
  unfolding finish_inference
  finish_inference-Inv s job (returned result) now w v = record {
    bounded = v.bounded;
    counted = v.counted ∙ ap guarded w;
    ended = tt;
    timely = v.timely;
    callbacks = rw w at v.callbacks;
    answered = rw w at v.answered;
  }
  finish_inference-Inv s job (threw what) now w v =
      error-Inv s job _ now leaving s.pool.expired (ap held w) refl (v.counted ∙ ap guarded w) tt v

  pub deliver-Inv :
      (s : System Req Res) (job : InferenceJob Req) (result : Res) (now : ℕ)
      → s.pool.worker ≡ synthesized job result
      → Inv s
      → Inv (record s { pool = deliver s.pool job result now })
  unfolding deliver
  deliver-Inv s job result now w v = elim (Bool-cases (leb job.deadline now)) [
    | inl late ↦ rw late (error-Inv s job _ now leaving s.pool.expired (ap held w) refl inside tt v)
    | inr early ↦ rw early (
        rw (call_success-finished _ job result now (held-IsAnswerable s job (ap held w) v)) (
          finished-Inv s (record { job = job; answer = success result; at = now }) leaving
            s.pool.expired (ap held w) refl inside tt (ground (arith, early)) v))
  ]
    where
      inside : s.pool.active ≡ 1
      inside = v.counted ∙ ap guarded w

  pub release-Inv :
      (s : System Req Res)
      → s.pool.worker ≡ leaving
      → Inv s
      → Inv (record s { pool = release s.pool })
  unfolding release
  release-Inv s w v = record {
    bounded = v.bounded;
    counted = omega (arith, v.counted, ap guarded w);
    ended = tt;
    timely = v.timely;
    callbacks = rw w at v.callbacks;
    answered = rw w at v.answered;
  }

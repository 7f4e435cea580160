-- ===== src/Pool/Liveness.antt =====
-- Every accepted job is answered, in a pool that stays open as in one that is closed.
use mathlib.Core.List.{append-nil}
use voxtral_server.Pool.{
  InferenceJob, Worker, waiting, taken, running, synthesized, leaving, stopped, InferencePool,
  Inference, returned, threw, call_error, call_success, take_job, check_deadline, finish_inference,
  deliver, release, worker_step,
}
use voxtral_server.Pool.System.{System, IsNew, works, Reach}
use voxtral_server.Pool.Invariant.{part, worker_step-part, Step-Inv, Reach-Inv}
use voxtral_server.Pool.Invariant.Defs.{held, job_of, Inv}
use voxtral_server.Pool.Invariant.Steps.{take_job_cons, take_job_nil}
use voxtral_server.Pool.Drain.{run_worker, call_error_keeps, call_success_keeps}
use voxtral_server.Base.{
  ℕ, ◌+◌, ◌-◌, ◌*◌, ◌≤◌, ◌≡◌, refl, sym, ap, ◌∙◌, inl, inr, List, [], ◌∷◌, ◌++◌, map, arith, leb,
  Bool-cases, length, Bytes,
}

module _ {Req Res : Type 0} where
  -- Steps that a worker takes until it has left its job and `n` queued ones behind.
  abbrev pub to_answer : Worker Req Res → ℕ → ℕ
  to_answer waiting n = 5 * n
  to_answer (taken job) n = 4 + 5 * n
  to_answer (running job) n = 3 + 5 * n
  to_answer (synthesized job result) n = 2 + 5 * n
  to_answer leaving n = 1 + 5 * n
  to_answer stopped n = 5 * n

  abbrev pub work_left : InferencePool Req Res → ℕ
  work_left p = to_answer p.worker (length p.queue)

  work_left_at :
      (p : InferencePool Req Res) (w : Worker Req Res)
      → p.worker ≡ w
      → work_left p ≡ to_answer w (length p.queue)
  work_left_at p w e = ap (λ v. to_answer v (length p.queue)) e

  same_work :
      (p q : InferencePool Req Res)
      → q.worker ≡ p.worker
      → q.queue ≡ p.queue
      → work_left q ≡ work_left p
  same_work p q w k = λ i. to_answer (w i) (length (k i))

  abbrev Works : InferencePool Req Res → InferencePool Req Res → Type 0
  Works p q = work_left q ≤ work_left p - 1

  take_job-Works :
      (p : InferencePool Req Res) (queue : List (InferenceJob Req))
      → p.queue ≡ queue
      → p.worker ≡ waiting
      → Works p (take_job p)
  take_job-Works p (job ∷ rest) q w =
      rw (take_job_cons p job rest q) (omega (arith, work_left_at p waiting w, ap length q))
  take_job-Works p [] q w = elim (Bool-cases p.accepting) [
    | inl ready ↦
        let e : take_job p ≡ p = ground (arith, take_job_nil p q) in
        rw e (omega (arith, work_left_at p waiting w, ap length q))
    | inr shut ↦
        let e : take_job p ≡ record p { worker = stopped } = ground (arith, take_job_nil p q) in
        rw e (omega (arith, ap length q))
  ]

  error-Works :
      (p q : InferencePool Req Res) (job : InferenceJob Req) (message : Bytes) (now : ℕ)
      → Works p q
      → Works p (call_error q job message now)
  error-Works p q job message now h =
      let (w, k, _) = call_error_keeps q job message now in
      omega (arith, h, same_work q (call_error q job message now) w k)

  part-Works :
      (p : InferencePool Req Res) (now : ℕ) (inference : Inference Res) (w : Worker Req Res)
      → p.worker ≡ w
      → (w ≡ stopped → p.queue ≡ [])
      → Works p (part p now inference w)
  unfolding part check_deadline finish_inference deliver release
  part-Works p now inference waiting e idle = take_job-Works p p.queue refl e
  part-Works p now inference (taken job) e idle = elim (Bool-cases (leb job.deadline now)) [
    | inl late ↦ rw late (error-Works p _ job _ now (omega (arith, work_left_at p (taken job) e)))
    | inr early ↦ rw early (omega (arith, work_left_at p (taken job) e))
  ]
  part-Works p now (returned result) (running job) e idle =
      omega (arith, work_left_at p (running job) e)
  part-Works p now (threw what) (running job) e idle =
      error-Works p _ job _ now (omega (arith, work_left_at p (running job) e))
  part-Works p now inference (synthesized job result) e idle =
      let after : InferencePool Req Res = record p { worker = leaving } in
      elim (Bool-cases (leb job.deadline now)) [
        | inl late ↦ rw late (
            error-Works p after job _ now
              (omega (arith, work_left_at p (synthesized job result) e)))
        | inr early ↦
            let (w, k, _) = call_success_keeps after job result now in
            rw early (
              omega (
                arith,
                work_left_at p (synthesized job result) e,
                same_work after (call_success after job result now) w k,
              ))
      ]
  part-Works p now inference leaving e idle = omega (arith, work_left_at p leaving e)
  part-Works p now inference stopped e idle =
      omega (arith, work_left_at p stopped e, ap length (idle refl))

  stopped_idle : (t : System Req Res) → Inv t → t.pool.worker ≡ stopped → t.pool.queue ≡ []
  stopped_idle t v e = (rw e at v.ended).1

  worker_step-Works :
      (t : System Req Res) (now : ℕ) (inference : Inference Res)
      → Inv t
      → Works t.pool (worker_step t.pool now inference)
  worker_step-Works t now inference v =
      rw (worker_step-part t.pool now inference t.pool.worker refl)
        (part-Works t.pool now inference t.pool.worker refl (stopped_idle t v))

  nothing_left :
      (w : Worker Req Res) (queue : List (InferenceJob Req))
      → to_answer w (length queue) ≡ 0
      → held w ++ queue ≡ []
  nothing_left waiting [] h = refl
  nothing_left stopped [] h = refl
  nothing_left waiting (job ∷ queue) h = absurd (omega arith)
  nothing_left stopped (job ∷ queue) h = absurd (omega arith)
  nothing_left (taken job) queue h = absurd (omega arith)
  nothing_left (running job) queue h = absurd (omega arith)
  nothing_left (synthesized job r) queue h = absurd (omega arith)
  nothing_left leaving queue h = absurd (omega arith)

  run_worker-answers :
      (t : System Req Res) (inputs : List (ℕ × Inference Res))
      → Inv t
      → work_left t.pool ≤ length inputs
      → map job_of (run_worker t.pool inputs).calls ≡ t.accepted
  unfolding run_worker
  run_worker-answers t [] v h =
      let none_left = nothing_left t.pool.worker t.pool.queue (omega (arith, h)) in
      sym (append-nil (map job_of t.pool.calls)) ∙ (rw none_left at v.answered)
  run_worker-answers t ((now, inference) ∷ inputs) v h =
      run_worker-answers (record t { pool = worker_step t.pool now inference }) inputs
        (Step-Inv (works now inference) v) (omega (arith, h, worker_step-Works t now inference v))

  -- From any state that a pool reaches from its constructor's, under any interleaving of
  -- clients that set both callbacks with the worker, and whether it is closed or not: if the
  -- worker is given at least `work_left` steps (five for each queued job, and those that the
  -- job in hand needs), then, whatever clock readings and backend results it meets in them,
  -- the jobs whose callbacks were called are, in order and once each, exactly the accepted
  -- ones.
  pub accepted_answered :
      {s t : System Req Res} (inputs : List (ℕ × Inference Res))
      → IsNew s
      → Reach s t
      → work_left t.pool ≤ length inputs
      → map job_of (run_worker t.pool inputs).calls ≡ t.accepted
  accepted_answered {t} inputs h r enough = run_worker-answers t inputs (Reach-Inv h r) enough

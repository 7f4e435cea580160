-- ===== src/Pool/Drain.antt =====
-- `shutdown`: no job is accepted after it, and the worker comes to its end.
use voxtral_server.Pool.{
  InferenceJob, Worker, waiting, taken, running, synthesized, leaving, stopped, InferencePool,
  Inference, returned, threw, close, call_error, call_success, take_job, check_deadline,
  finish_inference, deliver, release, worker_step,
}
use voxtral_server.Pool.System.{System, IsNew, Step, submits, closes, works, Reach, here, next}
use voxtral_server.Pool.Invariant.{part, worker_step-part, stopped_answered}
use voxtral_server.Pool.Invariant.Defs.{job_of}
use voxtral_server.Pool.Invariant.Clients.{submit_cases}
use voxtral_server.Pool.Invariant.Steps.{take_job_cons, take_job_nil}
use voxtral_server.Base.{
  ℕ, ◌+◌, ◌-◌, ◌*◌, ◌≤◌, ◌≡◌, refl, ap, ◌∙◌, inl, inr, false, List, [], ◌∷◌, map, arith, leb,
  Bool-cases, length, Bytes,
}

module _ {Req Res : Type 0} where
  -- The part of `shutdown` that joins the worker: it runs on, and meets at each
  -- step a clock reading and an inference.
  unfoldable pub run_worker :
      InferencePool Req Res → List (ℕ × Inference Res) → InferencePool Req Res
  run_worker p [] = p
  run_worker p ((now, inference) ∷ inputs) = run_worker (worker_step p now inference) inputs

  unfoldable pub shutdown : InferencePool Req Res → List (ℕ × Inference Res) → InferencePool Req Res
  shutdown p inputs = run_worker (close p) inputs

  -- Steps of a worker with `n` queued jobs to its end.
  abbrev pub to_go : Worker Req Res → ℕ → ℕ
  to_go waiting n = 1 + 5 * n
  to_go (taken job) n = 5 + 5 * n
  to_go (running job) n = 4 + 5 * n
  to_go (synthesized job result) n = 3 + 5 * n
  to_go leaving n = 2 + 5 * n
  to_go stopped n = 0

  abbrev pub steps_left : InferencePool Req Res → ℕ
  steps_left p = to_go p.worker (length p.queue)

  steps_left_at :
      (p : InferencePool Req Res) (w : Worker Req Res)
      → p.worker ≡ w
      → steps_left p ≡ to_go w (length p.queue)
  steps_left_at p w e = ap (λ v. to_go v (length p.queue)) e

  -- A callback changes neither the worker's position, the queue nor the gate.
  pub call_error_keeps :
      (p : InferencePool Req Res) (job : InferenceJob Req) (message : Bytes) (now : ℕ)
      → ((call_error p job message now).worker ≡ p.worker)
        × ((call_error p job message now).queue ≡ p.queue)
        × ((call_error p job message now).accepting ≡ p.accepting)
  unfolding call_error
  call_error_keeps p job message now = ground arith

  pub call_success_keeps :
      (p : InferencePool Req Res) (job : InferenceJob Req) (result : Res) (now : ℕ)
      → ((call_success p job result now).worker ≡ p.worker)
        × ((call_success p job result now).queue ≡ p.queue)
        × ((call_success p job result now).accepting ≡ p.accepting)
  unfolding call_success
  call_success_keeps p job result now = ground arith

  abbrev Progress : InferencePool Req Res → InferencePool Req Res → Type 0
  Progress p q = (steps_left q ≤ steps_left p - 1) × (q.accepting ≡ false)

  same_steps :
      (p q : InferencePool Req Res)
      → q.worker ≡ p.worker
      → q.queue ≡ p.queue
      → steps_left q ≡ steps_left p
  same_steps p q w k = λ i. to_go (w i) (length (k i))

  take_job-Progress :
      (p : InferencePool Req Res) (queue : List (InferenceJob Req))
      → p.queue ≡ queue
      → p.worker ≡ waiting
      → p.accepting ≡ false
      → Progress p (take_job p)
  take_job-Progress p [] q w shut =
      let e : take_job p ≡ record p { worker = stopped } = ground (arith, take_job_nil p q) in
      rw e (omega arith, shut)
  take_job-Progress p (job ∷ rest) q w shut =
      rw (take_job_cons p job rest q) (omega (arith, steps_left_at p waiting w, ap length q), shut)

  error-Progress :
      (p q : InferencePool Req Res) (job : InferenceJob Req) (message : Bytes) (now : ℕ)
      → Progress p q
      → Progress p (call_error q job message now)
  error-Progress p q job message now h =
      let (w, k, a) = call_error_keeps q job message now in
      (omega (arith, h.0, same_steps q (call_error q job message now) w k), a ∙ h.1)

  part-Progress :
      (p : InferencePool Req Res) (now : ℕ) (inference : Inference Res) (w : Worker Req Res)
      → p.worker ≡ w
      → p.accepting ≡ false
      → Progress p (part p now inference w)
  unfolding part check_deadline finish_inference deliver release
  part-Progress p now inference waiting e shut = take_job-Progress p p.queue refl e shut
  part-Progress p now inference (taken job) e shut = elim (Bool-cases (leb job.deadline now)) [
    | inl late ↦
        rw late (error-Progress p _ job _ now (omega (arith, steps_left_at p (taken job) e), shut))
    | inr early ↦ rw early (omega (arith, steps_left_at p (taken job) e), shut)
  ]
  part-Progress p now (returned result) (running job) e shut =
      (omega (arith, steps_left_at p (running job) e), shut)
  part-Progress p now (threw what) (running job) e shut =
      error-Progress p _ job _ now (omega (arith, steps_left_at p (running job) e), shut)
  part-Progress p now inference (synthesized job result) e shut =
      let after : InferencePool Req Res = record p { worker = leaving } in
      elim (Bool-cases (leb job.deadline now)) [
        | inl late ↦ rw late (
            error-Progress p after job _ now
              (omega (arith, steps_left_at p (synthesized job result) e), shut))
        | inr early ↦
            let (w, k, a) = call_success_keeps after job result now in
            rw early (
              omega (
                arith,
                steps_left_at p (synthesized job result) e,
                same_steps after (call_success after job result now) w k,
              ),
              a ∙ shut,
            )
      ]
  part-Progress p now inference leaving e shut = (omega (arith, steps_left_at p leaving e), shut)
  part-Progress p now inference stopped e shut = (omega (arith, steps_left_at p stopped e), shut)

  worker_step-Progress :
      (p : InferencePool Req Res) (now : ℕ) (inference : Inference Res)
      → p.accepting ≡ false
      → Progress p (worker_step p now inference)
  worker_step-Progress p now inference shut =
      rw (worker_step-part p now inference p.worker refl)
        (part-Progress p now inference p.worker refl shut)

  stopped_of_to_go : (w : Worker Req Res) (n : ℕ) → to_go w n ≡ 0 → w ≡ stopped
  stopped_of_to_go stopped n h = refl
  stopped_of_to_go waiting n h = absurd (omega arith)
  stopped_of_to_go (taken job) n h = absurd (omega arith)
  stopped_of_to_go (running job) n h = absurd (omega arith)
  stopped_of_to_go (synthesized job r) n h = absurd (omega arith)
  stopped_of_to_go leaving n h = absurd (omega arith)

  run_worker_stops :
      (p : InferencePool Req Res) (inputs : List (ℕ × Inference Res))
      → p.accepting ≡ false
      → steps_left p ≤ length inputs
      → (run_worker p inputs).worker ≡ stopped
  unfolding run_worker
  run_worker_stops p [] shut h = stopped_of_to_go p.worker (length p.queue) (omega arith)
  run_worker_stops p ((now, inference) ∷ inputs) shut h =
      let (less, shut') = worker_step-Progress p now inference shut in
      run_worker_stops (worker_step p now inference) inputs shut' (omega (arith, less))

  pub Reach-trans : {s t u : System Req Res} → Reach s t → Reach t u → Reach s u
  Reach-trans r here = r
  Reach-trans r (next q st) = next (Reach-trans r q) st

  pub Reach-run_worker :
      (t : System Req Res) (inputs : List (ℕ × Inference Res))
      → Reach t (record t { pool = run_worker t.pool inputs })
  unfolding run_worker
  Reach-run_worker t [] = here
  Reach-run_worker t ((now, inference) ∷ inputs) =
      Reach-trans (next here (works now inference))
        (Reach-run_worker (record t { pool = worker_step t.pool now inference }) inputs)

  Reach-shutdown :
      (t : System Req Res) (inputs : List (ℕ × Inference Res))
      → Reach t (record t { pool = shutdown t.pool inputs })
  unfolding shutdown
  Reach-shutdown t inputs =
      Reach-trans (next here closes) (Reach-run_worker (record t { pool = close t.pool }) inputs)

  -- From any state that a pool reaches from its constructor's, under any interleaving of
  -- clients that set both callbacks with the worker, `shutdown` ends, if the worker is given
  -- at least `steps_left` steps (five for each queued job, those that the job in hand needs,
  -- and one to stop), whatever clock readings and backend results it meets in them: the
  -- worker has then stopped, and the jobs whose callbacks were called are, in order and once
  -- each, exactly the accepted ones.
  pub shutdown_answered :
      {s t : System Req Res} (inputs : List (ℕ × Inference Res))
      → IsNew s
      → Reach s t
      → steps_left t.pool ≤ length inputs
      → ((shutdown t.pool inputs).worker ≡ stopped)
        × (map job_of (shutdown t.pool inputs).calls ≡ t.accepted)
  shutdown_answered {t} inputs h r enough =
      let stops = shutdown_stops t.pool inputs enough in
      (stops, (stopped_answered h (Reach-trans r (Reach-shutdown t inputs)) stops).1)
    where
      shutdown_stops :
          (p : InferencePool Req Res) (inputs : List (ℕ × Inference Res))
          → steps_left p ≤ length inputs
          → (shutdown p inputs).worker ≡ stopped
      shutdown_stops p inputs h = unfold shutdown close in run_worker_stops (close p) inputs refl h

  worker_step-accepting :
      (p : InferencePool Req Res) (now : ℕ) (inference : Inference Res)
      → p.accepting ≡ false
      → (worker_step p now inference).accepting ≡ false
  worker_step-accepting p now inference shut = (worker_step-Progress p now inference shut).1

  Step-closed :
      {s t : System Req Res}
      → Step s t
      → s.pool.accepting ≡ false
      → (t.pool.accepting ≡ false) × (t.accepted ≡ s.accepted)
  Step-closed {s} (submits job now a) shut = elim (submit_cases s.pool job now) [
    | inl (e, _) ↦ rw e (shut, refl)
    | inr (e, ready, _) ↦ cc (ready, shut)
  ]
  Step-closed closes shut = (unfold close in refl, refl)
  Step-closed {s} (works now inference) shut =
      (worker_step-accepting s.pool now inference shut, refl)

  -- A closed pool stays closed and accepts no job, whatever steps its clients and its worker
  -- take.
  pub closed_accepts_nothing :
      {s t : System Req Res}
      → s.pool.accepting ≡ false
      → Reach s t
      → (t.pool.accepting ≡ false) × (t.accepted ≡ s.accepted)
  closed_accepts_nothing shut here = (shut, refl)
  closed_accepts_nothing shut (next r st) =
      let (shut', same) = closed_accepts_nothing shut r in
      let (shut'', same') = Step-closed st shut' in (shut'', same' ∙ same)

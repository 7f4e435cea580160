-- ===== src/Pool/Fifo/Refines.antt =====
-- The pool keeps the promise of the line.
use mathlib.Core.List.{append_assoc}
use voxtral_server.Pool.{
  InferenceJob, Worker, waiting, taken, running, synthesized, leaving, stopped, success, error,
  Call, InferencePool, Inference, returned, threw, with_deadline, close, call_error, call_success,
  take_job, check_deadline, finish_inference, deliver, release,
}
use voxtral_server.Pool.System.{
  System, IsAnswerable, IsNew, Step, submits, closes, works, Reach, here, next,
}
use voxtral_server.Pool.Invariant.{part, worker_step-part, Reach-Inv}
use voxtral_server.Pool.Invariant.Defs.{held, Inv}
use voxtral_server.Pool.Invariant.Clients.{submit_cases, with_deadline-IsAnswerable}
use voxtral_server.Pool.Invariant.Steps.{
  take_job_cons, take_job_nil, call_error-finished, call_success-finished,
}
use voxtral_server.Pool.Fifo.{
  Fifo, IsProper, FifoStep, joins, answers, shuts, rests, FifoRun, stays, steps, Backs, BackedReach,
  begins, goes, fifo,
}
use voxtral_server.Base.{
  ℕ, ◌+◌, ◌≤◌, ◌<◌, ◌≡◌, refl, sym, ap, ◌∙◌, inl, inr, true, false, List, [], ◌∷◌, ◌++◌, arith, leb,
  Bool-cases, length, All, length-append, All-append, Bytes, bytes, is_empty,
}

module _ {Req Res : Type 0} (Made : Req → Res → Type 0) where
  -- A result in the worker's hands was made of the request in them.
  abbrev Holds : Worker Req Res → Type 0
  Holds (synthesized job result) = Made job.request result
  Holds _ = Unit

  -- What a step of the worker means for the line.
  abbrev Refines : ℕ → InferencePool Req Res → InferencePool Req Res → Type 0
  Refines most p q = FifoStep Made most (fifo p) (fifo q) × Holds q.worker

  fifo_eq :
      (p q : InferencePool Req Res)
      → held q.worker ++ q.queue ≡ held p.worker ++ p.queue
      → q.calls ≡ p.calls
      → q.accepting ≡ p.accepting
      → fifo q ≡ fifo p
  unfolding fifo
  fifo_eq p q e c a = λ i. record { pending = e i; calls = c i; is_open = a i }

  answered-Refines :
      (most : ℕ) (p : InferencePool Req Res) (c : Call Req Res) (w : Worker Req Res) (expired : ℕ)
      → held p.worker ≡ c.job ∷ []
      → held w ≡ []
      → Holds w
      → IsProper Made c
      → Refines most p (record p { expired = expired; worker = w; calls = p.calls ++ c ∷ [] })
  unfolding fifo
  answered-Refines most p c w expired h free holds proper =
      (rw free (answers c p.queue (ap (λ l. l ++ p.queue) h) proper refl), holds)

  error-Refines :
      (most : ℕ) (p : InferencePool Req Res) (job : InferenceJob Req) (message : Bytes) (now : ℕ)
      (w : Worker Req Res) (expired : ℕ)
      → held p.worker ≡ job ∷ []
      → held w ≡ []
      → Holds w
      → IsAnswerable job
      → is_empty message ≡ false
      → Refines most p (call_error (record p { expired = expired; worker = w }) job message now)
  error-Refines most p job message now w expired h free holds a says =
      rw (call_error-finished (record p { expired = expired; worker = w }) job message now a) (
        answered-Refines most p (record { job = job; answer = error message; at = now }) w expired h
          free holds says)

  late_says : is_empty (bytes "Request timed out in queue") ≡ false
  unfolding is_empty bytes
  late_says = refl

  exceeded_says : is_empty (bytes "Request exceeded deadline during inference") ≡ false
  unfolding is_empty bytes
  exceeded_says = refl

  failed_says : (what : Bytes) → is_empty (bytes "Inference failed: " ++ what) ≡ false
  unfolding is_empty bytes
  failed_says what = refl

  take_job-Refines :
      (most : ℕ) (p : InferencePool Req Res) (queue : List (InferenceJob Req))
      → p.queue ≡ queue
      → p.worker ≡ waiting
      → Refines most p (take_job p)
  take_job-Refines most p (job ∷ rest) q w =
      rw (take_job_cons p job rest q)
        (rests (fifo_eq p _ (sym (λ i. held (w i) ++ q i)) refl refl), tt)
  take_job-Refines most p [] q w = elim (Bool-cases p.accepting) [
    | inl ready ↦
        let e : take_job p ≡ p = ground (arith, take_job_nil p q) in rw (e, w) (rests refl, tt)
    | inr shut ↦
        let e : take_job p ≡ record p { worker = stopped } = ground (arith, take_job_nil p q) in
        rw e (rests (fifo_eq p _ (ap (λ w. held w ++ p.queue) (sym w)) refl refl), tt)
  ]

  part-Refines :
      (most : ℕ) (p : InferencePool Req Res) (now : ℕ) (inference : Inference Res)
      (w : Worker Req Res)
      → p.worker ≡ w
      → All IsAnswerable (held w)
      → Holds w
      → ((job : InferenceJob Req) (result : Res)
          → w ≡ running job
          → inference ≡ returned result
          → Made job.request result)
      → Refines most p (part p now inference w)
  unfolding part check_deadline finish_inference deliver release
  part-Refines most p now inference waiting e a h b = take_job-Refines most p p.queue refl e
  part-Refines most p now inference (taken job) e a h b = elim (Bool-cases (leb job.deadline now)) [
    | inl late ↦
        rw late
          (error-Refines most p job _ now waiting (p.expired + 1) (ap held e) refl tt a.0 late_says)
    | inr early ↦ rw early (rests (fifo_eq p _ (ap (λ w. held w ++ p.queue) (sym e)) refl refl), tt)
  ]
  part-Refines most p now (returned result) (running job) e a h b =
      (rests (fifo_eq p _ (ap (λ w. held w ++ p.queue) (sym e)) refl refl), b job result refl refl)
  part-Refines most p now (threw what) (running job) e a h b =
      error-Refines most p job _ now leaving p.expired (ap held e) refl tt a.0 (failed_says what)
  part-Refines most p now inference (synthesized job result) e a h b =
      let after : InferencePool Req Res = record p { worker = leaving } in
      elim (Bool-cases (leb job.deadline now)) [
        | inl late ↦
            rw late (
              error-Refines most p job _ now leaving p.expired (ap held e) refl tt a.0
                exceeded_says)
        | inr early ↦ rw early (
            rw (call_success-finished after job result now a.0) (
              answered-Refines most p (record { job = job; answer = success result; at = now })
                leaving p.expired (ap held e) refl tt (h, ground (arith, early))))
      ]
  part-Refines most p now inference leaving e a h b =
      (rests (fifo_eq p _ (ap (λ w. held w ++ p.queue) (sym e)) refl refl), tt)
  part-Refines most p now inference stopped e a h b = (rests refl, rw e tt)

  length-held : (w : Worker Req Res) → length (held w) ≤ 1
  length-held waiting = omega arith
  length-held (taken job) = omega arith
  length-held (running job) = omega arith
  length-held (synthesized job result) = omega arith
  length-held leaving = omega arith
  length-held stopped = omega arith

  All-held :
      (w : Worker Req Res) (queue : List (InferenceJob Req))
      → All IsAnswerable (held w ++ queue)
      → All IsAnswerable (held w)
  All-held waiting queue h = tt
  All-held (taken job) queue h = (h.0, tt)
  All-held (running job) queue h = (h.0, tt)
  All-held (synthesized job result) queue h = (h.0, tt)
  All-held leaving queue h = tt
  All-held stopped queue h = tt

  submitted-Refines :
      (most : ℕ) (p : InferencePool Req Res) (job : InferenceJob Req)
      → p.max_queue_depth ≡ most
      → IsAnswerable job
      → p.accepting ≡ true
      → length p.queue < p.max_queue_depth
      → FifoStep Made most (fifo p) (fifo (record p { queue = p.queue ++ job ∷ [] }))
  unfolding fifo
  submitted-Refines most p job m a ready room =
      joins job a ready
        (omega (arith, m, room, length-held p.worker, length-append (held p.worker) p.queue))
        (λ i. record {
          pending = sym (append_assoc (held p.worker) p.queue (job ∷ [])) i;
          calls = p.calls;
          is_open = p.accepting;
        })

  Step-Refines :
      {s t : System Req Res} (most : ℕ)
      → s.pool.max_queue_depth ≡ most
      → (st : Step s t) → Backs Made st
      → Inv s
      → Holds s.pool.worker
      → Refines most s.pool t.pool
  Step-Refines {s} most m (submits job now a) b v h = elim (submit_cases s.pool job now) [
    | inl (e, _) ↦ rw e (rests refl, h)
    | inr (e, ready, room) ↦ rw e (
      submitted-Refines most s.pool (with_deadline s.pool now job) m
          (with_deadline-IsAnswerable s.pool now job a) ready room,
      h,
    )
  ]
  Step-Refines {s} most m closes b v h = unfold close fifo in (shuts refl, h)
  Step-Refines {s} most m (works now inference) b v h =
      rw (worker_step-part s.pool now inference s.pool.worker refl) (
        part-Refines most s.pool now inference s.pool.worker refl
          (All-held s.pool.worker s.pool.queue v.callbacks) h b)

  Reach-BackedReach : {s t : System Req Res} → BackedReach Made s t → Reach s t
  Reach-BackedReach begins = here
  Reach-BackedReach (goes r st b) = next (Reach-BackedReach r) st

  part-max :
      (p : InferencePool Req Res) (now : ℕ) (inference : Inference Res) (w : Worker Req Res)
      → (part p now inference w).max_queue_depth ≡ p.max_queue_depth
  unfolding part take_job check_deadline finish_inference deliver release call_error call_success
  part-max p now inference waiting = ground arith
  part-max p now inference (taken job) = ground arith
  part-max p now (returned result) (running job) = refl
  part-max p now (threw what) (running job) = ground arith
  part-max p now inference (synthesized job result) = ground arith
  part-max p now inference leaving = refl
  part-max p now inference stopped = refl

  IsNew-Holds : (s : System Req Res) → IsNew s → Holds s.pool.worker
  IsNew-Holds s (queue, open_, active, worker, calls, accepted) = rw worker tt

  Step-max : {s t : System Req Res} → Step s t → t.pool.max_queue_depth ≡ s.pool.max_queue_depth
  Step-max {s} (submits job now a) = elim (submit_cases s.pool job now) [
    | inl (e, _) ↦ rw e refl
    | inr (e, _, _) ↦ rw e refl
  ]
  Step-max closes = unfold close in refl
  Step-max {s} (works now inference) =
      rw (worker_step-part s.pool now inference s.pool.worker refl)
        (part-max s.pool now inference s.pool.worker)

  -- Every run of a pool from its constructor's state, under any interleaving of clients that
  -- set both callbacks with a worker that meets only results that its backend makes of the
  -- request in hand, is a run of a first-in first-out line: each step of a thread adds one
  -- job at the back of an open line no longer than the queue's bound, or answers the job at
  -- the front with one call, or closes the line, or changes nothing that a client sees; and
  -- each success comes before the deadline of its job with a result made of that job's own
  -- request, and each error has a message.
  pub fifo-refines :
      {s t : System Req Res}
      → IsNew s
      → BackedReach Made s t
      → FifoRun Made s.pool.max_queue_depth (fifo s.pool) (fifo t.pool)
  fifo-refines h r = (run h r).0
    where
      run :
          {s t : System Req Res}
          → IsNew s
          → BackedReach Made s t
          → FifoRun Made s.pool.max_queue_depth (fifo s.pool) (fifo t.pool)
            × Holds t.pool.worker
            × (t.pool.max_queue_depth ≡ s.pool.max_queue_depth)
      run {s} h begins = (stays, IsNew-Holds s h, refl)
      run {s} h (goes r st b) =
          let (f, k, m) = run h r in
          let (step, k') =
            Step-Refines s.pool.max_queue_depth m st b (Reach-Inv h (Reach-BackedReach r)) k in
          (steps f step, k', Step-max st ∙ m)

  FifoStep-IsProper :
      {most : ℕ} {f g : Fifo Req Res}
      → FifoStep Made most f g
      → All (IsProper Made) f.calls
      → All (IsProper Made) g.calls
  FifoStep-IsProper (joins job a o room e) h = rw e h
  FifoStep-IsProper {f} (answers c rest p proper e) h =
      rw e (All-append (IsProper Made) f.calls (c ∷ []) h (proper, tt))
  FifoStep-IsProper (shuts e) h = rw e h
  FifoStep-IsProper (rests e) h = rw e h

  FifoRun-IsProper :
      {most : ℕ} {f g : Fifo Req Res}
      → FifoRun Made most f g
      → All (IsProper Made) f.calls
      → All (IsProper Made) g.calls
  FifoRun-IsProper stays h = h
  FifoRun-IsProper (steps r st) h = FifoStep-IsProper st (FifoRun-IsProper r h)

  -- In every state that a pool reaches from its constructor's, under any interleaving of
  -- clients that set both callbacks with a worker that meets only results that its backend
  -- makes of the request in hand, each call of a callback so far was a success before the
  -- deadline of its job, with a result made of that job's own request, or an error with a
  -- message.
  pub calls-IsProper :
      {s t : System Req Res} → IsNew s → BackedReach Made s t → All (IsProper Made) t.pool.calls
  unfolding fifo
  calls-IsProper {s} h r = FifoRun-IsProper (fifo-refines h r) (none_yet s h)
    where
      none_yet : (s : System Req Res) → IsNew s → All (IsProper Made) s.pool.calls
      none_yet s (queue, open_, active, worker, calls, accepted) = rw calls tt

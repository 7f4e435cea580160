-- ===== src/Pool/Invariant/Clients.antt =====
-- `submit` and the constructor keep the invariant.
use mathlib.Core.List.{append_assoc}
use voxtral_server.Pool.{
  InferenceJob, Worker, waiting, taken, running, synthesized, leaving, stopped, InferencePool,
  with_deadline, submit,
}
use voxtral_server.Pool.System.{System, IsAnswerable, submitted, IsNew}
use voxtral_server.Pool.Invariant.Defs.{held, Ended, job_of, Inv}
use voxtral_server.Base.{
  ℕ, ◌≤◌, ◌<◌, ◌≡◌, sym, ap, ◌∙◌, ◌⊎◌, inl, inr, Bool, true, false, List, [], ◌∷◌, ◌++◌, map, arith,
  length, length-append, All-append,
}

module _ {Req Res : Type 0} where
  Ended_open :
      (w : Worker Req Res) (accepting : Bool) (q q' : List (InferenceJob Req))
      → accepting ≡ true
      → Ended w accepting q
      → Ended w accepting q'
  Ended_open stopped a q q' h e = cc (h, e.0)
  Ended_open waiting a q q' h e = tt
  Ended_open (taken job) a q q' h e = tt
  Ended_open (running job) a q q' h e = tt
  Ended_open (synthesized job r) a q q' h e = tt
  Ended_open leaving a q q' h e = tt

  pub IsNew-Inv : (s : System Req Res) → IsNew s → Inv s
  IsNew-Inv s (queue, open_, active, worker, calls, accepted) = record {
    bounded = rw queue (omega arith);
    counted = rw (active, worker);
    ended = rw worker tt;
    timely = rw calls tt;
    callbacks = rw (worker, queue) tt;
    answered = rw (calls, worker, queue, accepted);
  }

  pub with_deadline-IsAnswerable :
      (p : InferencePool Req Res) (now : ℕ) (job : InferenceJob Req)
      → IsAnswerable job
      → IsAnswerable (with_deadline p now job)
  unfolding with_deadline
  with_deadline-IsAnswerable p now job a = ground arith

  enqueued-Inv :
      (s : System Req Res) (job : InferenceJob Req)
      → IsAnswerable job
      → s.pool.accepting ≡ true
      → length s.pool.queue < s.pool.max_queue_depth
      → Inv s
      → Inv (record {
        pool = record (s.pool) { queue = s.pool.queue ++ job ∷ [] };
        accepted = s.accepted ++ job ∷ [];
      })
  enqueued-Inv s job a h room v = record {
    bounded = omega (arith, length-append s.pool.queue (job ∷ []));
    counted = v.counted;
    ended = Ended_open s.pool.worker s.pool.accepting s.pool.queue _ h v.ended;
    timely = v.timely;
    callbacks = rw (← append_assoc) (
        All-append IsAnswerable (held s.pool.worker ++ s.pool.queue) (job ∷ []) v.callbacks
          (a, tt));
    answered =
        ap (◌++◌ (map job_of s.pool.calls))
          (sym (append_assoc (held s.pool.worker) s.pool.queue (job ∷ [])))
        ∙ sym
            (append_assoc (map job_of s.pool.calls) (held s.pool.worker ++ s.pool.queue) (job ∷ []))
        ∙ ap (λ l. l ++ job ∷ []) v.answered;
  }

  -- `submit` leaves the pool alone, or enqueues the job on an open pool with room.
  pub submit_cases :
      (p : InferencePool Req Res) (job : InferenceJob Req) (now : ℕ)
      → ((submit p job now ≡ (p, false))
          × ((p.accepting ≡ false) ⊎ (p.max_queue_depth ≤ length p.queue)))
        ⊎ ((submit p job now ≡ (record p { queue = p.queue ++ with_deadline p now job ∷ [] }, true))
            × (p.accepting ≡ true)
            × (length p.queue < p.max_queue_depth))
  unfolding submit
  submit_cases p job now = ground arith

  pub submitted-Inv :
      (s : System Req Res) (job : InferenceJob Req) (now : ℕ)
      → IsAnswerable job
      → Inv s
      → Inv (submitted s job now)
  submitted-Inv s job now a v = elim (submit_cases s.pool job now) [
    | inl (e, _) ↦ rw e v
    | inr (e, ready, room) ↦ rw e (
        enqueued-Inv s (with_deadline s.pool now job) (with_deadline-IsAnswerable s.pool now job a)
          ready room v)
  ]

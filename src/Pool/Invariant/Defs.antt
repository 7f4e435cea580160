-- ===== src/Pool/Invariant/Defs.antt =====
-- The invariant of the pool: its bound, the guard's counter, and where every accepted job is.
use voxtral_server.Pool.{
  InferenceJob, Worker, waiting, taken, running, synthesized, leaving, stopped, success, error,
  Call,
}
use voxtral_server.Pool.System.{System, IsAnswerable}
use voxtral_server.Base.{ℕ, ◌≤◌, ◌<◌, ◌≡◌, Bool, false, List, [], ◌∷◌, ◌++◌, map, length, All}

module _ {Req Res : Type 0} where
  -- The job in the worker's hands.
  abbrev pub held : Worker Req Res → List (InferenceJob Req)
  held waiting = []
  held (taken job) = job ∷ []
  held (running job) = job ∷ []
  held (synthesized job result) = job ∷ []
  held leaving = []
  held stopped = []

  -- Whether the worker is inside the guard.
  abbrev pub guarded : Worker Req Res → ℕ
  guarded (running job) = 1
  guarded (synthesized job result) = 1
  guarded leaving = 1
  guarded _ = 0

  abbrev pub Ended : Worker Req Res → Bool → List (InferenceJob Req) → Type 0
  Ended stopped accepting queue = (accepting ≡ false) × (queue ≡ [])
  Ended _ accepting queue = Unit

  -- A result is delivered before its deadline only.
  abbrev pub IsTimely : Call Req Res → Type 0
  IsTimely c = elim c.answer [ success r ↦ c.at < c.job.deadline | error m ↦ Unit ]

  abbrev pub job_of : Call Req Res → InferenceJob Req
  job_of c = c.job

  pub record Inv (s : System Req Res) : Type 0 where
    pub bounded : length s.pool.queue ≤ s.pool.max_queue_depth
    pub counted : s.pool.active ≡ guarded s.pool.worker
    pub ended : Ended s.pool.worker s.pool.accepting s.pool.queue
    pub timely : All IsTimely s.pool.calls
    pub callbacks : All IsAnswerable (held s.pool.worker ++ s.pool.queue)
    pub answered : map job_of s.pool.calls ++ (held s.pool.worker ++ s.pool.queue) ≡ s.accepted

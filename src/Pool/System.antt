-- ===== src/Pool/System.antt =====
-- The pool among its clients: any interleaving of the critical sections of `submit` and `shutdown`
-- with the steps of the worker thread.
use voxtral_server.Pool.{
  InferenceJob, waiting, InferencePool, Inference, with_deadline, submit, close, worker_step,
}
use voxtral_server.Base.{ℕ, ◌≡◌, true, List, [], ◌∷◌, ◌++◌, if◌then◌else◌}

-- `accepted` holds the jobs that `submit` has taken in, with their deadlines, oldest first.
pub record System (Req Res : Type 0) : Type 0 where
  pub pool : InferencePool Req Res
  pub accepted : List (InferenceJob Req)

-- Both callbacks are set, as by `handle_speech`.
abbrev pub IsAnswerable : {Req : Type 0} → InferenceJob Req → Type 0
IsAnswerable job = (job.on_success ≡ true) × (job.on_error ≡ true)

module _ {Req Res : Type 0} where
  abbrev pub submitted : System Req Res → InferenceJob Req → ℕ → System Req Res
  submitted s job now = record {
    pool = (submit s.pool job now).0;
    accepted =
        if (submit s.pool job now).1
        then s.accepted ++ with_deadline s.pool now job ∷ []
        else s.accepted;
  }

  -- The pool of a constructor that has just returned.
  abbrev pub IsNew : System Req Res → Type 0
  IsNew s =
      (s.pool.queue ≡ [])
      × (s.pool.accepting ≡ true)
      × (s.pool.active ≡ 0)
      × (s.pool.worker ≡ waiting)
      × (s.pool.calls ≡ [])
      × (s.accepted ≡ [])

pub data Step {Req Res : Type 0} (s : System Req Res) : System Req Res → Type 0 where
  submits : (job : InferenceJob Req) (now : ℕ) → IsAnswerable job → Step s (submitted s job now)
  closes : Step s (record s { pool = close s.pool })
  works :
      (now : ℕ) (inference : Inference Res)
      → Step s (record s { pool = worker_step s.pool now inference })

pub data Reach {Req Res : Type 0} (s : System Req Res) : System Req Res → Type 0 where
  here : Reach s s
  next : {t u : System Req Res} → Reach s t → Step t u → Reach s u

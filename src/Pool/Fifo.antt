-- ===== src/Pool/Fifo.antt =====
-- What the pool promises its clients, without its threads: a first-in first-out line of jobs.
pub mod Refines
use voxtral_server.Pool.{
  InferenceJob, Worker, waiting, taken, running, synthesized, stopped, success, error, Call,
  InferencePool, Inference, returned, threw,
}
use voxtral_server.Pool.System.{System, IsAnswerable, Step, submits, closes, works}
use voxtral_server.Pool.Invariant.Defs.{held}
use voxtral_server.Base.{ℕ, ◌≤◌, ◌<◌, ◌≡◌, Bool, true, false, List, ◌∷◌, ◌++◌, length, is_empty, []}

-- The jobs that wait for their answers, oldest first, the callbacks so far, and the gate.
pub record Fifo (Req Res : Type 0) : Type 0 where
  pub pending : List (InferenceJob Req)
  pub calls : List (Call Req Res)
  pub is_open : Bool

-- `Made request result`: the backend may make this result of this request.
module _ {Req Res : Type 0} (Made : Req → Res → Type 0) where
  -- A success comes before the job's deadline, with a result that was made of the job's own request; an
  -- error has a message.
  abbrev pub IsProper : Call Req Res → Type 0
  IsProper c = elim c.answer [
    | success r ↦ Made c.job.request r × (c.at < c.job.deadline)
    | error message ↦ is_empty message ≡ false
  ]

  -- What may happen to the line: a job joins at the back of an open line that is not too long, the
  -- job at the front is answered, the gate closes for good, or nothing happens that a client sees.
  pub data FifoStep (most : ℕ) (f g : Fifo Req Res) : Type 0 where
    joins :
        (job : InferenceJob Req)
        → IsAnswerable job
        → f.is_open ≡ true
        → length f.pending ≤ most
        → g ≡ record f { pending = f.pending ++ job ∷ [] }
        → FifoStep most f g
    answers :
        (c : Call Req Res) (rest : List (InferenceJob Req))
        → f.pending ≡ c.job ∷ rest
        → IsProper c
        → g ≡ record f { pending = rest; calls = f.calls ++ c ∷ [] }
        → FifoStep most f g
    shuts : g ≡ record f { is_open = false } → FifoStep most f g
    rests : g ≡ f → FifoStep most f g

  pub data FifoRun (most : ℕ) (f : Fifo Req Res) : Fifo Req Res → Type 0 where
    stays : FifoRun most f f
    steps : {g h : Fifo Req Res} → FifoRun most f g → FifoStep most g h → FifoRun most f h

  -- The worker meets no result that the backend does not make of the request in its hands.
  abbrev pub Backs : {s t : System Req Res} → Step s t → Type 0
  Backs (submits job now a) = Unit
  Backs closes = Unit
  Backs {s} (works now inference) =
      (job : InferenceJob Req) (result : Res)
      → s.pool.worker ≡ running job
      → inference ≡ returned result
      → Made job.request result

  -- Any interleaving of clients with a worker that such a backend serves.
  pub data BackedReach (s : System Req Res) : System Req Res → Type 0 where
    begins : BackedReach s s
    goes : {t u : System Req Res} → BackedReach s t → (st : Step t u) → Backs st → BackedReach s u

-- The line that a pool stands for.
unfoldable pub fifo : {Req Res : Type 0} → InferencePool Req Res → Fifo Req Res
fifo p = record { pending = held p.worker ++ p.queue; calls = p.calls; is_open = p.accepting }

-- ===== src/Service.antt =====
-- The parts of the server together: a handler (src/server/request_handler.cpp) over the pool
-- (src/tts/inference_pool.cpp) over the backend (src/tts/voxtral_backend.cpp).
pub mod Audio
mod Tests
use voxtral_server.Backend.{SynthesisRequest, SynthesisResult}
use voxtral_server.Backend.Engine.{Engine, State, synthesize}
use voxtral_server.Base.Float.{Double}
use voxtral_server.Base.Int.{ℤ}
use voxtral_server.Pool.{InferenceJob, Call, returned}
use voxtral_server.Pool.System.{System}
use voxtral_server.Handler.Speech.{PoolAnswers}
use voxtral_server.Base.{ℕ, ◌≡◌, some, get_elem?}

-- The handler's job was answered by a call of the pool's worker: the call is among those of the pool,
-- for a job with the handler's request, and brings the answer that the handler waits for.
abbrev pub IsAnswered :
    System SynthesisRequest SynthesisResult → PoolAnswers → InferenceJob SynthesisRequest → Type 0
IsAnswered t pool job =
    (i : ℕ) × (c : Call SynthesisRequest SynthesisResult) × (get_elem? t.pool.calls i ≡ some c)
    × (c.job.request ≡ job.request)
    × (c.answer ≡ pool.answer job)

-- What a backend in this state makes of a request.
abbrev pub Synthesizes :
    (engine : Engine) → State engine → SynthesisRequest → SynthesisResult → Type 0
Synthesizes engine b request result =
    (seconds : ℤ → Double) × (time : Double) × ((synthesize engine request seconds time b).1
      ≡ returned result)

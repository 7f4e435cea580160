-- ===== src/Service/Audio.antt =====
-- What a client hears: the audio of a response with status 200.
use voxtral_server.Backend.{SynthesisRequest, SynthesisResult}
use voxtral_server.Backend.Voxtral.{PathInfo}
use voxtral_server.Backend.Engine.{Engine, c_str, State, initialize}
use voxtral_server.Backend.Engine.Outcomes.{IsSynthesized, synthesize-IsSynthesized}
use voxtral_server.Metrics.{Metrics}
use voxtral_server.Pool.{Answer, success, error, Call, returned}
use voxtral_server.Pool.System.{System, IsNew}
use voxtral_server.Pool.Fifo.{IsProper, BackedReach}
use voxtral_server.Pool.Fifo.Refines.{calls-IsProper}
use voxtral_server.Handler.{HttpRequest, HttpResponse}
use voxtral_server.Handler.Json.{JsonApi}
use voxtral_server.Handler.Speech
use voxtral_server.Handler.Speech.{
  PoolAnswers, HandlerDeps, Handled, job_for, error_of, result_of, handle_speech,
}
use voxtral_server.Handler.Accepted.{IsAccepted}
use voxtral_server.Handler.Outcomes.{IsEarned, handle_speech-IsEarned}
use voxtral_server.Service.{IsAnswered, Synthesizes}
use voxtral_server.Base.{
  ℕ, zero, suc, ◌+◌, ◌*◌, ◌^◌, ◌<◌, ◌≡◌, true, Option, some, List, [], ◌∷◌, get_elem?, All, Bytes,
  is_empty,
}
use voxtral_server.Base.Int.{pos_part}

All-get_elem? {ℓ κ} :
    {A : Type ℓ} (P : A → Type κ) (xs : List A) (i : ℕ) (a : A)
    → All P xs
    → get_elem? xs i ≡ some a
    → P a
All-get_elem? P [] i a h e = cc e
All-get_elem? P (x ∷ xs) zero a h e = let same : x ≡ a = cc e in rw same at h.0
All-get_elem? P (x ∷ xs) (suc i) a h e = All-get_elem? P xs i a h.1 e

module _ (json : JsonApi) (engine : Engine) where
  open engine use {Ctx, load, generate}

  -- An answer without a message is a result that the backend has made of the job's request.
  answer_made :
      (Made : SynthesisRequest → SynthesisResult → Type 0)
      (c : Call SynthesisRequest SynthesisResult) (answer : Answer SynthesisResult)
      → IsProper Made c
      → c.answer ≡ answer
      → is_empty (error_of json answer) ≡ true
      → Made c.job.request (result_of json answer)
  unfolding error_of result_of
  answer_made Made c (success r) proper e empty = (rw e at proper).0
  answer_made Made c (error message) proper e empty = cc (rw e at proper, empty)

  -- The body is the audio that the engine, or the fallback without it, makes of the request.
  abbrev pub IsHeard : Option Ctx → SynthesisRequest → Bytes → Type 0
  IsHeard c r body =
      (result : SynthesisResult) × IsSynthesized engine r c (returned result)
      × (body ≡ result.audio_data)

  made-IsSynthesized :
      (s : State engine) (model_path : Bytes) (info : PathInfo) (r : SynthesisRequest)
      (result : SynthesisResult)
      → ((c : Option Ctx) (text voice : Bytes)
          → 44 + pos_part (generate c text voice).n_samples * 2 < 2 ^ 32)
      → (initialize engine model_path info s).1 ≡ true
      → Synthesizes engine (initialize engine model_path info s).0 r result
      → IsSynthesized engine r (load (c_str model_path)) (returned result)
  made-IsSynthesized s model_path info r result fits ok (seconds, time, e) = rw e at (
      synthesize-IsSynthesized engine s model_path info r seconds time
        (λ c. fits c (c_str r.text) (c_str r.voice)) ok)

  IsEarned-returned :
      (req : HttpRequest) (deps : HandlerDeps) (out : Metrics × Handled) (resp : HttpResponse)
      → out.1 ≡ Speech.returned resp
      → IsEarned json req deps out
      → IsEarned json req deps (out.0, Speech.returned resp)
  IsEarned-returned req deps out resp e h = rw e at h

  -- For a pool, reached from its constructor's state, whose worker meets only results that a
  -- backend makes after a successful `initialize` of it, an engine whose `tts_generate` never
  -- answers with more samples than a file of 32-bit size holds, and a handler whose pool
  -- answers it by a call that the worker made for its request: if `handle_speech` returns a
  -- response with status 200, then there is a request that is what the body asks for and that
  -- every validation accepts, and the response's body is the audio that a successful call of
  -- the backend gives for it: the WAV file of the samples that the engine made of its text
  -- and voice, up to a zero byte, or, where the model did not load, of a second of silence.
  pub handle_speech-IsHeard :
      (state : State engine) (model_path : Bytes) (info : PathInfo)
      {s t : System SynthesisRequest SynthesisResult} (req : HttpRequest) (deps : HandlerDeps)
      (pool : PoolAnswers) (m : Metrics) (resp : HttpResponse)
      → (initialize engine model_path info state).1 ≡ true
      → ((c : Option Ctx) (text voice : Bytes)
          → 44 + pos_part (generate c text voice).n_samples * 2 < 2 ^ 32)
      → IsNew s
      → BackedReach (Synthesizes engine (initialize engine model_path info state).0) s t
      → deps.pool ≡ some pool
      → ((r : SynthesisRequest) → IsAccepted json req deps r → IsAnswered t pool (job_for json r))
      → (handle_speech json req deps m).1 ≡ Speech.returned resp
      → resp.status ≡ 200
      → (r : SynthesisRequest) × IsAccepted json req deps r
        × IsHeard (load (c_str model_path)) r resp.binary_body
  handle_speech-IsHeard state model_path info req deps pool m resp init fits new reach has_pool
        answered e ok =
      let (r, answers, accepted, its_pool, (ready, taken, no_error), body) =
        IsEarned-returned req deps (handle_speech json req deps m) resp e
          (handle_speech-IsEarned json req deps m) ok in
      let same : answers ≡ pool = cc (has_pool, its_pool) in
      let (i, c, at, request, answer) = answered r accepted in
      let proper = All-get_elem? _ _ i c (calls-IsProper _ new reach) at in
      let made =
        answer_made (Synthesizes engine (initialize engine model_path info state).0) c
          (pool.answer (job_for json r)) proper answer (rw same at no_error) in
      let its_request : c.job.request ≡ r = unfold job_for in request in
      let heard : IsSynthesized engine r (load (c_str model_path))
          (returned (result_of json (pool.answer (job_for json r)))) =
        made-IsSynthesized state model_path info r _ fits init (rw its_request at made) in
      (r, accepted, (result_of json (pool.answer (job_for json r)), heard, rw same at body))

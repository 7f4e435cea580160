-- ===== src/Handler/Outcomes.antt =====
-- What the client of `handle_speech` gets, with the pool's part in it.
use voxtral_server.Base.Float.{Double}
use voxtral_server.Backend.{SynthesisRequest, SynthesisResult}
use voxtral_server.Metrics.{Metrics, count_request}
use voxtral_server.Pool.{Answer}
use voxtral_server.Handler.{HttpRequest, HttpResponse, make_error_response}
use voxtral_server.Handler.Json.{JsonApi}
use voxtral_server.Handler.Speech.{
  Check, refused, uncaught, checked, PoolAnswers, HandlerDeps, Handled, returned, threw,
  check_speech, record_request, job_for, respond, await, speak, with_pool, handle_speech, not_ready,
  error_of, result_of,
}
use voxtral_server.Handler.Refusals.{check_speech-IsCounted}
use voxtral_server.Base.{
  ℕ, ◌≤◌, ◌≡◌, refl, inl, inr, true, Option, none, some, arith, Bool-cases, is_empty,
}
use voxtral_server.Base.Int.{pos}
use voxtral_server.Handler.Accepted.{IsAccepted, check_speech-Ensures}

module _ (json : JsonApi) where
  -- The pool has answered with this result: it accepted, took the job, and reported no error.
  abbrev pub IsServed : PoolAnswers → SynthesisRequest → Type 0
  IsServed pool r =
      (pool.is_accepting ≡ true)
      × (pool.submit (job_for json r) ≡ true)
      × (is_empty (error_of json (pool.answer (job_for json r))) ≡ true)

  -- What lies behind a response, if its status is 200.
  abbrev pub IsEarned : HttpRequest → HandlerDeps → Metrics × Handled → Type 0
  IsEarned req deps (m, threw) = Unit
  IsEarned req deps (m, returned resp) =
      resp.status ≡ 200
      → (r : SynthesisRequest) × (pool : PoolAnswers) × IsAccepted json req deps r
        × (deps.pool ≡ some pool)
        × IsServed pool r
        × (resp.binary_body ≡ (result_of json (pool.answer (job_for json r))).audio_data)

  -- What lies behind a response of a pool that has taken the job, if its status is 200.
  abbrev IsAudio : Answer SynthesisResult → Metrics × Handled → Type 0
  IsAudio answer (m, threw) = Unit
  IsAudio answer (m, returned resp) =
      resp.status ≡ 200
      → (is_empty (error_of json answer) ≡ true)
        × (resp.binary_body ≡ (result_of json answer).audio_data)

  await-IsAudio :
      (answer : Answer SynthesisResult) (depth : ℕ) (secs : Double) (m : Metrics)
      → IsAudio answer (await json answer depth secs m)
  unfolding await respond make_error_response
  await-IsAudio answer depth secs m = elim (Bool-cases (is_empty (error_of json answer))) [
    | inl ok ↦ rw ok λ e. (ok, refl)
    | inr failed ↦ rw failed λ e. ground (arith, e)
  ]

  not-IsEarned :
      (req : HttpRequest) (deps : HandlerDeps) (m : Metrics) (resp : HttpResponse)
      → 400 ≤ resp.status
      → IsEarned req deps (m, returned resp)
  not-IsEarned req deps m resp bad ok = ground (arith, bad, ok)

  not_ready-IsEarned :
      (req : HttpRequest) (deps : HandlerDeps) (m : Metrics) → IsEarned req deps (not_ready json m)
  unfolding make_error_response
  not_ready-IsEarned req deps m = λ ok. ground (arith, ok)

  earned :
      (req : HttpRequest) (deps : HandlerDeps) (r : SynthesisRequest) (pool : PoolAnswers)
      (h : Metrics × Handled)
      → IsAccepted json req deps r
      → deps.pool ≡ some pool
      → pool.is_accepting ≡ true
      → pool.submit (job_for json r) ≡ true
      → IsAudio (pool.answer (job_for json r)) h
      → IsEarned req deps h
  earned req deps r pool (m, threw) a p ready taken audio = tt
  earned req deps r pool (m, returned resp) a p ready taken audio =
      λ ok. let (no_error, same) = audio ok in (r, pool, a, p, (ready, taken, no_error), same)

  abbrev taken_metrics : SynthesisRequest → PoolAnswers → Metrics → Metrics
  taken_metrics r pool m = record (record_request json r pool.depth_before m) {
    queue_depth = pos pool.depth_after;
  }

  speak-IsEarned :
      (req : HttpRequest) (deps : HandlerDeps) (r : SynthesisRequest) (pool : PoolAnswers)
      (m : Metrics)
      → IsAccepted json req deps r
      → deps.pool ≡ some pool
      → pool.is_accepting ≡ true
      → IsEarned req deps (speak json pool r deps.synthesis_secs m)
  unfolding speak make_error_response
  speak-IsEarned req deps r pool m a p ready = elim (Bool-cases (pool.submit (job_for json r))) [
    | inl taken ↦ rw taken (
        earned req deps r pool
          (await json (pool.answer (job_for json r)) pool.depth_end deps.synthesis_secs
            (taken_metrics r pool m))
          a p ready taken
          (await-IsAudio (pool.answer (job_for json r)) pool.depth_end deps.synthesis_secs
            (taken_metrics r pool m)))
    | inr full ↦ rw full λ ok. ground (arith, ok)
  ]

  with_pool-IsEarned :
      (req : HttpRequest) (deps : HandlerDeps) (r : SynthesisRequest) (m : Metrics)
      → IsAccepted json req deps r
      → (o : Option PoolAnswers) → deps.pool ≡ o
      → IsEarned req deps (with_pool json o r deps.synthesis_secs m)
  unfolding with_pool
  with_pool-IsEarned req deps r m a none p = not_ready-IsEarned req deps m
  with_pool-IsEarned req deps r m a (some pool) p = elim (Bool-cases pool.is_accepting) [
    | inl ready ↦ simp ready (speak-IsEarned req deps r pool m a p ready)
    | inr shut ↦ simp shut (not_ready-IsEarned req deps m)
  ]

  -- If `handle_speech` returns a response with status 200, then there are a request that is
  -- what the body asks for and that every validation accepts, and a pool among the
  -- dependencies that was accepting, took the request's job and answered it with a result, or
  -- with an error whose message is empty, and the response's body is the audio of that
  -- result, or empty.
  pub handle_speech-IsEarned :
      (req : HttpRequest) (deps : HandlerDeps) (m : Metrics)
      → IsEarned req deps (handle_speech json req deps m)
  unfolding handle_speech
  handle_speech-IsEarned req deps m = of_check (check_speech json req deps) refl
    where
      of_check :
          (c : Check SynthesisRequest)
          → check_speech json req deps ≡ c
          → IsEarned req deps (handle_speech json req deps m)
      of_check (refused status resp) e =
          let (_, (low, _)) = rw e at (check_speech-IsCounted json req deps) in
          rw (e, handle_speech) (not-IsEarned req deps (count_request status m) resp low)
      of_check uncaught e = rw (e, handle_speech) tt
      of_check (checked r) e =
          rw (e, handle_speech)
            (with_pool-IsEarned req deps r m (rw e at (check_speech-Ensures json req deps))
              deps.pool refl)

-- ===== src/Handler/Accounting.antt =====
-- What `handle_speech` leaves in the metrics, on every path.
use voxtral_server.Base.Float.{Double}
use voxtral_server.Backend.{SynthesisRequest, SynthesisResult}
use voxtral_server.Metrics.{Metrics, increment, decrement, count_request, count_voice}
use voxtral_server.Metrics.Laws.{decrement-increment}
use voxtral_server.Pool.{Answer}
use voxtral_server.Handler.{HttpRequest, HttpResponse, make_error_response}
use voxtral_server.Handler.Json.{JsonApi}
use voxtral_server.Handler.Speech.{
  Check, refused, uncaught, checked, PoolAnswers, HandlerDeps, Handled, returned, threw, not_ready,
  error_of, check_speech, record_request, job_for, respond, await, speak, with_pool, handle_speech,
}
use voxtral_server.Base.{
  ℕ, ◌+◌, ◌<◌, ◌≡◌, refl, sym, ap, ◌∙◌, inl, inr, Option, none, some, [], arith, ◌==◌,
  if◌then◌else◌, Bool-cases, Bytes, bytes, is_empty,
}
use voxtral_server.Base.Int.{ℤ, pos}
use voxtral_server.Handler.Refusals.{check_speech-IsCounted}

-- The counters of a request after it: the response's status has been counted once, an inference
-- error too if the status is 500, and no job is left active. An exception leaves no trace.
abbrev pub IsAccounted : Metrics → Metrics × Handled → Type 0
IsAccounted m (m', returned resp) =
    (m'.requests_total ≡ (count_request resp.status m).requests_total)
    × (m'.active_jobs ≡ m.active_jobs)
    × (m'.errors_total ≡ m.errors_total + (if resp.status == 500 then 1 else 0))
IsAccounted m (m', threw) = m' ≡ m

module _ (json : JsonApi) where
  -- The metrics of a request that has become active.
  record Active (m m' : Metrics) : Type 0 where
    requests : m'.requests_total ≡ m.requests_total
    active : m'.active_jobs ≡ increment m.active_jobs
    errors : m'.errors_total ≡ m.errors_total

  inactive : (g g' : ℤ) → g' ≡ increment g → decrement g' ≡ g
  inactive g g' e = ap decrement e ∙ decrement-increment g

  counted-eq :
      (status : ℕ) (m m' : Metrics)
      → m'.requests_total ≡ m.requests_total
      → (count_request status m').requests_total ≡ (count_request status m).requests_total
  unfolding count_request
  counted-eq status m m' e = λ i s. if s == status then e i s + 1 else e i s

  await-IsAccounted :
      (m m' : Metrics) (answer : Answer SynthesisResult) (depth : ℕ) (secs : Double)
      → Active m m'
      → IsAccounted m (await json answer depth secs m')
  unfolding await respond make_error_response count_request
  await-IsAccounted m m' answer depth secs a = elim (Bool-cases (is_empty (error_of json answer))) [
    | inl ok ↦ rw ok (
      counted-eq 200 m m' a.requests,
      inactive m.active_jobs m'.active_jobs a.active,
      omega (arith, a.errors),
    )
    | inr failed ↦ rw failed (
      counted-eq 500 m m' a.requests,
      inactive m.active_jobs m'.active_jobs a.active,
      omega (arith, a.errors),
    )
  ]

  record_request-Active :
      (request : SynthesisRequest) (depth : ℕ) (m : Metrics)
      → Active m (record_request json request depth m)
  unfolding record_request count_voice
  record_request-Active request depth m = record { requests = refl; active = refl; errors = refl }

  rejected-IsAccounted :
      (m m' : Metrics) (code message : Bytes)
      → Active m m'
      → IsAccounted m (
        count_request 503 (record m' { active_jobs = decrement m'.active_jobs }),
        returned (make_error_response json 503 (bytes "server_error") code message []),
      )
  unfolding make_error_response count_request
  rejected-IsAccounted m m' code message a = (
    counted-eq 503 m m' a.requests,
    inactive m.active_jobs m'.active_jobs a.active,
    omega (arith, a.errors),
  )

  not_ready-IsAccounted : (m : Metrics) → IsAccounted m (not_ready json m)
  unfolding make_error_response count_request
  not_ready-IsAccounted m = (refl, refl, omega arith)

  speak-IsAccounted :
      (pool : PoolAnswers) (request : SynthesisRequest) (secs : Double) (m : Metrics)
      → IsAccounted m (speak json pool request secs m)
  unfolding speak
  speak-IsAccounted pool request secs m =
      let m' = record_request json request pool.depth_before m in
      let a = record_request-Active request pool.depth_before m in
      elim (Bool-cases (pool.submit (job_for json request))) [
        | inl taken ↦ rw taken (
            await-IsAccounted m (record m' { queue_depth = pos pool.depth_after })
              (pool.answer (job_for json request)) pool.depth_end secs
              (record { requests = a.requests; active = a.active; errors = a.errors }))
        | inr full ↦ rw full (rejected-IsAccounted m m' _ _ a)
      ]

  with_pool-IsAccounted :
      (pool : Option PoolAnswers) (request : SynthesisRequest) (secs : Double) (m : Metrics)
      → IsAccounted m (with_pool json pool request secs m)
  unfolding with_pool
  with_pool-IsAccounted none request secs m = not_ready-IsAccounted m
  with_pool-IsAccounted (some pool) request secs m = elim (Bool-cases pool.is_accepting) [
    | inl ready ↦ simp ready (speak-IsAccounted pool request secs m)
    | inr shut ↦ simp shut (not_ready-IsAccounted m)
  ]

  refused-IsAccounted :
      (m : Metrics) (status : ℕ) (resp : HttpResponse)
      → resp.status ≡ status
      → resp.status < 500
      → IsAccounted m (count_request status m, returned resp)
  unfolding count_request
  refused-IsAccounted m status resp e small =
      (ap (λ s. (count_request s m).requests_total) (sym e), refl, ground (arith, e, small))

  -- If `handle_speech` returns a response, then its status has been counted once and no other
  -- status, the gauge of active jobs is as before, and the errors have grown by one if the
  -- status is 500 and not otherwise; if an exception leaves it, the metrics are as before.
  pub handle_speech-IsAccounted :
      (req : HttpRequest) (deps : HandlerDeps) (m : Metrics)
      → IsAccounted m (handle_speech json req deps m)
  unfolding handle_speech
  handle_speech-IsAccounted req deps m = of_check (check_speech json req deps) refl
    where
      of_check :
          (c : Check SynthesisRequest)
          → check_speech json req deps ≡ c
          → IsAccounted m (handle_speech json req deps m)
      of_check (refused status resp) e =
          let (same, (_, small)) = rw e at (check_speech-IsCounted json req deps) in
          rw (e, handle_speech) (refused-IsAccounted m status resp same small)
      of_check uncaught e = rw (e, handle_speech) refl
      of_check (checked request) e =
          rw (e, handle_speech) (with_pool-IsAccounted deps.pool request deps.synthesis_secs m)

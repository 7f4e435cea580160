-- ===== src/Handler/Speech.antt =====
-- `handle_speech` (src/server/request_handler.cpp), with the pool and the clock as its environment.
use voxtral_server.Base.Decimal.{to_string}
use voxtral_server.Base.Float.{Double, one}
use voxtral_server.Backend.{SynthesisRequest, SynthesisResult, no_result}
use voxtral_server.Config.{ServerConfig}
use voxtral_server.Metrics.{Metrics, increment, decrement, count_request, count_voice}
use voxtral_server.Pool.{InferenceJob, Answer, success, error}
use voxtral_server.Validation.{
  ValidationResult, validate_content_type, validate_body_size, default_max_body_bytes,
  validate_model, validate_input, validate_voice, validate_response_format, validate_speed,
}
use voxtral_server.Voices.{VoiceCatalog}
use voxtral_server.Handler.{
  HttpRequest, header, HttpResponse, make_error_response, make_error_from_validation,
}
use voxtral_server.Handler.Json.{JsonApi, parsed, parse_error, other_error}
use voxtral_server.Base.{
  ℕ, ◌+◌, Bool, true, not, Option, none, some, [], ◌∷◌, if◌then◌else◌, length, Bytes, bytes,
  is_empty, assign,
}
use voxtral_server.Base.Int.{ℤ, pos}

-- How the checks end: with a refusal and the status that is counted for it, with an exception that
-- `handle_speech` does not catch, or with a value.
pub data Check {ℓ} (A : Type ℓ) : Type ℓ where
  refused : ℕ → HttpResponse → Check A
  uncaught : Check A
  checked : A → Check A

infixl 5 ◌>>=◌ ◌>>◌
abbrev pub ◌>>=◌ {ℓ κ} : {A : Type ℓ} {B : Type κ} → Check A → (A → Check B) → Check B
refused status resp >>= f = refused status resp
uncaught >>= f = uncaught
checked a >>= f = f a

abbrev pub ◌>>◌ {ℓ} : {B : Type ℓ} → Check (Unit {0}) → Check B → Check B
m >> k = m >>= λ _. k

-- The answers of the pool to this request. Other threads use it meanwhile, so that the depths are
-- readings of their own. `answer` is the call of one of the two callbacks.
pub record PoolAnswers : Type 0 where
  pub is_accepting : Bool
  pub depth_before : ℕ
  pub submit : InferenceJob SynthesisRequest → Bool
  pub depth_after : ℕ
  pub answer : InferenceJob SynthesisRequest → Answer SynthesisResult
  pub depth_end : ℕ

pub record HandlerDeps : Type 0 where
  pub voice_catalog : Option VoiceCatalog
  pub pool : Option PoolAnswers
  pub config : Option ServerConfig
  -- `synthesis_end - synthesis_start`
  pub synthesis_secs : Double

abbrev pub max_chars_of : Option ServerConfig → ℤ
max_chars_of none = pos 4096
max_chars_of (some c) = c.max_input_chars

-- What `handle_speech` did: it returned a response, or an exception left it.
pub data Handled : Type 0 where
  returned : HttpResponse → Handled
  threw : Handled

module _ (json : JsonApi) where
  -- `if (!v.valid)`: `status` is counted, and the result's own status is sent.
  unfoldable pub require : ℕ → ValidationResult → Check (Unit {0})
  require status v =
      if v.valid then checked tt else refused status (make_error_from_validation json v)

  unfoldable pub require_voice : Option VoiceCatalog → Bytes → Check (Unit {0})
  require_voice none voice = checked tt
  require_voice (some catalog) voice = require 400 (validate_voice voice catalog)

  unfoldable pub parse_body : Bytes → Check json.Value
  parse_body body = elim (json.parse body) [
    | parsed value ↦ checked value
    | parse_error ↦ refused 400 (
        make_error_response json 400 (bytes "invalid_request_error") (bytes "invalid_content_type")
          (bytes "Invalid JSON in request body.") [])
    | other_error ↦ uncaught
  ]

  unfoldable pub or_uncaught {ℓ} : {A : Type ℓ} → Option A → Check A
  or_uncaught none = uncaught
  or_uncaught (some a) = checked a

  -- Steps 1 to 4.
  unfoldable pub check_speech : HttpRequest → HandlerDeps → Check SynthesisRequest
  check_speech req deps = do
    require 400 (validate_content_type (header req (bytes "content-type")))
    let sz_result = validate_body_size (length req.body) default_max_body_bytes
    require sz_result.http_status sz_result
    body ← parse_body req.body
    model ← or_uncaught (json.text_value body (bytes "model") [])
    require 400 (validate_model model)
    input ← or_uncaught (json.text_value body (bytes "input") [])
    require 400 (validate_input input (max_chars_of deps.config))
    voice ← or_uncaught (json.text_value body (bytes "voice") [])
    require_voice deps.voice_catalog voice
    response_format ← or_uncaught (json.text_value body (bytes "response_format") (bytes "wav"))
    require 400 (validate_response_format response_format)
    speed ← or_uncaught (json.float_value body (bytes "speed") one)
    require 400 (validate_speed speed)
    checked (record {
      text = input;
      voice = voice;
      model = model;
      response_format = response_format;
      speed = speed;
    })

  -- Step 6, and the two gauges of step 7.
  unfoldable pub record_request : SynthesisRequest → ℕ → Metrics → Metrics
  record_request request depth m =
      let size = length request.text in
      let counted = count_voice request.voice (record m {
        input_characters_total = m.input_characters_total + size;
        input_characters = size ∷ m.input_characters;
      }) in
      record counted { active_jobs = increment counted.active_jobs; queue_depth = pos depth }

  -- The job of step 7: both callbacks are set, and the deadline is left to the pool.
  unfoldable pub job_for : SynthesisRequest → InferenceJob SynthesisRequest
  job_for request = record { request = request; deadline = 0; on_success = true; on_error = true }

  unfoldable pub error_of : Answer SynthesisResult → Bytes
  error_of (success result) = []
  error_of (error message) = message

  unfoldable pub result_of : Answer SynthesisResult → SynthesisResult
  result_of (success result) = result
  result_of (error message) = no_result

  -- Steps 10 and 11.
  unfoldable pub respond : SynthesisResult → Double → Metrics → Metrics × Handled
  respond result secs m = (
    count_request 200 (record m {
      synthesis_duration_seconds = secs ∷ m.synthesis_duration_seconds;
      inference_duration_seconds = result.inference_time_seconds ∷ m.inference_duration_seconds;
      audio_duration_seconds = result.duration_seconds ∷ m.audio_duration_seconds;
      audio_bytes_generated_total = m.audio_bytes_generated_total + length result.audio_data;
    }),
    returned (record {
      status = 200;
      headers =
          assign (bytes "Content-Length") (to_string (pos (length result.audio_data)))
            (assign (bytes "Content-Type") (bytes "audio/wav") []);
      body = [];
      binary_body = result.audio_data;
    }),
  )

  -- Steps 8 and 9.
  unfoldable pub await : Answer SynthesisResult → ℕ → Double → Metrics → Metrics × Handled
  await answer depth_end secs m =
      let m' = record m { active_jobs = decrement m.active_jobs; queue_depth = pos depth_end } in
      if not (is_empty (error_of answer))
      then (
        count_request 500 (record m' { errors_total = m'.errors_total + 1 }),
        returned (
            make_error_response json 500 (bytes "server_error") (bytes "inference_failed")
              (bytes "An error occurred during speech synthesis.") []),
      )
      else respond (result_of answer) secs m'

  -- Steps 6 to 11, on a pool that accepts.
  unfoldable pub speak : PoolAnswers → SynthesisRequest → Double → Metrics → Metrics × Handled
  speak pool request secs m =
      let m' = record_request request pool.depth_before m in
      if not (pool.submit (job_for request))
      then (
        count_request 503 (record m' { active_jobs = decrement m'.active_jobs }),
        returned (
            make_error_response json 503 (bytes "server_error") (bytes "queue_full")
              (bytes "Server is at capacity. Please try again later.") []),
      )
      else await (pool.answer (job_for request)) pool.depth_end secs
          (record m' { queue_depth = pos pool.depth_after })

  abbrev pub not_ready : Metrics → Metrics × Handled
  not_ready m = (
    count_request 503 m,
    returned (
        make_error_response json 503 (bytes "server_error") (bytes "model_not_ready")
          (bytes "The model is not ready to accept requests. Try again later.") []),
  )

  -- Step 5.
  unfoldable pub with_pool :
      Option PoolAnswers → SynthesisRequest → Double → Metrics → Metrics × Handled
  with_pool none request secs m = not_ready m
  with_pool (some pool) request secs m =
      if not pool.is_accepting then not_ready m else speak pool request secs m

  unfoldable pub handle_speech : HttpRequest → HandlerDeps → Metrics → Metrics × Handled
  handle_speech req deps m = elim (check_speech req deps) [
    | refused status resp ↦ (count_request status m, returned resp)
    | uncaught ↦ (m, threw)
    | checked request ↦ with_pool deps.pool request deps.synthesis_secs m
  ]

-- ===== src/Handler/Refusals.antt =====
-- The refusals of the checks of `handle_speech`.
use voxtral_server.Validation.{
  ValidationResult, passed, make_validation_error, validate_content_type, validate_body_size,
  validate_model, validate_input, validate_voice, validate_response_format, validate_speed,
}
use voxtral_server.Voices.{VoiceCatalog}
use voxtral_server.Handler.{HttpRequest, make_error_response, make_error_from_validation}
use voxtral_server.Handler.Json.{JsonApi, Parsed, parsed, parse_error, other_error}
use voxtral_server.Handler.Speech.{
  Check, refused, uncaught, checked, ◌>>=◌, HandlerDeps, require, require_voice, parse_body,
  or_uncaught, check_speech,
}
use voxtral_server.Base.{
  ℕ, ◌≤◌, ◌<◌, ◌≡◌, refl, ◌⊎◌, inl, inr, true, Option, none, some, arith, Bool-cases, Bytes,
}
use voxtral_server.Base.Int.{ℤ}

abbrev pub IsClientError : ℕ → Type 0
IsClientError status = (400 ≤ status) × (status < 500)

-- A refusal counts the status that it sends, which is a client error.
abbrev pub IsCounted {ℓ} : {A : Type ℓ} → Check A → Type 0
IsCounted (refused status resp) = (resp.status ≡ status) × IsClientError resp.status
IsCounted uncaught = Unit
IsCounted (checked a) = Unit

>>=-IsCounted {ℓ κ} :
    {A : Type ℓ} {B : Type κ} (m : Check A) (f : A → Check B)
    → IsCounted m
    → ((a : A) → IsCounted (f a))
    → IsCounted (m >>= f)
>>=-IsCounted (refused status resp) f h k = h
>>=-IsCounted uncaught f h k = tt
>>=-IsCounted (checked a) f h k = k a

-- A result that is valid, or has this status.
abbrev Refuses : ℕ → ValidationResult → Type 0
Refuses status v =
    (v.valid ≡ true) ⊎ ((v.http_status ≡ status) × (400 ≤ v.http_status) × (v.http_status < 500))

module _ (json : JsonApi) where
  require-IsCounted :
      (status : ℕ) (v : ValidationResult) → Refuses status v → IsCounted (require json status v)
  unfolding require make_error_from_validation make_error_response
  require-IsCounted status v (inl ok) = rw ok tt
  require-IsCounted status v (inr (same, low, high)) = elim (Bool-cases v.valid) [
    | inl ok ↦ rw ok tt
    | inr no_good ↦ rw no_good (same, (low, high))
  ]

  content_type-IsCounted : (s : Bytes) → IsCounted (require json 400 (validate_content_type s))
  content_type-IsCounted s = require-IsCounted 400 _ refuses
    where
      refuses : Refuses 400 (validate_content_type s)
      refuses = unfold validate_content_type passed make_validation_error in ground arith

  body_size-IsCounted :
      (n most : ℕ)
      → IsCounted (require json (validate_body_size n most).http_status (validate_body_size n most))
  body_size-IsCounted n most = require-IsCounted _ _ refuses
    where
      refuses : Refuses (validate_body_size n most).http_status (validate_body_size n most)
      refuses = unfold validate_body_size passed make_validation_error in ground arith

  model-IsCounted : (model : Bytes) → IsCounted (require json 400 (validate_model model))
  model-IsCounted model = require-IsCounted 400 _ refuses
    where
      refuses : Refuses 400 (validate_model model)
      refuses = unfold validate_model passed make_validation_error in ground arith

  input-IsCounted :
      (input : Bytes) (limit : ℤ) → IsCounted (require json 400 (validate_input input limit))
  input-IsCounted input limit = require-IsCounted 400 _ refuses
    where
      refuses : Refuses 400 (validate_input input limit)
      refuses = unfold validate_input passed make_validation_error in ground arith

  voice-IsCounted :
      (catalog : Option VoiceCatalog) (voice : Bytes) → IsCounted (require_voice json catalog voice)
  unfolding require_voice
  voice-IsCounted none voice = tt
  voice-IsCounted (some c) voice = require-IsCounted 400 _ refuses
    where
      refuses : Refuses 400 (validate_voice voice c)
      refuses = unfold validate_voice passed make_validation_error in ground arith

  format-IsCounted :
      (format : Bytes) → IsCounted (require json 400 (validate_response_format format))
  format-IsCounted format = require-IsCounted 400 _ refuses
    where
      refuses : Refuses 400 (validate_response_format format)
      refuses = unfold validate_response_format passed make_validation_error in ground arith

  speed-IsCounted : (speed : ℕ) → IsCounted (require json 400 (validate_speed speed))
  speed-IsCounted speed = require-IsCounted 400 _ refuses
    where
      refuses : Refuses 400 (validate_speed speed)
      refuses = unfold validate_speed passed make_validation_error in ground arith

  parse_body-IsCounted : (body : Bytes) → IsCounted (parse_body json body)
  unfolding parse_body
  parse_body-IsCounted body = of_parsed (json.parse body) refl
    where
      of_parsed : (p : Parsed json.Value) → json.parse body ≡ p → IsCounted (parse_body json body)
      of_parsed (parsed v) e = rw (e, parse_body) tt
      of_parsed parse_error e =
          rw (e, parse_body) (unfold make_error_response in (refl, (omega arith, omega arith)))
      of_parsed other_error e = rw (e, parse_body) tt

  or_uncaught-IsCounted {ℓ} : {A : Type ℓ} (o : Option A) → IsCounted (or_uncaught json o)
  unfolding or_uncaught
  or_uncaught-IsCounted none = tt
  or_uncaught-IsCounted (some a) = tt

  pub check_speech-IsCounted :
      (req : HttpRequest) (deps : HandlerDeps) → IsCounted (check_speech json req deps)
  unfolding check_speech
  check_speech-IsCounted req deps = >>=-IsCounted _ _ (content_type-IsCounted _) λ _.
      >>=-IsCounted _ _ (body_size-IsCounted _ _) λ _.
        >>=-IsCounted _ _ (parse_body-IsCounted _) λ body.
          >>=-IsCounted _ _ (or_uncaught-IsCounted _) λ model.
            >>=-IsCounted _ _ (model-IsCounted model) λ _.
              >>=-IsCounted _ _ (or_uncaught-IsCounted _) λ input.
                >>=-IsCounted _ _ (input-IsCounted input _) λ _.
                  >>=-IsCounted _ _ (or_uncaught-IsCounted _) λ voice.
                    >>=-IsCounted _ _ (voice-IsCounted _ voice) λ _.
                      >>=-IsCounted _ _ (or_uncaught-IsCounted _) λ format.
                        >>=-IsCounted _ _ (format-IsCounted format) λ _.
                          >>=-IsCounted _ _ (or_uncaught-IsCounted _)
                            λ speed. >>=-IsCounted _ _ (speed-IsCounted speed) λ _. tt

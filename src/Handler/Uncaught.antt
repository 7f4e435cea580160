-- ===== src/Handler/Uncaught.antt =====
-- The exceptions that leave `handle_speech`.
use voxtral_server.Backend.{SynthesisRequest}
use voxtral_server.Base.Float.{Double, one}
use voxtral_server.Metrics.{Metrics}
use voxtral_server.Validation.{
  ValidationResult, validate_content_type, validate_body_size, default_max_body_bytes,
  validate_model, validate_input, validate_voice, validate_response_format, validate_speed,
}
use voxtral_server.Voices.{VoiceCatalog}
use voxtral_server.Handler.{HttpRequest, header}
use voxtral_server.Handler.Json.{JsonApi, Parsed, parsed, parse_error, other_error}
use voxtral_server.Handler.Speech.{
  Check, refused, uncaught, checked, ◌>>=◌, ◌>>◌, PoolAnswers, HandlerDeps, Handled, returned,
  threw, max_chars_of, error_of, require, require_voice, parse_body, or_uncaught, check_speech,
  respond, await, speak, job_for, with_pool, handle_speech,
}
use voxtral_server.Base.{
  ℕ, ◌≡◌, refl, sym, ◌∙◌, ◌↔◌, inl, inr, Bool, true, false, Option, none, some, List, [], ◌∷◌,
  if◌then◌else◌, Bool-cases, length, Bytes, bytes, is_empty,
}

-- How a step of the checks finds what it looks at: as it should be, with a fault that the step
-- names in its answer, or such that the JSON library throws.
pub data Reading : Type 0 where
  fine : Reading
  faulty : Reading
  unreadable : Reading

-- The first that is not fine is unreadable.
abbrev pub Escapes : List Reading → Type 0
Escapes [] = ⊥
Escapes (fine ∷ rs) = Escapes rs
Escapes (faulty ∷ rs) = ⊥
Escapes (unreadable ∷ rs) = Unit

abbrev pub judged : Bool → Reading
judged ok = if ok then fine else faulty

unfoldable pub member : {A : Type 0} → Option A → (A → Bool) → Reading
member none ok = unreadable
member (some a) ok = judged (ok a)

unfoldable pub is_known : Option VoiceCatalog → Bytes → Bool
is_known none voice = true
is_known (some catalog) voice = (validate_voice voice catalog).valid

-- A step that goes on if `ok`, and refuses else.
abbrev IsTest : Bool → Check (Unit {0}) → Type 0
IsTest ok uncaught = ⊥
IsTest ok (checked u) = ok ≡ true
IsTest ok (refused status resp) = ok ≡ false

test-uncaught_iff :
    {B : Type 0} (ok : Bool) (m : Check (Unit {0})) (k : Check B) (rs : List Reading)
    → IsTest ok m
    → (k ≡ uncaught) ↔ Escapes rs
    → ((m >> k) ≡ uncaught) ↔ Escapes (judged ok ∷ rs)
test-uncaught_iff ok (checked u) k rs h e = rw h e
test-uncaught_iff ok (refused status resp) k rs h e = rw h (λ c. cc c, λ c. absurd c)
test-uncaught_iff ok uncaught k rs h e = absurd h

module _ (json : JsonApi) where
  -- The members of a body that is JSON, in the order in which they are read.
  unfoldable pub members_of : HandlerDeps → json.Value → List Reading
  members_of deps body =
      member (json.text_value body (bytes "model") []) (λ model. (validate_model model).valid)
      ∷ member (json.text_value body (bytes "input") [])
          (λ input. (validate_input input (max_chars_of deps.config)).valid)
      ∷ member (json.text_value body (bytes "voice") []) (is_known deps.voice_catalog)
      ∷ member (json.text_value body (bytes "response_format") (bytes "wav"))
          (λ format. (validate_response_format format).valid)
      ∷ member (json.float_value body (bytes "speed") one) (λ speed. (validate_speed speed).valid)
      ∷ []

  unfoldable pub body_of : HandlerDeps → Parsed json.Value → List Reading
  body_of deps (parsed body) = fine ∷ members_of deps body
  body_of deps parse_error = faulty ∷ []
  body_of deps other_error = unreadable ∷ []

  -- The type and the size of the request, its body, and the members of the body.
  abbrev pub readings : HttpRequest → HandlerDeps → List Reading
  readings req deps =
      judged (validate_content_type (header req (bytes "content-type"))).valid
      ∷ judged (validate_body_size (length req.body) default_max_body_bytes).valid
      ∷ body_of deps (json.parse req.body)

  require-IsTest : (status : ℕ) (v : ValidationResult) → IsTest v.valid (require json status v)
  unfolding require
  require-IsTest status v = elim (Bool-cases v.valid) [
    | inl ok ↦ rw ok refl
    | inr bad ↦ rw bad refl
  ]

  require_voice-IsTest :
      (catalog : Option VoiceCatalog) (voice : Bytes)
      → IsTest (is_known catalog voice) (require_voice json catalog voice)
  unfolding require_voice is_known
  require_voice-IsTest none voice = refl
  require_voice-IsTest (some catalog) voice = require-IsTest 400 (validate_voice voice catalog)

  member-uncaught_iff :
      {A B : Type 0} (o : Option A) (ok : A → Bool) (test : A → Check (Unit {0})) (k : A → Check B)
      (rs : List Reading)
      → ((a : A) → IsTest (ok a) (test a))
      → ((a : A) → (k a ≡ uncaught) ↔ Escapes rs)
      → ((or_uncaught json o >>= λ a. test a >> k a) ≡ uncaught) ↔ Escapes (member o ok ∷ rs)
  unfolding or_uncaught member
  member-uncaught_iff none ok test k rs h e = (λ c. tt, λ c. refl)
  member-uncaught_iff (some a) ok test k rs h e =
      test-uncaught_iff (ok a) (test a) (k a) rs (h a) (e a)

  body-uncaught_iff :
      {B : Type 0} (deps : HandlerDeps) (body : Bytes) (p : Parsed json.Value)
      (k : json.Value → Check B)
      → json.parse body ≡ p
      → ((value : json.Value) → (k value ≡ uncaught) ↔ Escapes (members_of deps value))
      → ((parse_body json body >>= k) ≡ uncaught) ↔ Escapes (body_of deps p)
  unfolding parse_body body_of
  body-uncaught_iff deps body (parsed value) k e h = rw (e, parse_body) (h value)
  body-uncaught_iff deps body parse_error k e h = rw (e, parse_body) (λ c. cc c, λ c. absurd c)
  body-uncaught_iff deps body other_error k e h = rw (e, parse_body) (λ c. tt, λ c. refl)

  check_speech-uncaught_iff :
      (req : HttpRequest) (deps : HandlerDeps)
      → (check_speech json req deps ≡ uncaught) ↔ Escapes (readings req deps)
  unfolding check_speech members_of
  check_speech-uncaught_iff req deps = test-uncaught_iff _ _ _ _ (require-IsTest 400 _) (
      test-uncaught_iff _ _ _ _ (require-IsTest _ _) (
        body-uncaught_iff deps req.body (json.parse req.body) _ refl λ body.
          member-uncaught_iff _ _ _ _ _ (λ model. require-IsTest 400 _)
            λ model.
              member-uncaught_iff _ _ _ _ _ (λ input. require-IsTest 400 _)
                λ input.
                  member-uncaught_iff _ _ _ _ _ (require_voice-IsTest deps.voice_catalog) λ voice.
                    member-uncaught_iff _ _ _ _ _ (λ format. require-IsTest 400 _)
                      λ format.
                        member-uncaught_iff _ _ _ _ _ (λ speed. require-IsTest 400 _)
                          λ speed. (λ c. cc c, λ c. absurd c)))

  IsReturned : Handled → Type 0
  IsReturned (returned resp) = Unit
  IsReturned threw = ⊥

  speak-IsReturned :
      (pool : PoolAnswers) (request : SynthesisRequest) (secs : Double) (m : Metrics)
      → IsReturned (speak json pool request secs m).1
  unfolding speak await respond IsReturned
  speak-IsReturned pool request secs m = elim (Bool-cases (pool.submit (job_for json request))) [
    | inl taken ↦
        rw taken
          (elim (Bool-cases (is_empty (error_of json (pool.answer (job_for json request))))) [
            | inl silent ↦ rw silent tt
            | inr says ↦ rw says tt
          ])
    | inr full ↦ rw full tt
  ]

  with_pool-IsReturned :
      (pool : Option PoolAnswers) (request : SynthesisRequest) (secs : Double) (m : Metrics)
      → IsReturned (with_pool json pool request secs m).1
  unfolding with_pool
  with_pool-IsReturned none request secs m = unfold IsReturned in tt
  with_pool-IsReturned (some pool) request secs m = elim (Bool-cases pool.is_accepting) [
    | inl open_ ↦ simp open_ (speak-IsReturned pool request secs m)
    | inr shut ↦ simp shut (unfold IsReturned in tt)
  ]

  not_threw : (h : Handled) → IsReturned h → h ≡ threw → ⊥
  unfolding IsReturned
  not_threw (returned resp) r e = cc e
  not_threw threw r e = r

  -- An exception leaves `handle_speech` exactly if of what the checks look at, in their order
  -- (the type and the size of the request, the body as JSON, and the members model, input,
  -- voice, response_format and speed), the first that is not as it should be makes the JSON
  -- library throw something else than a `parse_error`: the body, or a member that is not of
  -- the type that is asked for.
  pub handle_speech-threw_iff :
      (req : HttpRequest) (deps : HandlerDeps) (m : Metrics)
      → ((handle_speech json req deps m).1 ≡ threw) ↔ Escapes (readings req deps)
  unfolding handle_speech
  handle_speech-threw_iff req deps m = of_check (check_speech json req deps) refl
    where
      of_check :
          (c : Check SynthesisRequest)
          → check_speech json req deps ≡ c
          → ((handle_speech json req deps m).1 ≡ threw) ↔ Escapes (readings req deps)
      of_check uncaught e =
          let escapes = (check_speech-uncaught_iff req deps).0 e in
          (λ h. escapes, λ h. rw (e, handle_speech) refl)
      of_check (refused status resp) e =
          let answered : (handle_speech json req deps m).1 ≡ returned resp =
            rw (e, handle_speech) refl in
          (
            λ h. absurd (cc (answered, h)),
            λ h. absurd (cc (e, (check_speech-uncaught_iff req deps).1 h)),
          )
      of_check (checked request) e =
          let answered : (handle_speech json req deps m).1
              ≡ (with_pool json deps.pool request deps.synthesis_secs m).1 =
            rw (e, handle_speech) refl in
          (
            λ h. absurd (
                not_threw _ (with_pool-IsReturned deps.pool request deps.synthesis_secs m)
                  (sym answered ∙ h)),
            λ h. absurd (cc (e, (check_speech-uncaught_iff req deps).1 h)),
          )

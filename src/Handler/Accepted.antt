-- ===== src/Handler/Accepted.antt =====
-- The requests that pass every check of `handle_speech`.
use voxtral_server.Base.Float.{one}
use voxtral_server.Backend.{SynthesisRequest}
use voxtral_server.Validation.{
  ValidationResult, validate_content_type, validate_body_size, default_max_body_bytes,
  validate_model, validate_input, validate_voice, validate_response_format, validate_speed,
}
use voxtral_server.Voices.{VoiceCatalog}
use voxtral_server.Handler.{HttpRequest, header}
use voxtral_server.Handler.Json.{JsonApi, Parsed, parsed, parse_error, other_error}
use voxtral_server.Handler.Speech.{
  Check, refused, uncaught, checked, ◌>>=◌, HandlerDeps, max_chars_of, require, require_voice,
  parse_body, or_uncaught, check_speech,
}
use voxtral_server.Base.{ℕ, ◌≡◌, refl, true, Option, none, some, [], arith, length, Bytes, bytes}

-- What holds of the value, if the checks end with one.
abbrev pub Ensures {ℓ} : {A : Type ℓ} → (A → Type 0) → Check A → Type 0
Ensures P (checked a) = P a
Ensures P (refused status resp) = Unit
Ensures P uncaught = Unit

>>=-Ensures {ℓ κ} :
    {A : Type ℓ} {B : Type κ} (P : B → Type 0) (m : Check A) (f : A → Check B)
    → ((a : A) → m ≡ checked a → Ensures P (f a))
    → Ensures P (m >>= f)
>>=-Ensures P (checked a) f h = h a refl
>>=-Ensures P (refused s r) f h = tt
>>=-Ensures P uncaught f h = tt

module _ (json : JsonApi) where
  require-eq-checked :
      (status : ℕ) (v : ValidationResult) {u : Unit {0}}
      → require json status v ≡ checked u
      → v.valid ≡ true
  unfolding require
  require-eq-checked status v e = ground (arith, e)

  -- A request that every validation accepts, with the members of the body as its text, voice,
  -- format and speed.
  pub record IsAccepted (req : HttpRequest) (deps : HandlerDeps) (r : SynthesisRequest)
      : Type 0 where
    pub content_type : (validate_content_type (header req (bytes "content-type"))).valid ≡ true
    pub size : (validate_body_size (length req.body) default_max_body_bytes).valid ≡ true
    pub model : (validate_model r.model).valid ≡ true
    pub input : (validate_input r.text (max_chars_of deps.config)).valid ≡ true
    pub voice :
        (c : VoiceCatalog) → deps.voice_catalog ≡ some c → (validate_voice r.voice c).valid ≡ true
    pub format : (validate_response_format r.response_format).valid ≡ true
    pub speed : (validate_speed r.speed).valid ≡ true
    pub body : json.Value
    pub its_body : json.parse req.body ≡ parsed body
    pub its_model : json.text_value body (bytes "model") [] ≡ some r.model
    pub its_text : json.text_value body (bytes "input") [] ≡ some r.text
    pub its_voice : json.text_value body (bytes "voice") [] ≡ some r.voice
    pub its_format :
        json.text_value body (bytes "response_format") (bytes "wav") ≡ some r.response_format
    pub its_speed : json.float_value body (bytes "speed") one ≡ some r.speed

  parse_body-eq-checked :
      (body : Bytes) (v : json.Value)
      → parse_body json body ≡ checked v
      → json.parse body ≡ parsed v
  unfolding parse_body
  parse_body-eq-checked body v e = of_parsed (json.parse body) refl
    where
      of_parsed : (p : Parsed json.Value) → json.parse body ≡ p → json.parse body ≡ parsed v
      of_parsed (parsed w) h =
          let same : checked w ≡ checked v = rw (h, parse_body) at e in cc (h, same)
      of_parsed parse_error h = ground (arith, e, h)
      of_parsed other_error h = ground (arith, e, h)

  or_uncaught-eq-checked :
      {A : Type 0} (o : Option A) (a : A) → or_uncaught json o ≡ checked a → o ≡ some a
  unfolding or_uncaught
  or_uncaught-eq-checked none a e = cc
  or_uncaught-eq-checked (some b) a e = cc

  require_voice-eq-checked :
      (o : Option VoiceCatalog) (voice : Bytes) {u : Unit {0}}
      → require_voice json o voice ≡ checked u
      → (c : VoiceCatalog) → o ≡ some c
      → (validate_voice voice c).valid ≡ true
  unfolding require_voice
  require_voice-eq-checked none voice h c e = cc
  require_voice-eq-checked (some d) voice h c e =
      rw (← some_inj e) (require-eq-checked 400 (validate_voice voice d) h)
    where
      some_inj : some d ≡ some c → d ≡ c
      some_inj p = cc

  pub check_speech-Ensures :
      (req : HttpRequest) (deps : HandlerDeps)
      → Ensures (IsAccepted req deps) (check_speech json req deps)
  unfolding check_speech
  check_speech-Ensures req deps =
      let P = IsAccepted req deps in
      >>=-Ensures P (require json 400 (validate_content_type (header req (bytes "content-type")))) _
        λ _ h1.
          >>=-Ensures P
            (require json (validate_body_size (length req.body) default_max_body_bytes).http_status
              (validate_body_size (length req.body) default_max_body_bytes))
            _
            λ _ h2. >>=-Ensures P (parse_body json req.body) _ λ body h3.
              >>=-Ensures P (or_uncaught json (json.text_value body (bytes "model") [])) _
                λ model h4. >>=-Ensures P (require json 400 (validate_model model)) _ λ _ h5.
                  >>=-Ensures P (or_uncaught json (json.text_value body (bytes "input") [])) _
                    λ input h6.
                      >>=-Ensures P
                        (require json 400 (validate_input input (max_chars_of deps.config))) _
                        λ _ h7.
                          >>=-Ensures P (or_uncaught json (json.text_value body (bytes "voice") []))
                            _
                            λ voice h8.
                              >>=-Ensures P (require_voice json deps.voice_catalog voice) _ λ _ h9.
                                >>=-Ensures P
                                  (or_uncaught json
                                    (json.text_value body (bytes "response_format") (bytes "wav")))
                                  _
                                  λ format h10.
                                    >>=-Ensures P
                                      (require json 400 (validate_response_format format)) _
                                      λ _ h11.
                                        >>=-Ensures P
                                          (or_uncaught json
                                            (json.float_value body (bytes "speed") one))
                                          _
                                          λ speed h12.
                                            >>=-Ensures P (require json 400 (validate_speed speed))
                                              _
                                              λ _ h13.
                                                let request : SynthesisRequest = record {
                                                  text = input;
                                                  voice = voice;
                                                  model = model;
                                                  response_format = format;
                                                  speed = speed;
                                                } in
                                                let accepted : IsAccepted req deps request =
                                                  record {
                                                    content_type = require-eq-checked 400 _ h1;
                                                    size = require-eq-checked _ _ h2;
                                                    model = require-eq-checked 400 _ h5;
                                                    input = require-eq-checked 400 _ h7;
                                                    voice =
                                                        require_voice-eq-checked deps.voice_catalog
                                                          voice h9;
                                                    format = require-eq-checked 400 _ h11;
                                                    speed = require-eq-checked 400 _ h13;
                                                    body = body;
                                                    its_body =
                                                        parse_body-eq-checked req.body body h3;
                                                    its_model = or_uncaught-eq-checked _ model h4;
                                                    its_text = or_uncaught-eq-checked _ input h6;
                                                    its_voice = or_uncaught-eq-checked _ voice h8;
                                                    its_format =
                                                        or_uncaught-eq-checked _ format h10;
                                                    its_speed = or_uncaught-eq-checked _ speed h12;
                                                  } in
                                                accepted

-- ===== src/Service/Tests.antt =====
-- The theorem on the parts together at a concrete request.
use voxtral_server.Backend.{SynthesisRequest, SynthesisResult}
use voxtral_server.Backend.Pcm.{build_wav_from_float_samples}
use voxtral_server.Backend.Voxtral.{PathInfo, sample_rate}
use voxtral_server.Backend.Engine.{
  Engine, State, new_backend, c_str, adopt, is_usable, initialize, is_failed, conclude, synthesize,
}
use voxtral_server.Base.Float.{less, one}
use voxtral_server.Base.Decimal.{to_int}
use voxtral_server.Config.{defaults}
use voxtral_server.Metrics.{initial}
use voxtral_server.Voices.{catalog, is_valid, find, find_id}
use voxtral_server.Validation.{
  validate_content_type, validate_body_size, starts_with, contains, passed, validate_model,
  validate_input, validate_voice, validate_response_format, validate_speed, all_whitespace,
}
use voxtral_server.Pool.{
  InferenceJob, Worker, waiting, running, success, returned, with_deadline, submit, call_success,
  take_job, check_deadline, finish_inference, deliver, worker_step,
}
use voxtral_server.Pool.System.{System, submitted, submits, works}
use voxtral_server.Pool.Fifo.{BackedReach, begins, goes}
use voxtral_server.Handler.{HttpRequest, HttpResponse, header}
use voxtral_server.Handler.Json.{JsonApi, parsed}
use voxtral_server.Handler.Speech
use voxtral_server.Handler.Speech.{
  PoolAnswers, HandlerDeps, Handled, threw, require, require_voice, parse_body, or_uncaught,
  check_speech, record_request, job_for, error_of, result_of, respond, await, speak, with_pool,
  handle_speech,
}
use voxtral_server.Handler.Accepted.{IsAccepted}
use voxtral_server.Service.{IsAnswered, Synthesizes}
use voxtral_server.Service.Audio.{IsHeard, handle_speech-IsHeard}
use voxtral_server.Base.{
  ℕ, ◌≡◌, refl, ap, true, false, some, [], ◌∷◌, arith, if◌then◌else◌, Bytes, bytes, eq_bytes,
  is_empty, find?,
}
use voxtral_server.Base.Int.{pos}

-- An engine that says one sample for any text.
abbrev engine : Engine
engine = record {
  Ctx = ℕ;
  load = λ path. some 1;
  generate = λ c text voice. record { rc = pos 0; samples = some (λ i. one); n_samples = pos 1 };
}

abbrev file : PathInfo
file = record { exists = true; is_regular_file = true; is_directory = false }

abbrev path : Bytes
path = b'm' ∷ []

abbrev new : State engine
new = (new_backend engine, record { contexts = 0; buffers = 0 })

loaded : (initialize engine path file new).1 ≡ true
unfolding initialize is_usable is_empty c_str
loaded = refl

-- A library that reads one request from any body.
abbrev read_text : Bytes → Bytes → Bytes
read_text key default_value =
    if eq_bytes key (bytes "model")
    then bytes "voxtral-4b"
    else if eq_bytes key (bytes "input")
    then bytes "Hi"
    else if eq_bytes key (bytes "voice")
    then bytes "casual_male"
    else default_value

abbrev toy : JsonApi
toy = record {
  Value = Unit {0};
  parse = λ body. parsed tt;
  text_value = λ body key default_value. some (read_text key default_value);
  float_value = λ body key default_value. some default_value;
  dump = λ doc. bytes "{}";
}

abbrev request : SynthesisRequest
request = record {
  text = bytes "Hi";
  voice = bytes "casual_male";
  model = bytes "voxtral-4b";
  response_format = bytes "wav";
  speed = one;
}

abbrev result : SynthesisResult
result = record {
  audio_data = build_wav_from_float_samples (some (λ i. one)) (pos 1) (pos sample_rate);
  sample_rate = sample_rate;
  duration_seconds = 0;
  inference_time_seconds = 0;
}

abbrev start : System SynthesisRequest SynthesisResult
start = record {
  pool = record {
    max_queue_depth = 1;
    request_timeout_seconds = 1;
    queue = [];
    accepting = true;
    active = 0;
    expired = 0;
    worker = waiting;
    calls = [];
  };
  accepted = [];
}

abbrev work : System SynthesisRequest SynthesisResult → System SynthesisRequest SynthesisResult
work s = record s { pool = worker_step s.pool 6 (returned result) }

abbrev job : InferenceJob SynthesisRequest
job = record { request = request; deadline = 0; on_success = true; on_error = true }

abbrev queued : System SynthesisRequest SynthesisResult
queued = submitted start job 5

abbrev answered : System SynthesisRequest SynthesisResult
answered = work (work (work (work queued)))

abbrev Made : SynthesisRequest → SynthesisResult → Type 0
Made = Synthesizes engine (initialize engine path file new).0

made : Made request result
unfolding initialize adopt is_usable is_empty c_str synthesize conclude is_failed
made = (λ n. 0, 0, refl)

runs : Unit {0}
unfolding submit with_deadline call_success take_job check_deadline finish_inference deliver
    worker_step
runs = tt

abbrev its_job : InferenceJob SynthesisRequest
its_job = record job { deadline = 1_000_000_005 }

Made-running :
    (j : InferenceJob SynthesisRequest) (r : SynthesisResult)
    → ◌≡◌ {A = Worker SynthesisRequest SynthesisResult} (running its_job) (running j)
    → returned result ≡ returned r
    → Made j.request r
Made-running j r w e =
    let same : its_job ≡ j = cc w in
    let same' : result ≡ r = cc e in
    let q : request ≡ j.request = ap (λ (d : InferenceJob SynthesisRequest). d.request) same in
    rw (q, same') at made

reaches : BackedReach Made start answered
unfolding runs
reaches =
    goes
      (goes
        (goes
          (goes (goes begins (submits job 5 (refl, refl)) tt) (works 6 (returned result))
            λ j r w e. cc)
          (works 6 (returned result)) λ j r w e. cc)
        (works 6 (returned result)) Made-running)
      (works 6 (returned result)) λ j r w e. cc

abbrev pool : PoolAnswers
pool = record {
  is_accepting = true;
  depth_before = 0;
  submit = λ j. true;
  depth_after = 1;
  answer = λ j. success result;
  depth_end = 0;
}

abbrev deps : HandlerDeps
deps = record {
  voice_catalog = some catalog;
  pool = some pool;
  config = some defaults;
  synthesis_secs = 0;
}

abbrev post : HttpRequest
post = record {
  method = bytes "POST";
  path = bytes "/v1/audio/speech";
  headers = (bytes "content-type", bytes "application/json") ∷ [];
  body = bytes "casual_male";
  remote_addr = bytes "10.0.0.1";
}

response_of : Handled → HttpResponse
response_of (Speech.returned resp) = resp
response_of threw = record { status = 0; headers = []; body = []; binary_body = [] }

handles : Unit {0}
unfolding handle_speech check_speech require require_voice parse_body or_uncaught with_pool speak
    await respond error_of result_of record_request validate_content_type validate_body_size
    validate_model validate_input validate_voice validate_response_format validate_speed starts_with
    catalog contains passed all_whitespace is_valid find find_id header find? is_empty eq_bytes
    bytes to_int less response_of
handles = tt

abbrev resp : HttpResponse
resp = response_of (handle_speech toy post deps initial).1

is_returned : (handle_speech toy post deps initial).1 ≡ Speech.returned resp
unfolding handles
is_returned = refl

is_ok : resp.status ≡ 200
unfolding handles
is_ok = refl

-- The body asks for one request only.
read_values :
    (read_text (bytes "model") [] ≡ bytes "voxtral-4b")
    × (read_text (bytes "input") [] ≡ bytes "Hi")
    × (read_text (bytes "voice") [] ≡ bytes "casual_male")
    × (read_text (bytes "response_format") (bytes "wav") ≡ bytes "wav")
unfolding handles
read_values = (refl, refl, refl, refl)

its_request : (r : SynthesisRequest) → IsAccepted toy post deps r → request ≡ r
its_request r a =
    let (model, input, voice, format) = read_values in
    let text : bytes "Hi" ≡ r.text = cc (input, a.its_text) in
    let its_voice : bytes "casual_male" ≡ r.voice = cc (voice, a.its_voice) in
    let its_model : bytes "voxtral-4b" ≡ r.model = cc (model, a.its_model) in
    let its_format : bytes "wav" ≡ r.response_format = cc (format, a.its_format) in
    let speed : one ≡ r.speed = cc a.its_speed in
    λ i. record {
      text = text i;
      voice = its_voice i;
      model = its_model i;
      response_format = its_format i;
      speed = speed i;
    }

its_answer :
    (r : SynthesisRequest) → IsAccepted toy post deps r → IsAnswered answered pool (job_for toy r)
unfolding runs job_for
its_answer r a =
    (0, record { job = its_job; answer = success result; at = 6 }, refl, its_request r a, refl)

handle_speech-IsHeard_example :
    (r : SynthesisRequest) × IsAccepted toy post deps r
    × IsHeard toy engine (some 1) r resp.binary_body
handle_speech-IsHeard_example =
    handle_speech-IsHeard toy engine new path file {s = start} {t = answered} post deps pool initial
      resp loaded (λ c text voice. omega arith) (refl, refl, refl, refl, refl, refl) reaches refl
      its_answer is_returned is_ok

-- ===== src/Adapter/Tests.antt =====
-- The theorems on the middleware at concrete requests.
use voxtral_server.Auth.Failures.{is_blocked}
use voxtral_server.Auth.Requests
use voxtral_server.Auth.Requests.{check_request}
use voxtral_server.Auth.ClientIp.{extract_client_ip}
use voxtral_server.Auth.Compare.{constant_time_equals, compare_loop}
use voxtral_server.Validation.{
  validate_content_type, validate_body_size, starts_with, contains, passed, validate_model,
  validate_input, validate_voice, validate_response_format, validate_speed, all_whitespace,
}
use voxtral_server.Base.Decimal.{to_int, to_size}
use voxtral_server.Base.Float.{less}
use voxtral_server.Auth.Bearer.{check_bearer_auth, bearer_prefix, is_internal_endpoint}
use voxtral_server.Config.{ServerConfig, defaults}
use voxtral_server.Metrics.{initial}
use voxtral_server.Server.{TtsServer, new_server}
use voxtral_server.Voices.{catalog, is_valid, find, find_id}
use voxtral_server.Handler.{HttpResponse, header, apply_security_headers}
use voxtral_server.Handler.Toy.{toy, deps}
use voxtral_server.Handler.Speech.{
  PoolAnswers, Handled, returned, threw, require, require_voice, parse_body, or_uncaught,
  check_speech, record_request, error_of, result_of, respond, await, speak, with_pool,
  handle_speech,
}
use voxtral_server.Handler.{is_binary}
use voxtral_server.Adapter.{
  LibraryRequest, to_lower, copy_headers, adapt_request, content_type_of, adapt_response,
  LibraryResponse, Shared, Clocks,
}
use voxtral_server.Adapter.Middleware.{
  client_ip, require_token, limit_rate, check_client, run_middleware,
}
use voxtral_server.Adapter.Routes.{secured, serve_speech}
use voxtral_server.Adapter.Guard.{
  IsAdmitted, run_middleware-none_iff, IsCounted, run_middleware-IsCounted,
}
use voxtral_server.Adapter.Dispatch.{
  post, speech, register_routes, Environment, World, shared_of, with_shared, Reply, sent, escaped,
  reply, tagged, make_deps, answer_shared, serve,
}
use voxtral_server.Adapter.Dispatch.Replies.{IsServed, serve-IsServed}
use voxtral_server.Adapter.Dispatch.Access.{IsTrusted, serve-IsGuarded}
use voxtral_server.Backend.{SynthesisRequest, SynthesisResult, no_result}
use voxtral_server.Pool.{waiting, InferencePool, success}
use voxtral_server.Base.{
  ◌≡◌, refl, ◌↔◌, ◌⊎◌, true, false, none, some, [], ◌∷◌, bytes, eq_bytes, is_empty, find?, assign,
  get_elem?,
}

abbrev cfg : ServerConfig
cfg = record defaults { require_auth = true; api_key = bytes "key" }

abbrev server : TtsServer
server = new_server cfg true (some catalog) 0

abbrev shared : Shared
shared = record {
  auth_limiter = server.auth_limiter;
  request_limiter = server.request_limiter;
  metrics = initial;
}

abbrev now : Clocks
now = record { blocked = 1; request = 2; request_entry = 3; failure = 4; failure_entry = 5 }

abbrev speech_request : LibraryRequest
speech_request = record {
  method = bytes "POST";
  path = bytes "/v1/audio/speech";
  body = bytes "casual_male";
  remote_addr = bytes "10.0.0.1";
  headers =
      (bytes "Content-Type", bytes "application/json")
      ∷ (bytes "Authorization", bytes "Bearer key")
      ∷ [];
}

run_middleware-none_iff_example :
    ((run_middleware toy cfg (adapt_request speech_request) now shared).1 ≡ none) ↔ (
      (is_internal_endpoint speech_request.path ≡ true)
      ⊎ IsAdmitted cfg
          (adapt_request speech_request)
          (client_ip cfg (adapt_request speech_request))
          now
          shared)
unfolding adapt_request
run_middleware-none_iff_example =
    run_middleware-none_iff toy cfg (adapt_request speech_request) now shared

run_middleware-IsCounted_example :
    IsCounted toy shared (run_middleware toy cfg (adapt_request speech_request) now shared)
run_middleware-IsCounted_example =
    run_middleware-IsCounted toy cfg (adapt_request speech_request) now shared

abbrev ok : HttpResponse
ok = record { status = 200; headers = []; body = bytes "{}"; binary_body = [] }

response_of : Handled → HttpResponse
response_of (returned resp) = resp
response_of threw = ok

abbrev served : Shared × Handled
served = serve_speech toy cfg deps speech_request (bytes "id") now shared

runs : Unit {0}
unfolding serve_speech secured adapt_request copy_headers to_lower run_middleware check_client
    limit_rate require_token client_ip extract_client_ip is_blocked check_request
    Requests.count_request Requests.entry_or_new Requests.is_over check_bearer_auth bearer_prefix
    constant_time_equals compare_loop is_internal_endpoint apply_security_headers assign new_server
    to_size handle_speech check_speech require require_voice parse_body or_uncaught with_pool speak
    await respond error_of result_of record_request validate_content_type validate_body_size
    validate_model validate_input validate_voice validate_response_format validate_speed starts_with
    catalog contains passed all_whitespace is_valid find find_id header find? is_empty eq_bytes
    bytes to_int less response_of initial
runs = tt

serves : served.1 ≡ returned (response_of served.1)
unfolding runs
serves = refl

status_ok : (response_of served.1).status ≡ 200
unfolding runs
status_ok = refl

outer : is_internal_endpoint speech_request.path ≡ false
unfolding runs
outer = refl

abbrev answers : PoolAnswers
answers = record {
  is_accepting = true;
  depth_before = 0;
  submit = λ job. true;
  depth_after = 1;
  answer = λ job. success (record no_result { audio_data = 1 ∷ 2 ∷ 3 ∷ [] });
  depth_end = 0;
}

abbrev env : Environment
env = record {
  words = (1, 2, 3, 4);
  clocks = now;
  now = 9;
  backend_is_ready = true;
  readings = record { is_accepting = true; queue_depth = 0 };
  answers = answers;
  synthesis_secs = 0;
  version = bytes "0.1.0";
  serialize = λ m. [];
}

abbrev pool : InferencePool SynthesisRequest SynthesisResult
pool = record {
  max_queue_depth = 1;
  request_timeout_seconds = 1;
  queue = [];
  accepting = true;
  active = 0;
  expired = 0;
  worker = waiting;
  calls = [];
}

abbrev world : World
world = record { server = record server { pool = some pool }; metrics = initial; t_request_id = [] }

serve-IsServed_example : IsServed speech env world (serve toy speech speech_request env world)
serve-IsServed_example = serve-IsServed toy speech speech_request env world

abbrev reply_of : Reply → LibraryResponse
reply_of (sent resp) = resp
reply_of escaped = record { status = 0; headers = []; content = []; content_type = [] }

abbrev replied : Reply
replied = (serve toy speech speech_request env world).1

dispatches : Unit {0}
unfolding runs serve shared_of with_shared reply tagged make_deps answer_shared adapt_response
    content_type_of is_binary
dispatches = tt

sends : replied ≡ sent (reply_of replied)
unfolding dispatches
sends = refl

sends_ok : (reply_of replied).status ≡ 200
unfolding dispatches
sends_ok = refl

is_registered : get_elem? register_routes 4 ≡ some (post, speech_request.path, speech)
unfolding register_routes
is_registered = refl

requires : world.server.config.require_auth ≡ true
unfolding new_server
requires = refl

serve-IsGuarded_example :
    (is_internal_endpoint speech_request.path ≡ true)
    ⊎ IsTrusted world env (adapt_request speech_request)
serve-IsGuarded_example =
    serve-IsGuarded toy 4 post speech world env speech_request (reply_of replied) is_registered
      requires sends sends_ok

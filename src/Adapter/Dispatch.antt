-- ===== src/Adapter/Dispatch.antt =====
-- The routes of `HttpAdapter` (`register_routes`, `make_deps` in src/server/http_adapter.cpp, the getters
-- of `TtsServer` in include/tts/server.hpp), from the library's request to the library's response,
-- with the request id that the logging of the thread has meanwhile.
pub mod Replies
pub mod Access
use voxtral_server.Base.Float.{Double}
use voxtral_server.Config.{ServerConfig}
use voxtral_server.Metrics.{Metrics}
use voxtral_server.Server.{TtsServer}
use voxtral_server.Logging.{set_request_id}
use voxtral_server.Handler.Json.{JsonApi}
use voxtral_server.Handler.RequestId.{generate_request_id}
use voxtral_server.Handler.Probes.{
  PoolReadings, handle_health, handle_ready, handle_voices, handle_metrics,
}
use voxtral_server.Handler.Speech.{PoolAnswers, HandlerDeps, Handled, returned, threw}
use voxtral_server.Adapter.{LibraryRequest, adapt_response, LibraryResponse, Shared, Clocks}
use voxtral_server.Adapter.Routes.{secured, serve_speech, serve_voices, not_found}
use voxtral_server.Base.{
  ℕ, Bool, Option, none, some, List, ◌∷◌, ◌++◌, ◌==◌, if◌then◌else◌, Bytes, bytes, [],
}

pub data Method : Type 0 where
  get : Method
  post : Method

-- The handlers, by what they serve.
pub data Route : Type 0 where
  health : Route
  ready : Route
  metrics : Route
  voices : Route
  speech : Route

-- The calls of `Get` and `Post`.
unfoldable pub register_routes : List (Method × Bytes × Route)
register_routes =
    (get, bytes "/health", health)
    ∷ (get, bytes "/ready", ready)
    ∷ (get, bytes "/metrics", metrics)
    ∷ (get, bytes "/v1/voices", voices)
    ∷ (post, bytes "/v1/audio/speech", speech)
    ∷ []

-- What a request meets: the random words of its id, the clocks, the answers of the backend and of
-- the pool, the version of the build, and the text exposition of the metrics.
pub record Environment : Type 0 where
  pub words : ℕ × ℕ × ℕ × ℕ
  pub clocks : Clocks
  pub now : ℕ
  pub backend_is_ready : Bool
  pub readings : PoolReadings
  pub answers : PoolAnswers
  pub synthesis_secs : Double
  pub version : Bytes
  pub serialize : Metrics → Bytes

-- What the handlers change; `t_request_id` is that of the thread that serves the request.
pub record World : Type 0 where
  pub server : TtsServer
  pub metrics : Metrics
  pub t_request_id : Bytes

-- `make_deps`, and the getters that it calls, in the form that each handler takes.
unfoldable pub make_deps : TtsServer → Environment → HandlerDeps
make_deps s env = record {
  voice_catalog = s.voice_catalog;
  pool = elim s.pool [ none ↦ none | some p ↦ some env.answers ];
  config = some s.config;
  synthesis_secs = env.synthesis_secs;
}

unfoldable pub backend_of : TtsServer → Environment → Option Bool
backend_of s env = if s.has_backend then some env.backend_is_ready else none

unfoldable pub pool_of : TtsServer → Environment → Option PoolReadings
pool_of s env = elim s.pool [ none ↦ none | some p ↦ some env.readings ]

-- The limiters and the metrics, as the middleware has them.
unfoldable pub shared_of : World → Shared
shared_of w = record {
  auth_limiter = w.server.auth_limiter;
  request_limiter = w.server.request_limiter;
  metrics = w.metrics;
}

unfoldable pub with_shared : World → Shared → World
with_shared w s = record w {
  server = record w.server { auth_limiter = s.auth_limiter; request_limiter = s.request_limiter };
  metrics = s.metrics;
}

-- What the library gets: a response, or an exception that leaves the handler.
pub data Reply : Type 0 where
  sent : LibraryResponse → Reply
  escaped : Reply

-- The end of a handler: the response is written, and the id of the thread is cleared.
unfoldable pub reply : World → Handled → World × Reply
reply w (returned resp) =
    (record w { t_request_id = set_request_id [] w.t_request_id }, sent (adapt_response resp))
reply w threw = (w, escaped)

-- The beginning of a handler.
unfoldable pub tagged : Bytes → World → World
tagged request_id w = record w { t_request_id = set_request_id request_id w.t_request_id }

abbrev pub request_id_of : Environment → Bytes
request_id_of env = generate_request_id env.words.0 env.words.1 env.words.2 env.words.3

-- The end of a handler that has used the limiters and the metrics.
unfoldable pub answer_shared : World → Shared × Handled → World × Reply
answer_shared w (s, handled) = reply (with_shared w s) handled

module _ (json : JsonApi) where
  unfoldable pub serve : Route → LibraryRequest → Environment → World → World × Reply
  serve health req env w =
      let request_id = request_id_of env in
      reply (tagged request_id w) (
        secured json request_id
          (returned (handle_health json env.version env.now w.server.start_time)))
  serve ready req env w =
      let request_id = request_id_of env in
      reply (tagged request_id w) (
        secured json request_id (
          returned (
            handle_ready json (backend_of w.server env) (pool_of w.server env)
              (some w.server.config))))
  serve metrics req env w = (w, sent (adapt_response (handle_metrics env.serialize w.metrics)))
  serve voices req env w =
      let request_id = request_id_of env in
      answer_shared (tagged request_id w) (
        serve_voices json w.server.config w.server.voice_catalog req request_id env.clocks
          (shared_of w))
  serve speech req env w =
      let request_id = request_id_of env in
      answer_shared (tagged request_id w) (
        serve_speech json w.server.config (make_deps w.server env) req request_id env.clocks
          (shared_of w))

  -- The error handler. Its response overwrites the content that the library has set.
  unfoldable pub handle_error : Bytes → LibraryResponse → LibraryResponse
  handle_error request_id res =
      let response = not_found json request_id in
      if res.status == 404
      then record res {
        headers = res.headers ++ response.headers;
        content = response.body;
        content_type = bytes "application/json";
      }
      else res

-- ===== src/Adapter/Routes.antt =====
-- The handlers of `HttpAdapter::register_routes` (src/server/http_adapter.cpp), between the two
-- conversions.
use voxtral_server.Config.{ServerConfig}
use voxtral_server.Voices.{VoiceCatalog}
use voxtral_server.Handler.{HttpResponse, apply_security_headers, make_error_response}
use voxtral_server.Handler.Json.{JsonApi}
use voxtral_server.Handler.Probes.{handle_voices}
use voxtral_server.Handler.Speech.{HandlerDeps, Handled, returned, threw, handle_speech}
use voxtral_server.Base.{Option, none, some, [], Bytes, bytes}
use voxtral_server.Adapter.{LibraryRequest, adapt_request, Shared, Clocks}
use voxtral_server.Adapter.Middleware.{run_middleware}

module _ (json : JsonApi) where
  -- The end of a route's handler: an exception passes through it.
  unfoldable pub secured : Bytes → Handled → Handled
  secured request_id (returned resp) = returned (apply_security_headers resp request_id)
  secured request_id threw = threw

  -- `POST /v1/audio/speech`, from the request to the response before `adapt_response`.
  unfoldable pub serve_speech :
      ServerConfig → HandlerDeps → LibraryRequest → Bytes → Clocks → Shared → Shared × Handled
  serve_speech cfg deps library_req request_id now s =
      let req = adapt_request library_req in
      let (s', middleware_err) = run_middleware json cfg req now s in
      elim middleware_err [
        | some resp ↦ (s', secured request_id (returned resp))
        | none ↦
            let (metrics, handled) = handle_speech json req deps s'.metrics in
            (record s' { metrics = metrics }, secured request_id handled)
      ]

  -- `GET /v1/voices`
  unfoldable pub serve_voices :
      ServerConfig
      → Option VoiceCatalog
      → LibraryRequest
      → Bytes
      → Clocks
      → Shared
      → Shared × Handled
  serve_voices cfg voice_catalog library_req request_id now s =
      let (s', middleware_err) = run_middleware json cfg (adapt_request library_req) now s in
      elim middleware_err [
        | some resp ↦ (s', secured request_id (returned resp))
        | none ↦ (s', secured request_id (returned (handle_voices json voice_catalog)))
      ]

  -- The error handler of the routes, on a status 404.
  unfoldable pub not_found : Bytes → HttpResponse
  not_found request_id =
      apply_security_headers
        (make_error_response json 404 (bytes "invalid_request_error") (bytes "not_found")
          (bytes "The requested endpoint does not exist.") [])
        request_id

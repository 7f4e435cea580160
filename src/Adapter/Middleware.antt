-- ===== src/Adapter/Middleware.antt =====
-- `HttpAdapter::run_middleware` (src/server/http_adapter.cpp).
use voxtral_server.Base.Decimal.{to_string}
use voxtral_server.Auth.Bearer.{check_bearer_auth, is_internal_endpoint}
use voxtral_server.Auth.ClientIp.{extract_client_ip}
use voxtral_server.Auth.Failures.{is_blocked, check_and_record_failure}
use voxtral_server.Auth.Requests.{check_request}
use voxtral_server.Config.{ServerConfig}
use voxtral_server.Metrics.{Metrics}
use voxtral_server.Handler.{HttpRequest, header, HttpResponse, make_error_response}
use voxtral_server.Handler.Json.{JsonApi}
use voxtral_server.Base.{
  ◌+◌, String, not, Option, none, some, [], ltb, if◌then◌else◌, Bytes, bytes, assign,
}
use voxtral_server.Base.Int.{pos}
use voxtral_server.Adapter.{Shared, Clocks}

unfoldable pub count_rejected_auth : Metrics → Metrics
count_rejected_auth m = record m { requests_rejected_auth = m.requests_rejected_auth + 1 }

unfoldable pub count_rejected_rate : Metrics → Metrics
count_rejected_rate m = record m {
  requests_rejected_rate_limit = m.requests_rejected_rate_limit + 1;
}

unfoldable pub client_ip : ServerConfig → HttpRequest → Bytes
client_ip cfg req =
    extract_client_ip (header req (bytes "x-forwarded-for")) req.remote_addr cfg.trust_proxy
      cfg.trusted_proxy_hops

module _ (json : JsonApi) where
  -- `make_error_response`, and the header that is added to it.
  unfoldable pub retry_response : String → String → Bytes → HttpResponse
  retry_response error_code message retry_after =
      let resp =
        make_error_response json 429 (bytes "rate_limit_error") (bytes error_code) (bytes message)
          [] in
      record resp { headers = assign (bytes "Retry-After") retry_after resp.headers }

  -- Step 3.
  unfoldable pub require_token :
      ServerConfig → HttpRequest → Bytes → Clocks → Shared → Shared × Option HttpResponse
  require_token cfg req ip now s =
      let auth_result = check_bearer_auth (header req (bytes "authorization")) cfg.api_key in
      if not auth_result.authenticated
      then (
        record s {
          auth_limiter =
              (check_and_record_failure s.auth_limiter ip now.failure now.failure_entry).0;
          metrics = count_rejected_auth s.metrics;
        },
        some (
            make_error_response json 401 (bytes "authentication_error") auth_result.error_code
              auth_result.error_message []),
      )
      else (s, none)

  -- Steps 2 and 3.
  unfoldable pub limit_rate :
      ServerConfig → HttpRequest → Bytes → Clocks → Shared → Shared × Option HttpResponse
  limit_rate cfg req ip now s =
      let (limiter, retry_after) =
        check_request s.request_limiter ip now.request now.request_entry in
      let s' = record s { request_limiter = limiter } in
      if ltb 0 retry_after
      then (
        record s' { metrics = count_rejected_rate s.metrics },
        some (
            retry_response "rate_limited" "Rate limit exceeded. Please slow down."
              (to_string (pos retry_after))),
      )
      else if cfg.require_auth
      then require_token cfg req ip now s'
      else (s', none)

  -- Steps 1 to 3, for a client. `is_blocked` runs only where a token is required.
  unfoldable pub check_client :
      ServerConfig → HttpRequest → Bytes → Clocks → Shared → Shared × Option HttpResponse
  check_client cfg req ip now s =
      if cfg.require_auth
      then (let (limiter, blocked) = is_blocked s.auth_limiter ip now.blocked in
          let s' = record s { auth_limiter = limiter } in
          if blocked
          then (
            record s' { metrics = count_rejected_auth s.metrics },
            some (
                retry_response "auth_rate_limited"
                  "Too many authentication failures. Try again later." (bytes "60")),
          )
          else limit_rate cfg req ip now s')
      else limit_rate cfg req ip now s

  unfoldable pub run_middleware :
      ServerConfig → HttpRequest → Clocks → Shared → Shared × Option HttpResponse
  run_middleware cfg req now s =
      if is_internal_endpoint req.path
      then (s, none)
      else check_client cfg req (client_ip cfg req) now s

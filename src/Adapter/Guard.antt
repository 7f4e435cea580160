-- ===== src/Adapter/Guard.antt =====
-- Which requests get past the middleware, and what a rejection leaves behind.
use voxtral_server.Auth.Bearer.{check_bearer_auth, is_internal_endpoint}
use voxtral_server.Auth.Failures.{is_blocked}
use voxtral_server.Auth.Requests.{check_request}
use voxtral_server.Config.{ServerConfig}
use voxtral_server.Handler.{
  HttpRequest, header, HttpResponse, apply_security_headers, make_error_response,
}
use voxtral_server.Handler.Json.{JsonApi}
use voxtral_server.Handler.Speech.{HandlerDeps, returned}
use voxtral_server.Adapter.{LibraryRequest, adapt_request, Shared, Clocks}
use voxtral_server.Adapter.Middleware.{
  count_rejected_auth, count_rejected_rate, client_ip, retry_response, require_token, limit_rate,
  check_client, run_middleware,
}
use voxtral_server.Adapter.Routes.{secured, serve_speech}
use voxtral_server.Base.{
  ℕ, ◌+◌, ◌≡◌, refl, ◌↔◌, ◌⊎◌, inl, inr, Bool, true, false, Option, none, some, arith, ltb,
  Bool-cases, Bytes, bytes,
}

abbrev pub has_token : ServerConfig → HttpRequest → Bool
has_token cfg req =
    (check_bearer_auth (header req (bytes "authorization")) cfg.api_key).authenticated

-- A client that may pass: its rate is not exceeded, and where a token is required it is not blocked
-- and shows the token.
abbrev pub IsAdmitted : ServerConfig → HttpRequest → Bytes → Clocks → Shared → Type 0
IsAdmitted cfg req ip now s =
    ((check_request s.request_limiter ip now.request now.request_entry).1 ≡ 0)
    × (cfg.require_auth ≡ true
        → ((is_blocked s.auth_limiter ip now.blocked).1 ≡ false) × (has_token cfg req ≡ true))

module _ (json : JsonApi) where
  require_token-none_iff :
      (cfg : ServerConfig) (req : HttpRequest) (ip : Bytes) (now : Clocks) (s : Shared)
      → ((require_token json cfg req ip now s).1 ≡ none) ↔ (has_token cfg req ≡ true)
  unfolding require_token
  require_token-none_iff cfg req ip now s = ground arith

  limit_rate-none_iff :
      (cfg : ServerConfig) (req : HttpRequest) (ip : Bytes) (now : Clocks) (s : Shared)
      → ((limit_rate json cfg req ip now s).1 ≡ none) ↔ (
          ((check_request s.request_limiter ip now.request now.request_entry).1 ≡ 0)
          × (cfg.require_auth ≡ true → has_token cfg req ≡ true))
  unfolding limit_rate
  limit_rate-none_iff cfg req ip now s = ground (
    arith,
    require_token-none_iff cfg req ip now (record s {
      request_limiter = (check_request s.request_limiter ip now.request now.request_entry).0;
    }),
  )

  check_client-none_iff :
      (cfg : ServerConfig) (req : HttpRequest) (ip : Bytes) (now : Clocks) (s : Shared)
      → ((check_client json cfg req ip now s).1 ≡ none) ↔ IsAdmitted cfg req ip now s
  unfolding check_client
  check_client-none_iff cfg req ip now s = ground (
    arith,
    limit_rate-none_iff cfg req ip now s,
    limit_rate-none_iff cfg req ip now
        (record s { auth_limiter = (is_blocked s.auth_limiter ip now.blocked).0 }),
  )

  -- The middleware lets a request pass exactly if its path is an internal endpoint, or the
  -- rate limiter answers 0 for its client's address and, where a token is required, the
  -- address is not blocked and `check_bearer_auth` accepts the Authorization header.
  pub run_middleware-none_iff :
      (cfg : ServerConfig) (req : HttpRequest) (now : Clocks) (s : Shared)
      → ((run_middleware json cfg req now s).1 ≡ none)
        ↔ ((is_internal_endpoint req.path ≡ true) ⊎ IsAdmitted cfg req (client_ip cfg req) now s)
  unfolding run_middleware
  run_middleware-none_iff cfg req now s =
      ground (arith, check_client-none_iff cfg req (client_ip cfg req) now s)

  -- The rejections counted so far.
  abbrev pub rejections : Shared → ℕ
  rejections s = s.metrics.requests_rejected_auth + s.metrics.requests_rejected_rate_limit

  -- A rejection is 401 or 429 and one more rejection is counted; a request that passes leaves
  -- the metrics alone.
  abbrev pub IsCounted : Shared → Shared × Option HttpResponse → Type 0
  IsCounted s (s', none) = s'.metrics ≡ s.metrics
  IsCounted s (s', some resp) =
      ((resp.status ≡ 401) ⊎ (resp.status ≡ 429))
      × (rejections s' ≡ rejections s + 1)
      × (s'.metrics.requests_total ≡ s.metrics.requests_total)

  require_token-IsCounted :
      (cfg : ServerConfig) (req : HttpRequest) (ip : Bytes) (now : Clocks) (s : Shared)
      → IsCounted s (require_token json cfg req ip now s)
  unfolding require_token count_rejected_auth make_error_response
  require_token-IsCounted cfg req ip now s = elim (Bool-cases (has_token cfg req)) [
    | inl ok ↦ rw ok refl
    | inr bad ↦ rw bad (inl refl, omega arith, refl)
  ]

  limit_rate-IsCounted :
      (cfg : ServerConfig) (req : HttpRequest) (ip : Bytes) (now : Clocks) (s : Shared)
      → IsCounted s (limit_rate json cfg req ip now s)
  unfolding limit_rate count_rejected_rate retry_response make_error_response
  limit_rate-IsCounted cfg req ip now s =
      elim (Bool-cases
        (ltb 0 (check_request s.request_limiter ip now.request now.request_entry).1)) [
          | inl over ↦ rw over (inr refl, omega arith, refl)
          | inr under ↦ rw under (elim (Bool-cases cfg.require_auth) [
            | inl auth ↦ simp auth (require_token-IsCounted cfg req ip now (limited ip now s))
            | inr no_auth ↦ simp no_auth refl
          ])
        ]
    where
      limited : Bytes → Clocks → Shared → Shared
      limited ip now s = record s {
        request_limiter = (check_request s.request_limiter ip now.request now.request_entry).0;
      }

  check_client-IsCounted :
      (cfg : ServerConfig) (req : HttpRequest) (ip : Bytes) (now : Clocks) (s : Shared)
      → IsCounted s (check_client json cfg req ip now s)
  unfolding check_client count_rejected_auth retry_response make_error_response
  check_client-IsCounted cfg req ip now s = elim (Bool-cases cfg.require_auth) [
    | inl auth ↦ simp auth (elim (Bool-cases (is_blocked s.auth_limiter ip now.blocked).1) [
      | inl blocked ↦ rw blocked (inr refl, omega arith, refl)
      | inr free ↦ rw free (limit_rate-IsCounted cfg req ip now (looked ip now s))
    ])
    | inr no_auth ↦ simp no_auth (limit_rate-IsCounted cfg req ip now s)
  ]
    where
      looked : Bytes → Clocks → Shared → Shared
      looked ip now s = record s { auth_limiter = (is_blocked s.auth_limiter ip now.blocked).0 }

  -- A request that the middleware rejects gets status 401 or 429, adds one to the two
  -- counters of rejections together, and adds nothing to the requests by status; a request
  -- that passes leaves the metrics as they were.
  pub run_middleware-IsCounted :
      (cfg : ServerConfig) (req : HttpRequest) (now : Clocks) (s : Shared)
      → IsCounted s (run_middleware json cfg req now s)
  unfolding run_middleware
  run_middleware-IsCounted cfg req now s = elim (Bool-cases (is_internal_endpoint req.path)) [
    | inl internal ↦ rw internal refl
    | inr client ↦ rw client (check_client-IsCounted cfg req (client_ip cfg req) now s)
  ]

  abbrev pub IsRefusal : Option HttpResponse → Type 0
  IsRefusal none = Unit
  IsRefusal (some resp) = (resp.status ≡ 401) ⊎ (resp.status ≡ 429)

  IsRefusal-status :
      (s : Shared) (out : Shared × Option HttpResponse) → IsCounted s out → IsRefusal out.1
  IsRefusal-status s (s', none) h = tt
  IsRefusal-status s (s', some resp) h = h.0

  pub refusal :
      (cfg : ServerConfig) (req : HttpRequest) (now : Clocks) (s : Shared)
      → IsRefusal (run_middleware json cfg req now s).1
  refusal cfg req now s =
      IsRefusal-status s (run_middleware json cfg req now s)
        (run_middleware-IsCounted cfg req now s)

  same_status :
      (r : HttpResponse) (request_id : Bytes) (resp : HttpResponse)
      → secured json request_id (returned r) ≡ returned resp
      → r.status ≡ resp.status
  unfolding secured apply_security_headers
  same_status r request_id resp e = ground (arith, e)

  -- If a token is required and the path is no internal endpoint, then a speech request whose
  -- response has status 200 came from a client that was not blocked and that showed a token
  -- which `check_bearer_auth` accepts.
  pub serve_speech-IsGuarded :
      (cfg : ServerConfig) (deps : HandlerDeps) (req : LibraryRequest) (request_id : Bytes)
      (now : Clocks) (s : Shared) (resp : HttpResponse)
      → cfg.require_auth ≡ true
      → is_internal_endpoint req.path ≡ false
      → (serve_speech json cfg deps req request_id now s).1 ≡ returned resp
      → resp.status ≡ 200
      → ((is_blocked s.auth_limiter (client_ip cfg (adapt_request req)) now.blocked).1 ≡ false)
        × (has_token cfg (adapt_request req) ≡ true)
  unfolding serve_speech adapt_request
  serve_speech-IsGuarded cfg deps req request_id now s resp auth outer e ok =
      of_result (run_middleware json cfg (adapt_request req) now s).1 refl
    where
      of_result :
          (o : Option HttpResponse)
          → (run_middleware json cfg (adapt_request req) now s).1 ≡ o
          → ((is_blocked s.auth_limiter (client_ip cfg (adapt_request req)) now.blocked).1 ≡ false)
            × (has_token cfg (adapt_request req) ≡ true)
      of_result none h = elim ((run_middleware-none_iff cfg (adapt_request req) now s).0 h) [
        | inl internal ↦ absurd (ground (arith, internal, outer))
        | inr (rate, guarded) ↦ guarded auth
      ]
      of_result (some r) h = ground (
        arith,
        ok,
        same_status r request_id resp (rw (h, serve_speech) at e),
        rw h at (refusal cfg (adapt_request req) now s),
      )

-- ===== src/Adapter/Dispatch/Access.antt =====
-- Who gets an answer from the routes: the whole table against the middleware.
use voxtral_server.Auth.Bearer.{is_internal_endpoint}
use voxtral_server.Auth.Failures.{is_blocked}
use voxtral_server.Handler.{HttpRequest, HttpResponse, apply_security_headers}
use voxtral_server.Handler.Speech.{Handled, returned}
use voxtral_server.Handler.Json.{JsonApi}
use voxtral_server.Adapter.{LibraryRequest, adapt_request, adapt_response, LibraryResponse, Shared}
use voxtral_server.Adapter.Middleware.{client_ip, run_middleware}
use voxtral_server.Adapter.Routes.{secured, serve_speech, serve_voices}
use voxtral_server.Adapter.Guard.{has_token, run_middleware-none_iff, refusal}
use voxtral_server.Adapter.Dispatch.{
  Method, Route, voices, speech, register_routes, Environment, World, shared_of, sent, reply,
  request_id_of, answer_shared, serve,
}
use voxtral_server.Base.{
  ℕ, zero, suc, ◌≡◌, refl, sym, ◌∙◌, ◌⊎◌, inl, inr, true, false, Option, none, some, arith,
  Bool-cases, get_elem?, Bytes, bytes, eq_bytes,
}

-- The client of a request is not blocked, and shows the token.
abbrev pub IsTrusted : World → Environment → HttpRequest → Type 0
IsTrusted w env req =
    ((is_blocked w.server.auth_limiter (client_ip w.server.config req) env.clocks.blocked).1
      ≡ false)
    × (has_token w.server.config req ≡ true)

module _ (json : JsonApi) where
  abbrev verdict : World → Environment → LibraryRequest → Option HttpResponse
  verdict w env req =
      (run_middleware json w.server.config (adapt_request req) env.clocks (shared_of w)).1

  verdict_cases :
      (w : World) (env : Environment) (req : LibraryRequest)
      → w.server.config.require_auth ≡ true
      → is_internal_endpoint req.path ≡ false
      → IsTrusted w env (adapt_request req)
        ⊎ ((r : HttpResponse) × (verdict w env req ≡ some r)
            × ((r.status ≡ 401) ⊎ (r.status ≡ 429)))
  verdict_cases w env req auth outer = of_verdict (verdict w env req) refl
    where
      of_verdict :
          (o : Option HttpResponse)
          → verdict w env req ≡ o
          → IsTrusted w env (adapt_request req)
            ⊎ ((r : HttpResponse) × (verdict w env req ≡ some r)
                × ((r.status ≡ 401) ⊎ (r.status ≡ 429)))
      of_verdict none h =
          inl
            (elim ((run_middleware-none_iff json w.server.config (adapt_request req) env.clocks
                (shared_of w)).0
              h) [
                | inl internal ↦ absurd (unfold adapt_request in cc (internal, outer))
                | inr (rate, guarded) ↦ unfold shared_of in guarded auth
              ])
      of_verdict (some r) h = inr (
        r,
        h,
        rw h at (refusal json w.server.config (adapt_request req) env.clocks (shared_of w)),
      )

  reply-answer_shared :
      (w : World) (out : Shared × Handled) (resp : HttpResponse)
      → out.1 ≡ returned resp
      → (answer_shared w out).1 ≡ sent (adapt_response resp)
  unfolding answer_shared reply
  reply-answer_shared w out resp h = rw h refl

  speech_refused :
      (w : World) (env : Environment) (req : LibraryRequest) (r : HttpResponse)
      → verdict w env req ≡ some r
      → (serve json speech req env w).1
        ≡ sent (adapt_response (apply_security_headers r (request_id_of env)))
  unfolding serve
  speech_refused w env req r h =
      reply-answer_shared _ _ _ (unfold secured serve_speech in rw (h, serve_speech) refl)

  voices_refused :
      (w : World) (env : Environment) (req : LibraryRequest) (r : HttpResponse)
      → verdict w env req ≡ some r
      → (serve json voices req env w).1
        ≡ sent (adapt_response (apply_security_headers r (request_id_of env)))
  unfolding serve
  voices_refused w env req r h =
      reply-answer_shared _ _ _ (unfold secured serve_voices in rw (h, serve_voices) refl)

  -- A refusal is no success.
  refused_not_ok :
      (r : HttpResponse) (request_id : Bytes) (resp : LibraryResponse)
      → (r.status ≡ 401) ⊎ (r.status ≡ 429)
      → sent (adapt_response (apply_security_headers r request_id)) ≡ sent resp
      → resp.status ≡ 200
      → ⊥
  unfolding adapt_response apply_security_headers
  refused_not_ok r request_id resp h e ok = ground (arith, h, e, ok)

  -- The routes that run the middleware.
  guarded :
      (route : Route) (w : World) (env : Environment) (req : LibraryRequest)
      (resp : LibraryResponse)
      → ((r : HttpResponse)
          → verdict w env req ≡ some r
          → (serve json route req env w).1
            ≡ sent (adapt_response (apply_security_headers r (request_id_of env))))
      → w.server.config.require_auth ≡ true
      → is_internal_endpoint req.path ≡ false
      → (serve json route req env w).1 ≡ sent resp
      → resp.status ≡ 200
      → IsTrusted w env (adapt_request req)
  guarded route w env req resp refuses auth outer e ok = elim (verdict_cases w env req auth outer) [
    | inl trusted ↦ trusted
    | inr (r, h, status) ↦
        absurd (refused_not_ok r (request_id_of env) resp status (sym (refuses r h) ∙ e) ok)
  ]

  internal_paths :
      (is_internal_endpoint (bytes "/health") ≡ true)
      × (is_internal_endpoint (bytes "/ready") ≡ true)
      × (is_internal_endpoint (bytes "/metrics") ≡ true)
  unfolding is_internal_endpoint eq_bytes bytes
  internal_paths = (refl, refl, refl)

  -- For each route that `register_routes` registers, and a request of its path, if the
  -- configuration requires a token: where the route answers with status 200, the path is an
  -- internal endpoint, or the client was not blocked and showed a token which
  -- `check_bearer_auth` accepts.
  pub serve-IsGuarded :
      (i : ℕ) (method : Method) (route : Route) (w : World) (env : Environment)
      (req : LibraryRequest) (resp : LibraryResponse)
      → get_elem? register_routes i ≡ some (method, req.path, route)
      → w.server.config.require_auth ≡ true
      → (serve json route req env w).1 ≡ sent resp
      → resp.status ≡ 200
      → (is_internal_endpoint req.path ≡ true) ⊎ IsTrusted w env (adapt_request req)
  unfolding register_routes
  serve-IsGuarded i method route w env req resp at auth e ok =
      elim (Bool-cases (is_internal_endpoint req.path)) [
        | inl internal ↦ inl internal
        | inr outer ↦ inr (of_route i outer at)
      ]
    where
      of_route :
          (i : ℕ)
          → is_internal_endpoint req.path ≡ false
          → get_elem? register_routes i ≡ some (method, req.path, route)
          → IsTrusted w env (adapt_request req)
      of_route zero outer at = absurd (cc (outer, at, internal_paths.0))
      of_route (suc zero) outer at = absurd (cc (outer, at, internal_paths.1))
      of_route (suc (suc zero)) outer at = absurd (cc (outer, at, internal_paths.2))
      of_route (suc (suc (suc zero))) outer at =
          let same : route ≡ voices = cc at in
          guarded voices w env req resp (voices_refused w env req) auth outer (rw same at e) ok
      of_route (suc (suc (suc (suc zero)))) outer at =
          let same : route ≡ speech = cc at in
          guarded speech w env req resp (speech_refused w env req) auth outer (rw same at e) ok
      of_route (suc (suc (suc (suc (suc i))))) outer at = cc at

-- ===== src/Adapter/Dispatch/Replies.antt =====
-- What every route leaves in the response and in the logging of the thread.
use voxtral_server.Handler.{HttpResponse}
use voxtral_server.Handler.Json.{JsonApi}
use voxtral_server.Handler.Speech.{Handled, returned, threw, handle_speech}
use voxtral_server.Handler.Probes.{handle_voices}
use voxtral_server.Logging.{set_request_id}
use voxtral_server.Adapter.{LibraryRequest, adapt_request, adapt_response, Shared}
use voxtral_server.Adapter.Middleware.{run_middleware}
use voxtral_server.Adapter.Routes.{secured, serve_speech, serve_voices}
use voxtral_server.Adapter.Headers.{apply_security_headers-IsSecured}
use voxtral_server.Adapter.Dispatch.{
  Route, health, ready, metrics, voices, speech, Environment, World, shared_of, with_shared, Reply,
  sent, escaped, reply, tagged, request_id_of, make_deps, answer_shared, serve,
}
use voxtral_server.Base.{◌≡◌, refl, Option, none, some, [], Bytes, bytes, find?}

-- A response carries the security headers and the request's id, and the id of the thread is cleared
-- with it; where an exception leaves the handler, the id stays.
abbrev pub IsTagged : Bytes → World × Reply → Type 0
IsTagged request_id (w, sent resp) =
    (w.t_request_id ≡ [])
    × (find? (bytes "X-Content-Type-Options") resp.headers ≡ some (bytes "nosniff"))
    × (find? (bytes "Cache-Control") resp.headers ≡ some (bytes "no-store"))
    × (find? (bytes "X-Request-Id") resp.headers ≡ some request_id)
IsTagged request_id (w, escaped) = w.t_request_id ≡ request_id

abbrev IsSent : World × Reply → Type 0
IsSent (w, sent resp) = Unit
IsSent (w, escaped) = ⊥

-- What each route promises.
abbrev pub IsServed : Route → Environment → World → World × Reply → Type 0
IsServed health env w out = IsTagged (request_id_of env) out × IsSent out
IsServed ready env w out = IsTagged (request_id_of env) out × IsSent out
IsServed metrics env w out = (out.0 ≡ w) × IsSent out
IsServed voices env w out = IsTagged (request_id_of env) out × IsSent out
IsServed speech env w out = IsTagged (request_id_of env) out

module _ (json : JsonApi) where
  reply-IsTagged :
      (request_id : Bytes) (w : World) (handled : Handled)
      → w.t_request_id ≡ request_id
      → IsTagged request_id (reply w (secured json request_id handled))
  unfolding reply secured adapt_response set_request_id
  reply-IsTagged request_id w (returned resp) e =
      let (h, c, i, _) = apply_security_headers-IsSecured resp request_id in (refl, h, c, i)
  reply-IsTagged request_id w threw e = e

  returned-IsSent :
      (request_id : Bytes) (w : World) (resp : HttpResponse)
      → IsSent (reply w (secured json request_id (returned resp)))
  unfolding reply secured
  returned-IsSent request_id w resp = tt

  tagged_id : (request_id : Bytes) (w : World) → (tagged request_id w).t_request_id ≡ request_id
  unfolding tagged set_request_id
  tagged_id request_id w = refl

  -- What the middleware and the two handlers behind it answer.
  abbrev checked : World → Environment → LibraryRequest → Shared × Option HttpResponse
  checked w env req =
      run_middleware json w.server.config (adapt_request req) env.clocks (shared_of w)

  abbrev spoken : World → Environment → LibraryRequest → Shared × Handled
  spoken w env req =
      serve_speech json w.server.config (make_deps w.server env) req (request_id_of env) env.clocks
        (shared_of w)

  abbrev listed : World → Environment → LibraryRequest → Shared × Handled
  listed w env req =
      serve_voices json w.server.config w.server.voice_catalog req (request_id_of env) env.clocks
        (shared_of w)

  speech_secured :
      (w : World) (env : Environment) (req : LibraryRequest) (o : Option HttpResponse)
      → (checked w env req).1 ≡ o
      → (h : Handled) × ((spoken w env req).1 ≡ secured json (request_id_of env) h)
  unfolding serve_speech
  speech_secured w env req none h = (
    (handle_speech json (adapt_request req) (make_deps w.server env)
        (checked w env req).0.metrics).1,
    rw (h, serve_speech) refl,
  )
  speech_secured w env req (some resp) h = (returned resp, rw (h, serve_speech) refl)

  voices_secured :
      (w : World) (env : Environment) (req : LibraryRequest) (o : Option HttpResponse)
      → (checked w env req).1 ≡ o
      → (resp : HttpResponse) × ((listed w env req).1
          ≡ secured json (request_id_of env) (returned resp))
  unfolding serve_voices
  voices_secured w env req none h =
      (handle_voices json w.server.voice_catalog, rw (h, serve_voices) refl)
  voices_secured w env req (some resp) h = (resp, rw (h, serve_voices) refl)

  answer_shared-IsTagged :
      (request_id : Bytes) (w : World) (out : Shared × Handled) (h : Handled)
      → w.t_request_id ≡ request_id
      → out.1 ≡ secured json request_id h
      → IsTagged request_id (answer_shared w out)
  unfolding answer_shared with_shared
  answer_shared-IsTagged request_id w out h tag e = rw e (reply-IsTagged request_id _ h tag)

  answer_shared-IsSent :
      (request_id : Bytes) (w : World) (out : Shared × Handled) (resp : HttpResponse)
      → out.1 ≡ secured json request_id (returned resp)
      → IsSent (answer_shared w out)
  unfolding answer_shared
  answer_shared-IsSent request_id w out resp e = rw e (returned-IsSent request_id _ resp)

  -- Every route but /metrics answers with the headers X-Content-Type-Options, Cache-Control
  -- and X-Request-Id set to nosniff, no-store and the id of the request, and clears the
  -- request id of its thread; only the speech route can be left by an exception, and then the
  -- id stays set. /metrics answers and changes nothing.
  pub serve-IsServed :
      (route : Route) (req : LibraryRequest) (env : Environment) (w : World)
      → IsServed route env w (serve json route req env w)
  unfolding serve
  serve-IsServed health req env w =
      let id = request_id_of env in (reply-IsTagged id _ _ (tagged_id id w), returned-IsSent id _ _)
  serve-IsServed ready req env w =
      let id = request_id_of env in (reply-IsTagged id _ _ (tagged_id id w), returned-IsSent id _ _)
  serve-IsServed metrics req env w = (refl, tt)
  serve-IsServed voices req env w =
      let id = request_id_of env in
      let (resp, e) = voices_secured w env req (checked w env req).1 refl in
      (
        answer_shared-IsTagged id _ (listed w env req) (returned resp) (tagged_id id w) e,
        answer_shared-IsSent id _ (listed w env req) resp e,
      )
  serve-IsServed speech req env w =
      let id = request_id_of env in
      let (h, e) = speech_secured w env req (checked w env req).1 refl in
      answer_shared-IsTagged id _ (spoken w env req) h (tagged_id id w) e

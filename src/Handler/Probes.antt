-- ===== src/Handler/Probes.antt =====
-- `handle_health`, `handle_ready`, `handle_voices` and `handle_metrics`
-- (src/server/request_handler.cpp). A null pointer among the dependencies is `none`.
use voxtral_server.Config.{ServerConfig}
use voxtral_server.Metrics.{Metrics}
use voxtral_server.Voices
use voxtral_server.Voices.{Voice, VoiceCatalog}
use voxtral_server.Handler.{HttpResponse, text_response}
use voxtral_server.Handler.Json.{
  JsonApi, flag, number, text, array, object, Items, items, item, members, member,
}
use voxtral_server.Base.{
  ℕ, ◌-◌, ◌/◌, Bool, false, ◌&&◌, Option, none, some, List, [], ◌∷◌, if◌then◌else◌, Bytes, bytes,
}
use voxtral_server.Base.Int.{ℤ, pos}

-- The uptime in whole seconds; a time point is a number of nanoseconds.
unfoldable pub handle_health : JsonApi → Bytes → ℕ → ℕ → HttpResponse
handle_health json version now start_time = text_response 200 "application/json" (
    json.dump (
      object (
        member (bytes "status") (text (bytes "ok")) (
          member (bytes "version") (text version) (
            member (bytes "uptime_seconds") (number (pos ((now - start_time) / 1_000_000_000)))
              members)))))

-- What `/ready` reads of the pool.
pub record PoolReadings : Type 0 where
  pub is_accepting : Bool
  pub queue_depth : ℕ

abbrev pub accepts : Option PoolReadings → Bool
accepts none = false
accepts (some p) = p.is_accepting

abbrev pub depth_of : Option PoolReadings → ℤ
depth_of none = pos 0
depth_of (some p) = pos p.queue_depth

abbrev pub capacity_of : Option ServerConfig → ℤ
capacity_of none = pos 0
capacity_of (some c) = c.max_queue_depth

-- `backend` is the answer of its `is_ready`.
abbrev pub loaded : Option Bool → Bool
loaded none = false
loaded (some is_ready) = is_ready

unfoldable pub handle_ready :
    JsonApi → Option Bool → Option PoolReadings → Option ServerConfig → HttpResponse
handle_ready json backend pool config =
    let ready = loaded backend && accepts pool in
    text_response (if ready then 200 else 503) "application/json" (
      json.dump (
        object (
          member (bytes "ready") (flag ready) (
            member (bytes "model_loaded") (flag (loaded backend)) (
              member (bytes "queue_depth") (number (depth_of pool))
                (member (bytes "queue_capacity") (number (capacity_of config)) members))))))

unfoldable pub voice_items : List Voice → Items
voice_items [] = items
voice_items (v ∷ vs) =
    item
      (object (
        member (bytes "id") (text v.id) (
          member (bytes "name") (text v.name)
            (member (bytes "language") (text v.language) members))))
      (voice_items vs)

abbrev pub voices_of : Option VoiceCatalog → List Voice
voices_of none = []
voices_of (some c) = Voices.all c

unfoldable pub handle_voices : JsonApi → Option VoiceCatalog → HttpResponse
unfolding voice_items
handle_voices json voice_catalog = text_response 200 "application/json" (
    json.dump
      (object (member (bytes "voices") (array (voice_items (voices_of voice_catalog))) members)))

-- `serialize` is the text exposition of the client library.
unfoldable pub handle_metrics : (Metrics → Bytes) → Metrics → HttpResponse
handle_metrics serialize m =
    text_response 200 "text/plain; version=0.0.4; charset=utf-8" (serialize m)

-- ===== src/Metrics/Registry.antt =====
-- What the constructor of `Metrics` registers with the client library (src/server/metrics.cpp).
use voxtral_server.Base.{List, [], ◌∷◌, Bytes, bytes, String}
use voxtral_server.Base.Float.{Double}

pub data Kind : Type 0 where
  counter : Kind
  gauge : Kind
  -- with the upper bounds of the buckets
  histogram : List Double → Kind

pub record Family : Type 0 where
  pub name : Bytes
  pub help : Bytes
  pub kind : Kind

abbrev family : String → String → Kind → Family
family name help kind = record { name = bytes name; help = bytes help; kind = kind }

-- 1.0, 2.5, 5.0, 10.0, 30.0, 60.0, 120.0, 300.0, 600.0
abbrev pub duration_buckets : List Double
duration_buckets =
    0x3ff0_0000_0000_0000 ∷ 0x4004_0000_0000_0000 ∷ 0x4014_0000_0000_0000 ∷ 0x4024_0000_0000_0000
    ∷ 0x403e_0000_0000_0000 ∷ 0x404e_0000_0000_0000 ∷ 0x405e_0000_0000_0000 ∷ 0x4072_c000_0000_0000
    ∷ 0x4082_c000_0000_0000 ∷ []

-- 50.0, 100.0, 250.0, 500.0, 1000.0, 2000.0, 4096.0
abbrev pub length_buckets : List Double
length_buckets =
    0x4049_0000_0000_0000 ∷ 0x4059_0000_0000_0000 ∷ 0x406f_4000_0000_0000 ∷ 0x407f_4000_0000_0000
    ∷ 0x408f_4000_0000_0000 ∷ 0x409f_4000_0000_0000 ∷ 0x40b0_0000_0000_0000 ∷ []

-- In the order of the member initialisers.
unfoldable pub families : List Family
families =
    family "opentts_requests_total" "Total requests by HTTP status code" counter
    ∷ family "opentts_voice_requests_total" "Per-voice request count" counter
    ∷ family "opentts_requests_rejected_auth_total" "Auth failures" counter
    ∷ family "opentts_requests_rejected_rate_limit_total" "Rate limit hits" counter
    ∷ family "opentts_input_characters_total" "Total input characters processed" counter
    ∷ family "opentts_audio_bytes_generated_total" "Total audio bytes generated" counter
    ∷ family "opentts_errors_total" "Inference errors" counter
    ∷ family "opentts_active_jobs" "Currently processing jobs" gauge
    ∷ family "opentts_queue_depth" "Jobs waiting in queue" gauge
    ∷ family "opentts_synthesis_duration_seconds" "End-to-end synthesis duration in seconds"
        (histogram duration_buckets)
    ∷ family "opentts_inference_duration_seconds" "Inference-only duration in seconds"
        (histogram duration_buckets)
    ∷ family "opentts_audio_duration_seconds" "Generated audio duration in seconds"
        (histogram duration_buckets)
    ∷ family "opentts_input_characters" "Input text length distribution" (histogram length_buckets)
    ∷ []

-- ===== src/Metrics.antt =====
-- `Metrics` (include/tts/metrics.hpp, src/server/metrics.cpp): the values that the server gives to
-- the Prometheus client library. A counter stands for its number of increments, or their sum; a
-- histogram for the values that it observed, the latest first.
pub mod Laws
pub mod Registry
mod Tests
use voxtral_server.Base.Float.{Double}
use voxtral_server.Base.{ℕ, zero, suc, ◌+◌, List, ◌==◌, if◌then◌else◌, Bytes, eq_bytes, []}
use voxtral_server.Base.Int.{ℤ, pos, negsuc, pos_part, neg_part, ltb_ℤ, ◌≤ℤ◌}

pub record Metrics : Type 0 where
  -- by status code
  pub requests_total : ℕ → ℕ
  -- by voice
  pub voice_requests_total : Bytes → ℕ
  pub requests_rejected_auth : ℕ
  pub requests_rejected_rate_limit : ℕ
  pub input_characters_total : ℕ
  pub audio_bytes_generated_total : ℕ
  pub errors_total : ℕ
  -- gauges
  pub active_jobs : ℤ
  pub queue_depth : ℤ
  -- histograms
  pub synthesis_duration_seconds : List Double
  pub inference_duration_seconds : List Double
  pub audio_duration_seconds : List Double
  pub input_characters : List ℕ

-- The constructor.
unfoldable pub initial : Metrics
initial = record {
  requests_total = λ status. 0;
  voice_requests_total = λ voice. 0;
  requests_rejected_auth = 0;
  requests_rejected_rate_limit = 0;
  input_characters_total = 0;
  audio_bytes_generated_total = 0;
  errors_total = 0;
  active_jobs = pos 0;
  queue_depth = pos 0;
  synthesis_duration_seconds = [];
  inference_duration_seconds = [];
  audio_duration_seconds = [];
  input_characters = [];
}

-- `Increment()` and `Decrement()` of a gauge.
unfoldable pub increment : ℤ → ℤ
increment (pos n) = pos (suc n)
increment (negsuc zero) = pos 0
increment (negsuc (suc n)) = negsuc n

unfoldable pub decrement : ℤ → ℤ
decrement (pos zero) = negsuc 0
decrement (pos (suc n)) = pos n
decrement (negsuc n) = negsuc (suc n)

-- `requests_total(status).Increment()`
unfoldable pub count_request : ℕ → Metrics → Metrics
count_request status m = record m {
  requests_total = λ s. if s == status then m.requests_total s + 1 else m.requests_total s;
}

-- `voice_requests_total(voice).Increment()`
unfoldable pub count_voice : Bytes → Metrics → Metrics
count_voice voice m = record m {
  voice_requests_total =
      λ v. if eq_bytes v voice then m.voice_requests_total v + 1 else m.voice_requests_total v;
}

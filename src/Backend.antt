-- ===== src/Backend.antt =====
-- `SynthesisRequest` and `SynthesisResult` (include/tts/backend.hpp).
pub mod Wav
pub mod WavFormat
pub mod Voxtral
pub mod Mock
pub mod Pcm
pub mod Engine
mod Tests
use voxtral_server.Base.Float.{Float, Double, one}
use voxtral_server.Base.{ℕ, Bytes, []}

pub record SynthesisRequest : Type 0 where
  pub text : Bytes
  pub voice : Bytes
  pub model : Bytes
  pub response_format : Bytes
  pub speed : Float

pub record SynthesisResult : Type 0 where
  pub audio_data : Bytes
  pub sample_rate : ℕ
  pub duration_seconds : Double
  pub inference_time_seconds : Double

-- A value with its member initialisers.
abbrev pub no_result : SynthesisResult
no_result = record {
  audio_data = [];
  sample_rate = 24000;
  duration_seconds = 0;
  inference_time_seconds = 0;
}

-- ===== src/Backend/Voxtral.antt =====
-- `VoxtralBackend` (src/tts/voxtral_backend.hpp, src/tts/voxtral_backend.cpp) in a build without the
-- engine, where `TTS_HAS_VOXTRAL_ENGINE` is not defined.
use voxtral_server.Backend.{SynthesisRequest, SynthesisResult}
use voxtral_server.Backend.Wav.{build_silent_wav}
use voxtral_server.Backend.WavFormat.{wav_file, build_silent_wav-wav_file}
use voxtral_server.Base.Float.{Double}
use voxtral_server.Pool.{Inference, returned, threw}
use voxtral_server.Base.{
  ℕ, ◌*◌, ◌≡◌, ◌↔◌, ◌⊎◌, Bool, true, false, not, ◌&&◌, [], arith, if◌then◌else◌, replicate, Bytes,
  bytes, is_empty,
}
use voxtral_server.Base.Int.{pos}

pub record VoxtralBackend : Type 0 where
  pub initialized : Bool
  pub model_path : Bytes

unfoldable pub new_backend : VoxtralBackend
new_backend = record { initialized = false; model_path = [] }

-- What the file system says of a path: whether it is there, a regular file, a directory.
pub record PathInfo : Type 0 where
  pub exists : Bool
  pub is_regular_file : Bool
  pub is_directory : Bool

unfoldable pub initialize : VoxtralBackend → Bytes → PathInfo → VoxtralBackend × Bool
initialize b model_path info =
    if is_empty model_path
    then (b, false)
    else if not info.exists
    then (b, false)
    else if not info.is_regular_file && not info.is_directory
    then (b, false)
    else (record { initialized = true; model_path = model_path }, true)

abbrev pub sample_rate : ℕ
sample_rate = 24_000

-- `1.0`
abbrev pub one_second : Double
one_second = 0x3ff0_0000_0000_0000

-- A second of silence is `sample_rate` samples. The time that it took is a reading of the clock.
unfoldable pub synthesize : VoxtralBackend → SynthesisRequest → Double → Inference SynthesisResult
synthesize b request inference_time =
    if not b.initialized
    then threw (bytes "VoxtralBackend::synthesize() called before successful initialize()")
    else returned (record {
      audio_data = build_silent_wav (pos sample_rate) false sample_rate;
      sample_rate = sample_rate;
      duration_seconds = one_second;
      inference_time_seconds = inference_time;
    })

unfoldable pub is_ready : VoxtralBackend → Bool
is_ready b = b.initialized

-- A result whose audio is a WAV file of `size` zero bytes at its own rate.
abbrev pub IsSilence : ℕ → Inference SynthesisResult → Type 0
IsSilence size (returned result) =
    result.audio_data ≡ wav_file result.sample_rate (replicate size 0)
IsSilence size (threw what) = ⊥

pub initialize-ready :
    (b : VoxtralBackend) (model_path : Bytes) (info : PathInfo)
    → (initialize b model_path info).1 ≡ true
    → (initialize b model_path info).0.initialized ≡ true
unfolding initialize
initialize-ready b model_path info e = ground (arith, e)

-- A backend whose `initialize` has succeeded returns for any request, in a build without the
-- engine, a WAV file at its own sample rate with a second of zero samples.
pub synthesize-initialize :
    (b : VoxtralBackend) (model_path : Bytes) (info : PathInfo) (request : SynthesisRequest)
    (time : Double)
    → (initialize b model_path info).1 ≡ true
    → IsSilence (sample_rate * 2) (synthesize (initialize b model_path info).0 request time)
unfolding synthesize
synthesize-initialize b model_path info request time e =
    simp (initialize-ready b model_path info e)
      (build_silent_wav-wav_file sample_rate sample_rate (omega arith) (omega arith) (omega arith))

-- `initialize` succeeds exactly on a nonempty path to a file or a directory, and where it fails the
-- backend is as before.
pub initialize_iff :
    (b : VoxtralBackend) (model_path : Bytes) (info : PathInfo)
    → (((initialize b model_path info).1 ≡ true) ↔ (
        (is_empty model_path ≡ false)
        × (info.exists ≡ true)
        × ((info.is_regular_file ≡ true) ⊎ (info.is_directory ≡ true))))
      × ((initialize b model_path info).1 ≡ false → (initialize b model_path info).0 ≡ b)
unfolding initialize
initialize_iff b model_path info = (ground arith, ground arith)

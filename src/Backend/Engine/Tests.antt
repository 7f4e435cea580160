-- ===== src/Backend/Engine/Tests.antt =====
-- The theorems on the engine's path at concrete inputs.
use voxtral_server.Backend.{SynthesisRequest}
use voxtral_server.Backend.Pcm.{
  fmin, fmax, clamp, round_even, rounded, scaled, to_sample, build_wav_from_float_samples,
}
use voxtral_server.Backend.Pcm.Samples.{IsConverted, to_sample-IsConverted}
use voxtral_server.Backend.Pcm.Format.{
  pcm_data, build_wav_from_float_samples-wav_file, read_samples, converted, read_samples-build_wav,
}
use voxtral_server.Backend.WavFormat.{wav_file}
use voxtral_server.Backend.Voxtral.{PathInfo}
use voxtral_server.Backend.Engine.{
  Engine, Allocated, State, new_backend, c_str, is_usable, initialize, synthesize, destroy,
}
use voxtral_server.Backend.Engine.Heap.{
  Call, initializes, synthesizes, call_all, loads, destroy-call_all,
}
use voxtral_server.Backend.Engine.Outcomes.{IsSynthesized, synthesize-IsSynthesized}
use voxtral_server.Base.Float.{Float, less, one}
use voxtral_server.Base.{
  ℕ, zero, suc, ◌+◌, ◌^◌, ◌<◌, min, ◌≡◌, refl, true, false, some, List, [], ◌∷◌, arith, drop, Bytes,
  bytes, is_empty,
}
use voxtral_server.Base.Int.{pos, negsuc}

-- 0.5, -0.25 and then 2.0 for ever.
abbrev wave : ℕ → Float
wave zero = 0x3f00_0000
wave (suc zero) = 0xbe80_0000
wave (suc (suc i)) = 0x4000_0000

wave_fits : (j : ℕ) → wave j < 2 ^ 32
wave_fits zero = omega arith
wave_fits (suc zero) = omega arith
wave_fits (suc (suc j)) = omega arith

converts : converted wave 0 3 ≡ pos 16_383 ∷ negsuc 8190 ∷ pos 32_767 ∷ []
unfolding converted to_sample clamp fmin fmax scaled rounded round_even less
converts = refl

to_sample-IsConverted_example : IsConverted 0xbe80_0000 (to_sample 0xbe80_0000)
to_sample-IsConverted_example = to_sample-IsConverted 0xbe80_0000 (omega arith)

build_wav_from_float_samples-wav_file_example :
    build_wav_from_float_samples (some wave) (pos 3) (pos 24_000)
    ≡ wav_file 24_000 (pcm_data wave 0 3)
build_wav_from_float_samples-wav_file_example =
    build_wav_from_float_samples-wav_file wave 3 24_000 (omega arith) (omega arith) (omega arith)

read_samples-build_wav_example :
    read_samples (drop 44 (build_wav_from_float_samples (some wave) (pos 3) (pos 24_000)))
    ≡ converted wave 0 3
read_samples-build_wav_example =
    read_samples-build_wav wave 3 24_000 wave_fits (omega arith) (omega arith) (omega arith)

-- An engine that has one context, and says the wave for any text.
abbrev engine : Engine
engine = record {
  Ctx = ℕ;
  load = λ path. some 1;
  generate = λ c text voice. record { rc = pos 0; samples = some wave; n_samples = pos 3 };
}

abbrev file : PathInfo
file = record { exists = true; is_regular_file = true; is_directory = false }

abbrev path : Bytes
path = b'm' ∷ []

abbrev request : SynthesisRequest
request = record {
  text = bytes "Hi";
  voice = bytes "casual_male";
  model = bytes "voxtral-4b";
  response_format = bytes "wav";
  speed = one;
}

abbrev heap : Allocated
heap = record { contexts = 0; buffers = 0 }

abbrev new : State engine
new = (new_backend engine, heap)

initializes_file : (initialize engine path file new).1 ≡ true
unfolding initialize is_usable is_empty c_str
initializes_file = refl

synthesize-IsSynthesized_example :
    IsSynthesized engine request
      (some 1)
      (synthesize engine request (λ n. 0) 0 (initialize engine path file new).0).1
synthesize-IsSynthesized_example =
    synthesize-IsSynthesized engine new path file request (λ n. 0) 0 (λ c. omega arith)
      initializes_file

-- The second `initialize` drops a context that is never freed.
abbrev calls : List Call
calls = initializes path file ∷ synthesizes request (λ n. 0) 0 ∷ initializes path file ∷ []

leaks : loads engine calls ≡ 2
unfolding loads is_usable is_empty c_str
leaks = refl

destroy-call_all_example :
    ((destroy engine (call_all engine calls new)).1.buffers ≡ 0)
    × ((destroy engine (call_all engine calls new)).1.contexts + min 1 (loads engine calls)
        ≡ 0 + loads engine calls)
destroy-call_all_example = destroy-call_all engine calls heap

-- ===== src/Backend/Engine.antt =====
-- `VoxtralBackend` (src/tts/voxtral_backend.hpp, src/tts/voxtral_backend.cpp) in a build with the
-- engine, where `TTS_HAS_VOXTRAL_ENGINE` is defined.
pub mod Heap
pub mod Outcomes
mod Tests
use voxtral_server.Backend.{SynthesisRequest, SynthesisResult}
use voxtral_server.Backend.Wav.{build_silent_wav}
use voxtral_server.Backend.Pcm.{build_wav_from_float_samples}
use voxtral_server.Backend.Voxtral.{PathInfo, sample_rate, one_second}
use voxtral_server.Base.Float.{Float, Double}
use voxtral_server.Pool.{Inference, returned, threw}
use voxtral_server.Base.{
  ℕ, ◌+◌, ◌-◌, Bool, true, false, not, ◌&&◌, ◌||◌, Option, none, some, ◌∷◌, ◌==◌, if◌then◌else◌,
  Bytes, bytes, is_empty, [],
}
use voxtral_server.Base.Int.{ℤ, pos, negsuc, pos_part, neg_part, ltb_ℤ, ◌≤ℤ◌}

-- What `tts_generate` answers: its return code, the pointer to the samples, and their number. The
-- pointer is null, or that of a buffer of at least as many floats, which the caller owns.
pub record Generated : Type 0 where
  pub rc : ℤ
  pub samples : Option (ℕ → Float)
  pub n_samples : ℤ

-- The engine, a library in C: the answers of `tts_load` and `tts_generate`. A null pointer is `none`.
pub record Engine : Type 1 where
  pub Ctx : Type 0
  pub load : Bytes → Option Ctx
  pub generate : Option Ctx → Bytes → Bytes → Generated

-- `c_str()`, as a function in C reads it: up to the first zero byte.
unfoldable pub c_str : Bytes → Bytes
c_str [] = []
c_str (c ∷ s) = let rest = c_str s in if c == 0 then [] else c ∷ rest

-- How many contexts of the engine and how many of its buffers are not freed.
pub record Allocated : Type 0 where
  pub contexts : ℕ
  pub buffers : ℕ

-- The checks of the path.
unfoldable pub is_usable : Bytes → PathInfo → Bool
is_usable model_path info =
    not (is_empty model_path)
    && info.exists
    && not (not info.is_regular_file && not info.is_directory)

abbrev pub is_null : {A : Type 0} → Option A → Bool
is_null none = true
is_null (some a) = false

abbrev is_zero : ℤ → Bool
is_zero (pos n) = n == 0
is_zero (negsuc n) = false

-- The test of what `tts_generate` answered.
unfoldable pub is_failed : Generated → Bool
is_failed g = not (is_zero g.rc) || is_null g.samples || ltb_ℤ g.n_samples (pos 1)

-- `tts_generate` hands over a buffer; `free` of a pointer that is not null.
abbrev pub with_buffer : Generated → Allocated → Allocated
with_buffer g heap = if is_null g.samples then heap else record heap { buffers = heap.buffers + 1 }

abbrev pub free : Generated → Allocated → Allocated
free g heap = if is_null g.samples then heap else record heap { buffers = heap.buffers - 1 }

-- The path through the engine, from the answer of `tts_generate` on. The time that it took is a
-- reading of the clock, and `duration` is the number of samples divided by the rate.
unfoldable pub conclude :
    Generated → Double → Double → Allocated → Allocated × Inference SynthesisResult
conclude g duration inference_time heap =
    let held = with_buffer g heap in
    if is_failed g then (free g held, threw (bytes "TTS inference failed")) else (
      free g held,
      returned (record {
        audio_data = build_wav_from_float_samples g.samples g.n_samples (pos sample_rate);
        sample_rate = sample_rate;
        duration_seconds = duration;
        inference_time_seconds = inference_time;
      }),
    )

module _ (engine : Engine) where
  open engine use {Ctx, load, generate}

  pub record EngineBackend : Type 0 where
    pub initialized : Bool
    pub model_path : Bytes
    pub ctx : Option Ctx
    pub use_real_engine : Bool

  abbrev pub State : Type 0
  State = EngineBackend × Allocated

  unfoldable pub new_backend : EngineBackend
  new_backend = record { initialized = false; model_path = []; ctx = none; use_real_engine = false }

  -- `tts_load` and what follows it; a context that was there before is overwritten.
  unfoldable pub adopt : Bytes → Option Ctx → State → State
  adopt model_path (some c) (b, heap) = (
    record { initialized = true; model_path = model_path; ctx = some c; use_real_engine = true },
    record heap { contexts = heap.contexts + 1 },
  )
  adopt model_path none (b, heap) =
      (record b { initialized = true; model_path = model_path; use_real_engine = false }, heap)

  unfoldable pub initialize : Bytes → PathInfo → State → State × Bool
  initialize model_path info s =
      if is_usable model_path info
      then (adopt model_path (load (c_str model_path)) s, true)
      else (s, false)

  unfoldable pub synthesize :
      SynthesisRequest → (ℤ → Double) → Double → State → State × Inference SynthesisResult
  synthesize request seconds inference_time (b, heap) =
      let g = generate b.ctx (c_str request.text) (c_str request.voice) in
      let (heap', inference) = conclude g (seconds g.n_samples) inference_time heap in
      if not b.initialized
      then (
        (b, heap),
        threw (bytes "VoxtralBackend::synthesize() called before successful initialize()"),
      )
      else if b.use_real_engine
      then ((b, heap'), inference)
      else (
        (b, heap),
        returned (record {
          audio_data = build_silent_wav (pos sample_rate) false sample_rate;
          sample_rate = sample_rate;
          duration_seconds = one_second;
          inference_time_seconds = inference_time;
        }),
      )

  -- The destructor.
  unfoldable pub destroy : State → State
  destroy (b, heap) =
      if is_null b.ctx
      then (b, heap)
      else (record b { ctx = none }, record heap { contexts = heap.contexts - 1 })

  unfoldable pub is_ready : EngineBackend → Bool
  is_ready b = b.initialized

  unfoldable pub model_name : EngineBackend → Bytes
  model_name b = bytes "voxtral-4b"

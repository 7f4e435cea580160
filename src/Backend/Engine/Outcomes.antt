-- ===== src/Backend/Engine/Outcomes.antt =====
-- What `VoxtralBackend` makes of a request when its `initialize` has succeeded.
use voxtral_server.Backend.{SynthesisRequest, SynthesisResult}
use voxtral_server.Backend.Pcm.Format.{pcm_data, build_wav_from_float_samples-wav_file}
use voxtral_server.Backend.WavFormat.{wav_file, build_silent_wav-wav_file}
use voxtral_server.Backend.Voxtral.{PathInfo, sample_rate, IsSilence}
use voxtral_server.Backend.Engine.{
  Generated, Engine, c_str, Allocated, State, adopt, is_usable, initialize, is_failed, conclude,
  synthesize,
}
use voxtral_server.Base.Float.{Float, Double}
use voxtral_server.Pool.{Inference, returned, threw}
use voxtral_server.Base.{
  ℕ, zero, suc, ◌+◌, ◌*◌, ◌^◌, ◌<◌, ◌≡◌, refl, inl, inr, true, false, Option, none, some, arith,
  le→not_ltb, Bool-cases, Bytes, bytes,
}
use voxtral_server.Base.Int.{ℤ, pos, negsuc, pos_part}

-- The engine answered with at least one sample, and no error.
abbrev pub Speaks : Generated → (ℕ → Float) → ℕ → Type 0
Speaks g samples n = (g.rc ≡ pos 0) × (g.samples ≡ some samples) × (g.n_samples ≡ pos n) × (0 < n)

-- The samples that the engine made, in a WAV file at the rate of the result; or, without any, the
-- exception.
abbrev pub IsSpoken : Generated → Inference SynthesisResult → Type 0
IsSpoken g (returned result) =
    (samples : ℕ → Float) × (n : ℕ) × Speaks g samples n
    × (result.audio_data ≡ wav_file result.sample_rate (pcm_data samples 0 n))
IsSpoken g (threw what) =
    (what ≡ bytes "TTS inference failed") × ((samples : ℕ → Float) (n : ℕ) → Speaks g samples n → ⊥)

failed-silent :
    (g : Generated) (samples : ℕ → Float) (n : ℕ) → is_failed g ≡ true → Speaks g samples n → ⊥
unfolding is_failed
failed-silent g samples n e (rc, given, size, some_samples) =
    let fine : is_failed g ≡ false =
      rw (rc, given, size) (le→not_ltb _ _ (omega (arith, some_samples))) in
    cc (e, fine)

not_failed-Speaks :
    (rc n_samples : ℤ) (samples : Option (ℕ → Float))
    → let g : Generated = record { rc = rc; samples = samples; n_samples = n_samples } in
      is_failed g ≡ false → (s : ℕ → Float) × (n : ℕ) × Speaks g s n
unfolding is_failed
not_failed-Speaks (negsuc n) n_samples samples e = cc e
not_failed-Speaks (pos (suc n)) n_samples samples e = ground (arith, e)
not_failed-Speaks (pos zero) n_samples none e = cc e
not_failed-Speaks (pos zero) (negsuc n) (some s) e = ground (arith, e)
not_failed-Speaks (pos zero) (pos n) (some s) e = (s, n, (refl, refl, refl, ground (arith, e)))

conclude-IsSpoken :
    (g : Generated) (duration time : Double) (heap : Allocated)
    → 44 + pos_part g.n_samples * 2 < 2 ^ 32
    → IsSpoken g (conclude g duration time heap).1
unfolding conclude
conclude-IsSpoken g duration time heap fits = elim (Bool-cases (is_failed g)) [
  | inl failed ↦ rw failed (refl, λ samples n h. failed-silent g samples n failed h)
  | inr ok ↦
      let (samples, n, h) = not_failed-Speaks g.rc g.n_samples g.samples ok in
      rw ok (
        samples,
        n,
        h,
        rw (h.1, h.2)
            (build_wav_from_float_samples-wav_file samples n sample_rate h.3 (omega arith)
              (ground (arith, fits, h.2))),
      )
]

-- What a call makes of a request, by what `tts_load` answered.
module _ (engine : Engine) where
  open engine use {Ctx, load, generate}

  abbrev pub IsSynthesized : SynthesisRequest → Option Ctx → Inference SynthesisResult → Type 0
  IsSynthesized request none inference = IsSilence (sample_rate * 2) inference
  IsSynthesized request (some c) inference =
      IsSpoken (generate (some c) (c_str request.text) (c_str request.voice)) inference

  -- After an `initialize` that succeeds, with an engine that answers this request with no
  -- more samples than a file of 32-bit size holds: where the model did not load, `synthesize`
  -- returns a WAV file with a second of zero samples; where it did, it returns the WAV file
  -- of the samples that the engine made of the request's text and voice, up to a zero byte,
  -- if the engine returned 0, a buffer and a positive number, and throws "TTS inference
  -- failed" exactly if it did not.
  pub synthesize-IsSynthesized :
      (s : State engine) (model_path : Bytes) (info : PathInfo) (request : SynthesisRequest)
      (seconds : ℤ → Double) (time : Double)
      → ((c : Option Ctx)
          → 44 + pos_part (generate c (c_str request.text) (c_str request.voice)).n_samples * 2
            < 2 ^ 32)
      → (initialize engine model_path info s).1 ≡ true
      → IsSynthesized request
          (load (c_str model_path))
          (synthesize engine request seconds time (initialize engine model_path info s).0).1
  unfolding initialize
  synthesize-IsSynthesized s model_path info request seconds time fits e =
      elim (Bool-cases (is_usable model_path info)) [
        | inl usable ↦ rw usable (of_load (load (c_str model_path)))
        | inr other ↦ ground (arith, e, other)
      ]
    where
      of_load :
          (c : Option Ctx)
          → IsSynthesized request c
              (synthesize engine request seconds time (adopt engine model_path c s)).1
      of_load none =
          unfold synthesize adopt in
          build_silent_wav-wav_file sample_rate sample_rate (omega arith) (omega arith)
            (omega arith)
      of_load (some c) =
          unfold synthesize adopt in
          conclude-IsSpoken (generate (some c) (c_str request.text) (c_str request.voice)) _ time _
            (fits (some c))

-- ===== src/Backend/Pcm.antt =====
-- `build_wav_from_float_samples` (src/tts/voxtral_backend.cpp), of a build with the engine. A product
-- of two floats is rounded to the nearest float, and to the even one of two.
pub mod Samples
pub mod Format
use voxtral_server.Backend.Wav.{store, build_wav_header, resize, build_silent_wav}
use voxtral_server.Base.Float.{Float, is_nan, less, negate, one}
use voxtral_server.Base.{
  ℕ, zero, suc, ◌+◌, ◌-◌, ◌*◌, ◌/◌, ◌%◌, ◌^◌, false, Option, none, some, ◌∷◌, ltb, ◌==◌,
  if◌then◌else◌, Bytes, [],
}
use voxtral_server.Base.Int.{ℤ, pos, negsuc, pos_part, neg_part, ltb_ℤ, ◌≤ℤ◌}

-- `-1.0F`
abbrev pub minus_one : Float
minus_one = 0xbf80_0000

-- `std::fmin` and `std::fmax`: where one number is a NaN, the other.
unfoldable pub fmin : Float → Float → Float
fmin a b = if is_nan b then a else if is_nan a then b else if less b a then b else a

unfoldable pub fmax : Float → Float → Float
fmax a b = if is_nan b then a else if is_nan a then b else if less a b then b else a

unfoldable pub clamp : Float → Float
clamp sample = fmax minus_one (fmin one sample)

abbrev pub exponent : Float → ℕ
exponent w = w / 2 ^ 23 % 2 ^ 8

-- The number of units, of which 2 ^ (150 - exponent) make 1, in a float that is not subnormal.
abbrev pub significand : Float → ℕ
significand w = 2 ^ 23 + w % 2 ^ 23

-- `p` in multiples of 2 ^ (k + 1): the nearest one, and the even one of two.
unfoldable pub round_even : ℕ → ℕ → ℕ
round_even k p =
    let q = p / 2 ^ suc k in
    let r = p % 2 ^ suc k in if ltb r (2 ^ k) then q else if ltb (2 ^ k) r then q + 1 else q + q % 2

-- The 24 digits of a product of 38 or 39, in its units.
unfoldable pub rounded : ℕ → ℕ
rounded p = if ltb p (2 ^ 38) then round_even 13 p * 2 ^ 14 else round_even 14 p * 2 ^ 15

-- The integer part of `|w| * 32767.0F` for |w| ≤ 1. That of a subnormal number is 0.
unfoldable pub scaled : Float → ℕ
scaled w = if exponent w == 0 then 0 else rounded (significand w * 32_767) / 2 ^ (150 - exponent w)

-- `static_cast<int16_t>(clamped * 32767.0F)`
unfoldable pub to_sample : Float → ℤ
to_sample sample =
    let clamped = clamp sample in
    if ltb clamped (2 ^ 31) then pos (scaled clamped) else negate (scaled clamped)

-- `static_cast<uint16_t>(sample)`
unfoldable pub to_u16 : ℤ → ℕ
to_u16 (pos n) = n % 2 ^ 16
to_u16 (negsuc n) = 2 ^ 16 - 1 - n % 2 ^ 16

-- The body of the loop; `pcm` starts at 44.
unfoldable pub write_sample : ℕ → Float → Bytes → Bytes
write_sample i x wav =
    let sample = to_u16 (to_sample x) in
    store (44 + (i * 2 + 1)) (sample / 2 ^ 8 % 256 ∷ [])
      (store (44 + i * 2) (sample % 256 ∷ []) wav)

-- The loop from `i` on, with as many rounds as are left.
unfoldable pub write_samples : (ℕ → Float) → ℕ → ℕ → Bytes → Bytes
write_samples samples i zero wav = wav
write_samples samples i (suc left) wav =
    write_samples samples (i + 1) left (write_sample i (samples i) wav)

-- `samples` is the null pointer, or a buffer of at least `n_samples` floats. The new size is a
-- `uint32_t`.
unfoldable pub build_wav_from_float_samples : Option (ℕ → Float) → ℤ → ℤ → Bytes
build_wav_from_float_samples none n_samples sample_rate = build_silent_wav sample_rate false 0
build_wav_from_float_samples (some samples) n_samples sample_rate =
    let num = pos_part n_samples in
    if ltb_ℤ n_samples (pos 1)
    then build_silent_wav sample_rate false 0
    else write_samples samples 0 num
        (resize ((44 + num * 2) % 2 ^ 32) (build_wav_header sample_rate num))

-- ===== src/Backend/Wav.antt =====
-- The WAV files of `VoxtralBackend` (src/tts/voxtral_backend.cpp). A buffer is the list of its bytes.
use voxtral_server.Base.{
  ℕ, ◌+◌, ◌-◌, ◌*◌, ◌/◌, ◌%◌, ◌^◌, Bool, ◌||◌, List, [], ◌∷◌, ◌++◌, if◌then◌else◌, length, take,
  drop, replicate, Bytes, bytes,
}
use voxtral_server.Base.Int.{ℤ, pos, negsuc, ltb_ℤ}

-- `write_u32` and `write_u16`: the bytes that they store.
unfoldable pub write_u32 : ℕ → Bytes
write_u32 val = val % 256 ∷ val / 2 ^ 8 % 256 ∷ val / 2 ^ 16 % 256 ∷ val / 2 ^ 24 % 256 ∷ []

unfoldable pub write_u16 : ℕ → Bytes
write_u16 val = val % 256 ∷ val / 2 ^ 8 % 256 ∷ []

-- A store of these bytes at an offset.
unfoldable pub store : ℕ → Bytes → Bytes → Bytes
store offset vals buf = take offset buf ++ (vals ++ drop (offset + length vals) buf)

-- `static_cast<uint32_t>(n)`
unfoldable pub to_u32 : ℤ → ℕ
to_u32 (pos n) = n % 2 ^ 32
to_u32 (negsuc n) = 2 ^ 32 - 1 - n % 2 ^ 32

abbrev pub double_of : ℤ → ℤ
double_of (pos n) = pos (n * 2)
double_of (negsuc n) = negsuc (n * 2 + 1)

abbrev pub wav_fields : ℤ → ℕ → List (ℕ × Bytes)
wav_fields sample_rate data_size =
    (0, bytes "RIFF")
    ∷ (4, write_u32 ((36 + data_size) % 2 ^ 32))
    ∷ (8, bytes "WAVE")
    ∷ (12, bytes "fmt ")
    ∷ (16, write_u32 16)
    ∷ (20, write_u16 1)
    ∷ (22, write_u16 1)
    ∷ (24, write_u32 (to_u32 sample_rate))
    ∷ (28, write_u32 (to_u32 (double_of sample_rate)))
    ∷ (32, write_u16 2)
    ∷ (34, write_u16 16)
    ∷ (36, bytes "data")
    ∷ (40, write_u32 data_size)
    ∷ []

unfoldable pub store_all : List (ℕ × Bytes) → Bytes → Bytes
store_all [] buf = buf
store_all ((offset, vals) ∷ fields) buf = store_all fields (store offset vals buf)

-- `build_wav_header`; `num_samples` is a `uint32_t`.
unfoldable pub build_wav_header : ℤ → ℕ → Bytes
build_wav_header sample_rate num_samples =
    store_all (wav_fields sample_rate (num_samples * 2 % 2 ^ 32)) (replicate 44 0)

-- `resize(size, 0)`
unfoldable pub resize : ℕ → Bytes → Bytes
resize size buf = take size buf ++ replicate (size - length buf) 0

-- `build_silent_wav`. What it uses of the duration is whether that is below zero, and the number of
-- samples that the product with the rate comes to; both are arguments. The new size is a `uint32_t`.
unfoldable pub build_silent_wav : ℤ → Bool → ℕ → Bytes
build_silent_wav sample_rate is_negative num_samples =
    if ltb_ℤ sample_rate (pos 1) || is_negative
    then []
    else resize ((44 + num_samples * 2) % 2 ^ 32) (build_wav_header sample_rate num_samples)

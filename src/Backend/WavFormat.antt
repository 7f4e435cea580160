-- ===== src/Backend/WavFormat.antt =====
-- The WAV files against the description of the format.
use voxtral_server.Backend.Wav.{
  write_u32, write_u16, store, to_u32, wav_fields, store_all, build_wav_header, resize,
  build_silent_wav,
}
use voxtral_server.Base.{
  ℕ, zero, suc, ◌+◌, ◌-◌, ◌*◌, ◌/◌, ◌%◌, ◌^◌, ◌≤◌, ◌<◌, ◌≡◌, refl, sym, ap, ◌∙◌, false, [], ◌∷◌,
  ◌++◌, arith, le→not_ltb, length, take, replicate, length-replicate, Bytes, bytes,
}
use voxtral_server.Base.Int.{pos, ltb_ℤ}

-- `n` in `k` bytes, the lowest first.
unfoldable pub little_endian : ℕ → ℕ → Bytes
little_endian zero n = []
little_endian (suc k) n = n % 256 ∷ little_endian k (n / 256)

-- A chunk of a RIFF file: its name, the size of its payload, and the payload.
unfoldable pub chunk : Bytes → Bytes → Bytes
chunk name payload = name ++ (little_endian 4 (length payload) ++ payload)

-- The `fmt ` payload of a file of one channel with 16 bits per sample: PCM, the channels, the rate,
-- the bytes per second, the bytes per frame, and the bits per sample.
unfoldable pub pcm_format : ℕ → Bytes
pcm_format rate =
    little_endian 2 1
    ++ (little_endian 2 1
        ++ (little_endian 4 rate
            ++ (little_endian 4 (rate * 2) ++ (little_endian 2 2 ++ little_endian 2 16))))

abbrev payload : ℕ → Bytes → Bytes
payload rate pcm =
    bytes "WAVE" ++ (chunk (bytes "fmt ") (pcm_format rate) ++ chunk (bytes "data") pcm)

-- The file of this rate and these samples.
unfoldable pub wav_file : ℕ → Bytes → Bytes
wav_file rate pcm = chunk (bytes "RIFF") (payload rate pcm)

length-payload : (rate : ℕ) (pcm : Bytes) → length (payload rate pcm) ≡ 36 + length pcm
unfolding chunk pcm_format little_endian bytes
length-payload rate pcm = omega arith

shift_16 : (n : ℕ) → n / 2 ^ 16 ≡ n / 256 / 256
shift_16 n = omega arith

shift_24 : (n : ℕ) → n / 2 ^ 24 ≡ n / 256 / 256 / 256
shift_24 n = omega arith

write_u32-little_endian : (n : ℕ) → write_u32 n ≡ little_endian 4 n
unfolding write_u32 little_endian
write_u32-little_endian n =
    λ i. n % 256 ∷ n / 2 ^ 8 % 256 ∷ shift_16 n i % 256 ∷ shift_24 n i % 256 ∷ []

-- The file around four numbers, written by `w`.
abbrev frame : (ℕ → Bytes) → ℕ → ℕ → ℕ → ℕ → Bytes → Bytes
frame w total rate byte_rate size pcm =
    bytes "RIFF"
    ++ (w total
        ++ (bytes "WAVE"
            ++ (bytes "fmt "
                ++ (w 16
                    ++ (little_endian 2 1
                        ++ (little_endian 2 1
                            ++ (w rate
                                ++ (w byte_rate
                                    ++ (little_endian 2 2
                                        ++ (little_endian 2 16
                                            ++ (bytes "data" ++ (w size ++ pcm))))))))))))

header-frame :
    (rate size : ℕ) (pcm : Bytes)
    → store_all (wav_fields (pos rate) size) (replicate 44 0) ++ pcm
      ≡ frame write_u32 ((36 + size) % 2 ^ 32) (rate % 2 ^ 32) (rate * 2 % 2 ^ 32) size pcm
unfolding store_all store to_u32 write_u16 write_u32 little_endian bytes
header-frame rate size pcm = refl

frame-wav_file :
    (rate : ℕ) (pcm : Bytes)
    → frame (little_endian 4) (length (payload rate pcm)) rate (rate * 2) (length pcm) pcm
      ≡ wav_file rate pcm
unfolding wav_file chunk pcm_format little_endian bytes
frame-wav_file rate pcm = refl

pub header-wav_file :
    (rate size : ℕ) (pcm : Bytes)
    → rate * 2 < 2 ^ 32
    → 36 + size < 2 ^ 32
    → length pcm ≡ size
    → store_all (wav_fields (pos rate) size) (replicate 44 0) ++ pcm ≡ wav_file rate pcm
header-wav_file rate size pcm r s e =
    let words : write_u32 ≡ little_endian 4 = λ i n. write_u32-little_endian n i in
    let total : (36 + size) % 2 ^ 32 ≡ length (payload rate pcm) =
      omega (arith, s, e, length-payload rate pcm) in
    let same : size ≡ length pcm = sym e in
    let low : rate % 2 ^ 32 ≡ rate = omega (arith, r) in
    let twice : rate * 2 % 2 ^ 32 ≡ rate * 2 = omega (arith, r) in
    header-frame rate size pcm
    ∙ (λ i. frame (words i) (total i) (low i) (twice i) (same i) pcm)
    ∙ frame-wav_file rate pcm

pub length-build_wav_header :
    (rate num_samples : ℕ) → length (build_wav_header (pos rate) num_samples) ≡ 44
unfolding build_wav_header store_all store write_u32 write_u16 bytes
length-build_wav_header rate num_samples = refl

take_all : (n : ℕ) (s : Bytes) → length s ≤ n → take n s ≡ s
take_all n [] h = take_nothing n
  where
    take_nothing : (n : ℕ) → take {A = ℕ} n [] ≡ []
    take_nothing zero = refl
    take_nothing (suc n) = refl
take_all zero (c ∷ s) h = absurd (omega (arith, h))
take_all (suc n) (c ∷ s) h = ap (◌∷◌ c) (take_all n s (omega (arith, h)))

pub resize-longer :
    (size more : ℕ) (buf : Bytes)
    → size ≡ length buf + more
    → resize size buf ≡ buf ++ replicate more 0
unfolding resize
resize-longer size more buf e =
    let rest : size - length buf ≡ more = omega (arith, e) in
    rw (take_all size buf (omega (arith, e)), rest) refl

-- For a positive sample rate of which twice fits an `int`, and a number of samples with which
-- the whole file fits 32 bits, `build_silent_wav` makes the RIFF file of one 16-bit PCM channel
-- at that rate whose samples are that many zeros, as described chunk by chunk.
pub build_silent_wav-wav_file :
    (rate num_samples : ℕ)
    → 0 < rate
    → rate * 2 < 2 ^ 31
    → 44 + num_samples * 2 < 2 ^ 32
    → build_silent_wav (pos rate) false num_samples ≡ wav_file rate (replicate (num_samples * 2) 0)
unfolding build_silent_wav
build_silent_wav-wav_file rate num_samples r0 r1 fits =
    let positive : ltb_ℤ (pos rate) (pos 1) ≡ false = le→not_ltb _ _ (omega (arith, r0)) in
    let bits : num_samples * 2 % 2 ^ 32 ≡ num_samples * 2 = omega (arith, fits) in
    rw positive (
      resize-longer _ (num_samples * 2) (build_wav_header (pos rate) num_samples)
        (omega (arith, fits, length-build_wav_header rate num_samples))
      ∙ (unfold build_wav_header in
          rw bits (
            header-wav_file rate (num_samples * 2) (replicate (num_samples * 2) 0)
              (omega (arith, r1)) (omega (arith, fits)) (length-replicate (num_samples * 2) 0))))

-- ===== src/Backend/Pcm/Format.antt =====
-- The WAV file of float samples against the description of the format, and read back.
use mathlib.Core.List.{append_assoc}
use voxtral_server.Backend.Pcm.{
  to_sample, to_u16, write_sample, write_samples, build_wav_from_float_samples,
}
use voxtral_server.Backend.Pcm.Samples.{to_sample-IsConverted}
use voxtral_server.Backend.Wav.{store, build_wav_header}
use voxtral_server.Backend.WavFormat.{
  little_endian, chunk, pcm_format, wav_file, header-wav_file, length-build_wav_header,
  resize-longer,
}
use voxtral_server.Base.Float.{Float}
use voxtral_server.Base.{
  ℕ, zero, suc, ◌+◌, ◌-◌, ◌*◌, ◌/◌, ◌%◌, ◌^◌, ◌<◌, ◌≡◌, refl, sym, ap, ◌∙◌, false, some, List, [],
  ◌∷◌, ◌++◌, arith, ltb, if◌then◌else◌, le→not_ltb, length, drop, replicate, length-append,
  take-append, Bytes, bytes,
}
use voxtral_server.Base.Int.{ℤ, pos, negsuc, ltb_ℤ, ◌≤ℤ◌}

-- The samples from `i` on, each in two bytes, the lowest first.
unfoldable pub pcm_data : (ℕ → Float) → ℕ → ℕ → Bytes
pcm_data samples i zero = []
pcm_data samples i (suc left) =
    little_endian 2 (to_u16 (to_sample (samples i))) ++ pcm_data samples (i + 1) left

store-append :
    (offset : ℕ) (front : Bytes) (v c : ℕ) (rest : Bytes)
    → offset ≡ length front
    → store offset (v ∷ []) (front ++ c ∷ rest) ≡ front ++ v ∷ rest
unfolding store
store-append offset front v c rest e =
    let after : length front + 1 ≡ suc (length front) = omega arith in
    rw (e, take-append front (c ∷ rest), after) (ap (λ t. front ++ v ∷ t) (drop_past front))
  where
    drop_past : (front : Bytes) → drop (suc (length front)) (front ++ c ∷ rest) ≡ rest
    drop_past [] = refl
    drop_past (x ∷ front) = drop_past front

write_sample-append :
    (i : ℕ) (x : Float) (front rest : Bytes)
    → length front ≡ 44 + i * 2
    → write_sample i x (front ++ 0 ∷ 0 ∷ rest)
      ≡ (front ++ little_endian 2 (to_u16 (to_sample x))) ++ rest
unfolding write_sample little_endian
write_sample-append i x front rest e =
    let low = to_u16 (to_sample x) % 256 in
    let high = to_u16 (to_sample x) / 2 ^ 8 % 256 in
    let one_more : front ++ low ∷ 0 ∷ rest ≡ (front ++ low ∷ []) ++ 0 ∷ rest =
      sym (append_assoc front (low ∷ []) (0 ∷ rest)) in
    ap (store (44 + (i * 2 + 1)) (high ∷ []))
      (store-append (44 + i * 2) front low 0 (0 ∷ rest) (sym e) ∙ one_more)
    ∙ store-append (44 + (i * 2 + 1)) (front ++ low ∷ []) high 0 rest
        (omega (arith, e, length-append front (low ∷ [])))
    ∙ append_assoc front (low ∷ []) (high ∷ rest)
    ∙ sym (append_assoc front (low ∷ high ∷ []) rest)

write_samples-pcm_data :
    (samples : ℕ → Float) (i left : ℕ) (front : Bytes)
    → length front ≡ 44 + i * 2
    → write_samples samples i left (front ++ replicate (left * 2) 0)
      ≡ front ++ pcm_data samples i left
unfolding write_samples pcm_data
write_samples-pcm_data samples i zero front e = refl
write_samples-pcm_data samples i (suc left) front e =
    let twice : suc left * 2 ≡ suc (suc (left * 2)) = omega arith in
    rw twice (
      ap (write_samples samples (i + 1) left) (write_sample-append i (samples i) front zeros e)
      ∙ write_samples-pcm_data samples (i + 1) left (front ++ sample)
          (omega (arith, e, length-append front sample, two_bytes))
      ∙ append_assoc front sample (pcm_data samples (i + 1) left))
  where
    sample : Bytes
    sample = little_endian 2 (to_u16 (to_sample (samples i)))

    zeros : Bytes
    zeros = replicate (left * 2) 0

    two_bytes : length sample ≡ 2
    two_bytes = unfold little_endian in refl

length-pcm_data : (samples : ℕ → Float) (i n : ℕ) → length (pcm_data samples i n) ≡ n * 2
unfolding pcm_data little_endian
length-pcm_data samples i zero = refl
length-pcm_data samples i (suc n) = omega (arith, length-pcm_data samples (i + 1) n)

-- For at least one sample, a sample rate of which twice fits an `int`, and a whole file of a
-- size of 32 bits, the loop that writes the converted samples byte by byte makes the RIFF file
-- of one 16-bit PCM channel at that rate with these samples, as described chunk by chunk.
pub build_wav_from_float_samples-wav_file :
    (samples : ℕ → Float) (n rate : ℕ)
    → 0 < n
    → rate * 2 < 2 ^ 31
    → 44 + n * 2 < 2 ^ 32
    → build_wav_from_float_samples (some samples) (pos n) (pos rate)
      ≡ wav_file rate (pcm_data samples 0 n)
unfolding build_wav_from_float_samples
build_wav_from_float_samples-wav_file samples n rate some_samples r fits =
    let positive : ltb_ℤ (pos n) (pos 1) ≡ false = le→not_ltb _ _ (omega (arith, some_samples)) in
    let bits : n * 2 % 2 ^ 32 ≡ n * 2 = omega (arith, fits) in
    let size : (44 + n * 2) % 2 ^ 32 ≡ 44 + n * 2 = omega (arith, fits) in
    let header = build_wav_header (pos rate) n in
    rw (positive, size)
      (ap (write_samples samples 0 n) (
          resize-longer (44 + n * 2) (n * 2) header (omega (arith, length-build_wav_header rate n)))
        ∙ write_samples-pcm_data samples 0 n header (omega (arith, length-build_wav_header rate n))
        ∙ (unfold build_wav_header in
            rw bits (
              header-wav_file rate (n * 2) (pcm_data samples 0 n) (omega (arith, r))
                (omega (arith, fits)) (length-pcm_data samples 0 n))))

-- A number of 16 bits in two's complement.
abbrev pub signed : ℕ → ℤ
signed u = if ltb u (2 ^ 15) then pos u else negsuc (2 ^ 16 - 1 - u)

-- The samples that a reader of the file takes from its data.
unfoldable pub read_samples : Bytes → List ℤ
read_samples [] = []
read_samples (low ∷ []) = []
read_samples (low ∷ high ∷ s) = signed (low + high * 256) ∷ read_samples s

-- The conversions of the samples from `i` on.
unfoldable pub converted : (ℕ → Float) → ℕ → ℕ → List ℤ
converted samples i zero = []
converted samples i (suc left) = to_sample (samples i) ∷ converted samples (i + 1) left

signed-to_u16 :
    (z : ℤ)
    → negsuc 32_766 ≤ℤ z
    → z ≤ℤ pos 32_767
    → signed (to_u16 z % 256 + to_u16 z / 256 % 256 * 256) ≡ z
unfolding to_u16
signed-to_u16 (pos n) l u = ground (arith, u)
signed-to_u16 (negsuc n) l u = ground (arith, l)

read_samples-pcm_data :
    (samples : ℕ → Float) (i n : ℕ)
    → ((j : ℕ) → samples j < 2 ^ 32)
    → read_samples (pcm_data samples i n) ≡ converted samples i n
unfolding read_samples pcm_data little_endian converted
read_samples-pcm_data samples i zero h = refl
read_samples-pcm_data samples i (suc n) h =
    let (low, high) = (to_sample-IsConverted (samples i) (h i)).range in
    λ k.
      signed-to_u16 (to_sample (samples i)) low high k ∷ read_samples-pcm_data samples (i + 1) n h k

-- For at least one sample, each a pattern of 32 bits, a sample rate of which twice fits an
-- `int`, and a whole file of a size of 32 bits: the data of the file that
-- `build_wav_from_float_samples` makes, behind its 44 bytes of header, read as 16-bit numbers
-- in two's complement, are the converted samples, in order.
pub read_samples-build_wav :
    (samples : ℕ → Float) (n rate : ℕ)
    → ((j : ℕ) → samples j < 2 ^ 32)
    → 0 < n
    → rate * 2 < 2 ^ 31
    → 44 + n * 2 < 2 ^ 32
    → read_samples (drop 44 (build_wav_from_float_samples (some samples) (pos n) (pos rate)))
      ≡ converted samples 0 n
read_samples-build_wav samples n rate h some_samples r fits =
    rw (build_wav_from_float_samples-wav_file samples n rate some_samples r fits)
      (ap read_samples payload ∙ read_samples-pcm_data samples 0 n h)
  where
    payload : drop 44 (wav_file rate (pcm_data samples 0 n)) ≡ pcm_data samples 0 n
    payload = unfold wav_file chunk pcm_format little_endian bytes in refl

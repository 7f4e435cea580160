-- ===== src/Backend/Mock.antt =====
-- `MockBackend` (src/tts/mock_backend.hpp): the configurable backend, a record of its members.
use voxtral_server.Backend.{SynthesisRequest, SynthesisResult}
use voxtral_server.Backend.Wav.{store, store_all}
use voxtral_server.Backend.WavFormat.{little_endian, chunk, pcm_format, wav_file}
use voxtral_server.Base.Float.{Double, one}
use voxtral_server.Pool.{Inference, returned, threw}
use voxtral_server.Base.{
  ℕ, suc, ◌+◌, ◌*◌, ◌%◌, ◌^◌, ◌<◌, ◌≡◌, refl, ap, inl, inr, Bool, true, false, not, List, [], ◌∷◌,
  map, arith, if◌then◌else◌, Bool-cases, length, replicate, All, Bytes, bytes, is_empty,
}
use voxtral_server.Base.Int.{ℤ, pos, pos_part, ltb_ℤ}

pub record MockBackend : Type 0 where
  pub should_fail : Bool
  pub fail_message : Bytes
  pub latency_ms : ℤ
  pub audio_data : Bytes
  pub sample_rate : ℕ
  pub duration_seconds : Double
  pub fail_initialize : Bool
  -- the 32 bits of an atomic `int`
  pub call_count : ℕ
  pub last_request : SynthesisRequest
  pub initialized : Bool

-- The member initialisers, those of `SynthesisRequest` included.
unfoldable pub new_mock : MockBackend
new_mock = record {
  should_fail = false;
  fail_message = bytes "Mock backend failure";
  latency_ms = pos 0;
  audio_data = [];
  sample_rate = 24_000;
  duration_seconds = 0x3ff0_0000_0000_0000;
  fail_initialize = false;
  call_count = 0;
  last_request = record {
    text = [];
    voice = [];
    model = [];
    response_format = bytes "wav";
    speed = one;
  };
  initialized = false;
}

unfoldable pub initialize : MockBackend → MockBackend × Bool
initialize b = if b.fail_initialize then (b, false) else (record b { initialized = true }, true)

-- The assignments to single bytes, in their order.
abbrev pub header_bytes : List (ℕ × ℕ)
header_bytes =
    (0, b'R')
    ∷ (1, b'I')
    ∷ (2, b'F')
    ∷ (3, b'F')
    ∷ (4, 36)
    ∷ (5, 0)
    ∷ (6, 0)
    ∷ (7, 0)
    ∷ (8, b'W')
    ∷ (9, b'A')
    ∷ (10, b'V')
    ∷ (11, b'E')
    ∷ (12, b'f')
    ∷ (13, b'm')
    ∷ (14, b't')
    ∷ (15, b' ')
    ∷ (16, 16)
    ∷ (20, 1)
    ∷ (22, 1)
    ∷ (24, 0xc0)
    ∷ (25, 0x5d)
    ∷ (28, 0x80)
    ∷ (29, 0xbb)
    ∷ (32, 2)
    ∷ (34, 16)
    ∷ (36, b'd')
    ∷ (37, b'a')
    ∷ (38, b't')
    ∷ (39, b'a')
    ∷ []

abbrev one_byte : ℕ × ℕ → ℕ × Bytes
one_byte (i, v) = (i, v ∷ [])

unfoldable pub minimal_wav_header : Bytes
minimal_wav_header = store_all (map one_byte header_bytes) (replicate 44 0)

-- The time in `sleep_for`, in nanoseconds.
unfoldable pub slept : MockBackend → ℕ
slept b = if ltb_ℤ (pos 0) b.latency_ms then pos_part b.latency_ms * 1_000_000 else 0

-- What the call leaves in the members that a test reads.
abbrev pub observed : MockBackend → SynthesisRequest → MockBackend
observed b request = record b { call_count = (b.call_count + 1) % 2 ^ 32; last_request = request }

unfoldable pub audio_of : MockBackend → Bytes
audio_of b = if not (is_empty b.audio_data) then b.audio_data else minimal_wav_header

-- The backend after the call, the time that it slept, and what the call did. The time of the
-- inference is 0.001.
unfoldable pub synthesize :
    MockBackend → SynthesisRequest → MockBackend × ℕ × Inference SynthesisResult
synthesize b request =
    let b' = observed b request in
    if b'.should_fail then (b', 0, threw b'.fail_message) else (
      b',
      slept b',
      returned (record {
        audio_data = audio_of b';
        sample_rate = b'.sample_rate;
        duration_seconds = b'.duration_seconds;
        inference_time_seconds = 0x3f50_624d_d2f1_a9fc;
      }),
    )

unfoldable pub is_ready : MockBackend → Bool
is_ready b = b.initialized

unfoldable pub model_name : MockBackend → Bytes
model_name b = bytes "mock-backend"

-- The header that is written byte by byte is the WAV file of no samples at the default rate.
minimal_wav_header-wav_file : minimal_wav_header ≡ wav_file 24_000 []
unfolding minimal_wav_header store_all store wav_file chunk pcm_format little_endian bytes
minimal_wav_header-wav_file = refl

-- Calls one after the other, with what each did.
unfoldable pub synthesize_all :
    MockBackend → List SynthesisRequest → MockBackend × List (Inference SynthesisResult)
synthesize_all b [] = (b, [])
synthesize_all b (request ∷ requests) =
    let (b', slept, inference) = synthesize b request in
    let (b'', inferences) = synthesize_all b' requests in (b'', inference ∷ inferences)

abbrev pub last_of : SynthesisRequest → List SynthesisRequest → SynthesisRequest
last_of request [] = request
last_of request (next ∷ requests) = last_of next requests

-- What a test expects of a call of a backend: the failure that it asked for, or its audio, and a
-- WAV file of no samples where it gave none.
abbrev pub IsMocked : MockBackend → Inference SynthesisResult → Type 0
IsMocked b (threw what) = (b.should_fail ≡ true) × (what ≡ b.fail_message)
IsMocked b (returned result) =
    (b.should_fail ≡ false)
    × (result.audio_data ≡ (if is_empty b.audio_data then wav_file 24_000 [] else b.audio_data))
    × (result.sample_rate ≡ b.sample_rate)
    × (result.duration_seconds ≡ b.duration_seconds)

synthesize-IsMocked :
    (b : MockBackend) (request : SynthesisRequest)
    → ((synthesize b request).0 ≡ observed b request) × IsMocked b (synthesize b request).2
unfolding synthesize audio_of
synthesize-IsMocked b request = elim (Bool-cases b.should_fail) [
  | inl fails ↦ simp fails (refl, (refl, refl))
  | inr works ↦ elim (Bool-cases (is_empty b.audio_data)) [
    | inl none_given ↦
        simp (works, none_given) (refl, (refl, minimal_wav_header-wav_file, refl, refl))
    | inr given ↦ simp (works, given) (refl, (refl, refl, refl, refl))
  ]
]

-- What a test reads after calls of a backend.
record IsRun (b : MockBackend) (requests : List SynthesisRequest) (b' : MockBackend)
    (inferences : List (Inference SynthesisResult)) : Type 0 where
  calls : b'.call_count ≡ (b.call_count + length requests) % 2 ^ 32
  last : b'.last_request ≡ last_of b.last_request requests
  settings : b' ≡ record b { call_count = b'.call_count; last_request = b'.last_request }
  answers : length inferences ≡ length requests
  mocked : All (IsMocked b) inferences

-- After any calls of `synthesize` of a mock backend, its counter has grown by their number,
-- modulo 2 ^ 32, its last request is that of the last call, its settings are as before, and
-- each call threw its message if it was set to fail, and else returned its audio, rate and
-- duration, where it was given no audio the WAV file of no samples at 24000.
synthesize_all-IsRun :
    (b : MockBackend) (requests : List SynthesisRequest)
    → b.call_count < 2 ^ 32
    → IsRun b requests (synthesize_all b requests).0 (synthesize_all b requests).1
unfolding synthesize_all
synthesize_all-IsRun b [] h = record {
  calls = omega (arith, h);
  last = refl;
  settings = refl;
  answers = refl;
  mocked = tt;
}
synthesize_all-IsRun b (request ∷ requests) h =
    let (e, mocked) = synthesize-IsMocked b request in
    let rest = synthesize_all-IsRun (observed b request) requests (omega arith) in
    rw e (record {
      calls = omega (arith, rest.calls);
      last = rest.last;
      settings = rest.settings;
      answers = ap suc rest.answers;
      mocked = (mocked, rest.mocked);
    })

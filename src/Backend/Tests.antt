-- ===== src/Backend/Tests.antt =====
-- The theorems on the backend at concrete inputs.
use voxtral_server.Backend.{SynthesisRequest}
use voxtral_server.Backend.Wav.{build_silent_wav}
use voxtral_server.Backend.Mock.{new_mock, synthesize, synthesize_all}
use voxtral_server.Backend.Voxtral.{new_backend, PathInfo, initialize}
use voxtral_server.Base.Float.{one}
use voxtral_server.Base.{◌≡◌, refl, true, false, [], ◌∷◌, Bytes, bytes, is_empty}
use voxtral_server.Base.Int.{pos}

-- A rate of zero and a negative duration give no file.
no_file : (build_silent_wav (pos 0) false 2 ≡ []) × (build_silent_wav (pos 1) true 2 ≡ [])
unfolding build_silent_wav
no_file = (refl, refl)

abbrev file : PathInfo
file = record { exists = true; is_regular_file = true; is_directory = false }

abbrev request : SynthesisRequest
request = record {
  text = bytes "Hi";
  voice = bytes "casual_male";
  model = bytes "voxtral-4b";
  response_format = bytes "wav";
  speed = one;
}

abbrev path : Bytes
path = b'm' ∷ []

initializes : (initialize new_backend path file).1 ≡ true
unfolding initialize is_empty
initializes = refl

-- Two calls of a mock backend are counted.
two_calls : (synthesize_all new_mock (request ∷ request ∷ [])).0.call_count ≡ 2
unfolding synthesize_all synthesize new_mock
two_calls = refl

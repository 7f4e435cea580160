-- ===== src/Validation.antt =====
-- Request validation (include/tts/validation.hpp, src/server/validation.cpp). The Boolean test of
-- white space is that of `std::isspace` in the "C" locale.
pub mod Laws
mod Tests
use voxtral_server.Base.Decimal.{to_string, to_int}
use voxtral_server.Base.Float.{Float, less}
use voxtral_server.Voices.{VoiceCatalog, is_valid, list_valid_ids}
use voxtral_server.Base.{
  ℕ, Bool, true, false, not, ◌&&◌, ◌||◌, ◌∷◌, ◌++◌, ltb, leb, ◌==◌, if◌then◌else◌, length, Bytes,
  bytes, eq_bytes, is_empty, [],
}
use voxtral_server.Base.Int.{ℤ, pos, negsuc, pos_part, neg_part, ltb_ℤ, ◌≤ℤ◌}

pub record ValidationResult : Type 0 where
  pub valid : Bool
  pub http_status : ℕ
  pub error_type : Bytes
  pub error_code : Bytes
  pub error_message : Bytes
  pub error_param : Bytes

-- `return {};`
unfoldable pub passed : ValidationResult
passed = record {
  valid = true;
  http_status = 200;
  error_type = [];
  error_code = [];
  error_message = [];
  error_param = [];
}

unfoldable pub make_validation_error : ℕ → Bytes → Bytes → Bytes → ValidationResult
make_validation_error status code message param = record {
  valid = false;
  http_status = status;
  error_type = bytes "invalid_request_error";
  error_code = code;
  error_message = message;
  error_param = param;
}

unfoldable pub starts_with : Bytes → Bytes → Bool
starts_with s [] = true
starts_with [] (p ∷ ps) = false
starts_with (c ∷ s) (p ∷ ps) = c == p && starts_with s ps

-- `s.find(part) != npos`
unfoldable pub contains : Bytes → Bytes → Bool
contains [] part = starts_with [] part
contains (c ∷ s) part = starts_with (c ∷ s) part || contains s part

unfoldable pub validate_content_type : Bytes → ValidationResult
validate_content_type content_type =
    if not (contains content_type (bytes "application/json"))
    then make_validation_error 400 (bytes "invalid_content_type")
        (bytes "Content-Type must be application/json.") []
    else passed

-- The default argument of `max_body_bytes`.
abbrev pub default_max_body_bytes : ℕ
default_max_body_bytes = 1_048_576

unfoldable pub validate_body_size : ℕ → ℕ → ValidationResult
validate_body_size body_size max_body_bytes =
    if ltb max_body_bytes body_size
    then make_validation_error 413 (bytes "payload_too_large")
        (bytes "Request body exceeds maximum size of 1MB.") []
    else passed

unfoldable pub validate_model : Bytes → ValidationResult
validate_model model =
    if is_empty model
    then make_validation_error 400 (bytes "missing_input")
        (bytes "Missing required parameter: 'model'.") (bytes "model")
    else if not (eq_bytes model (bytes "voxtral-4b"))
    then make_validation_error 400 (bytes "invalid_model")
        (bytes "Invalid model. Supported models: voxtral-4b.") (bytes "model")
    else passed

-- `std::isspace`: blank, tab, line feed, vertical tab, form feed, carriage return.
abbrev pub is_space : ℕ → Bool
is_space c = c == b' ' || leb 0x09 c && leb c 0x0d

-- `std::all_of(…, isspace)`
unfoldable pub all_whitespace : Bytes → Bool
all_whitespace [] = true
all_whitespace (c ∷ s) = is_space c && all_whitespace s

unfoldable pub validate_input : Bytes → ℤ → ValidationResult
validate_input input max_chars =
    if is_empty input
    then make_validation_error 400 (bytes "missing_input")
        (bytes "Missing required parameter: 'input'.") (bytes "input")
    else if all_whitespace input
    then make_validation_error 400 (bytes "missing_input")
        (bytes "Input must not be empty or whitespace-only.") (bytes "input")
    else if ltb_ℤ (pos 0) max_chars && ltb_ℤ max_chars (to_int (length input))
    then make_validation_error 400 (bytes "string_above_max_length")
        (bytes "Input exceeds maximum length of " ++ (to_string max_chars ++ bytes " characters."))
        (bytes "input")
    else passed

unfoldable pub validate_voice : Bytes → VoiceCatalog → ValidationResult
validate_voice voice catalog =
    if is_empty voice
    then make_validation_error 400 (bytes "missing_input")
        (bytes "Missing required parameter: 'voice'.") (bytes "voice")
    else if not (is_valid catalog voice)
    then make_validation_error 400 (bytes "invalid_voice")
        (bytes "Invalid voice: '"
          ++ (voice ++ (bytes "'. Available voices: " ++ (list_valid_ids catalog ++ bytes "."))))
        (bytes "voice")
    else passed

unfoldable pub validate_response_format : Bytes → ValidationResult
validate_response_format format =
    if is_empty format || eq_bytes format (bytes "wav")
    then passed
    else make_validation_error 400 (bytes "invalid_format")
        (bytes "Invalid response_format: '" ++ (format ++ bytes "'. Supported formats: wav."))
        (bytes "response_format")

-- `kMinSpeed` and `kMaxSpeed`: 0.25F and 4.0F.
abbrev pub min_speed : Float
min_speed = 0x3e80_0000

abbrev pub max_speed : Float
max_speed = 0x4080_0000

unfoldable pub validate_speed : Float → ValidationResult
validate_speed speed =
    if less speed min_speed || less max_speed speed
    then make_validation_error 400 (bytes "speed_out_of_range")
        (bytes "Speed must be between 0.25 and 4.0.") (bytes "speed")
    else passed

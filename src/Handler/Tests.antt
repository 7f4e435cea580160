-- ===== src/Handler/Tests.antt =====
-- The theorems on the handlers at concrete requests.
use voxtral_server.Metrics.{initial}
use voxtral_server.Validation.{
  validate_content_type, validate_body_size, starts_with, contains, passed, make_validation_error,
  validate_model, validate_input, validate_voice, validate_response_format, validate_speed,
  all_whitespace,
}
use voxtral_server.Voices.{catalog, is_valid, find, find_id}
use voxtral_server.Handler.{HttpRequest, header, make_error_response, make_error_from_validation}
use voxtral_server.Handler.RequestId.{
  hex_digit, print_hex, with_version, with_variant, generate_request_id, IsUuid4,
  generate_request_id-IsUuid4,
}
use voxtral_server.Handler.Toy.{toy, deps}
use voxtral_server.Handler.Speech.{
  Handled, returned, threw, require, require_voice, parse_body, or_uncaught, check_speech,
  record_request, error_of, result_of, respond, await, speak, with_pool, handle_speech,
}
use voxtral_server.Handler.Accounting.{IsAccounted, handle_speech-IsAccounted}
use voxtral_server.Handler.Outcomes.{IsEarned, handle_speech-IsEarned}
use voxtral_server.Handler.Uncaught.{
  Escapes, readings, member, is_known, members_of, body_of, handle_speech-threw_iff,
}
use voxtral_server.Base.Decimal.{to_int}
use voxtral_server.Base.Float.{less}
use voxtral_server.Base.{ℕ, ◌≡◌, refl, ◌↔◌, [], ◌∷◌, Bytes, bytes, eq_bytes, is_empty, find?}

abbrev post : Bytes → HttpRequest
post body = record {
  method = bytes "POST";
  path = bytes "/v1/audio/speech";
  headers = (bytes "content-type", bytes "application/json") ∷ [];
  body = body;
  remote_addr = bytes "10.0.0.1";
}

abbrev speech : HttpRequest
speech = post (bytes "casual_male")

abbrev number_body : HttpRequest
number_body = post (b'1' ∷ [])

status_of : Handled → ℕ
status_of (returned resp) = resp.status
status_of threw = 0

runs : Unit {0}
unfolding handle_speech check_speech require require_voice parse_body or_uncaught with_pool speak
    await respond error_of result_of record_request validate_content_type validate_body_size
    validate_model validate_input validate_voice validate_response_format validate_speed starts_with
    catalog contains passed make_validation_error make_error_response make_error_from_validation
    all_whitespace is_valid find find_id header find? is_empty eq_bytes bytes to_int less status_of
runs = tt

-- A good request is answered with the audio, an unknown voice is refused, and a number as the body
-- is not caught.
statuses :
    (status_of (handle_speech toy speech deps initial).1 ≡ 200)
    × (status_of (handle_speech toy (post (bytes "nobody")) deps initial).1 ≡ 400)
    × ((handle_speech toy number_body deps initial).1 ≡ threw)
unfolding runs
statuses = (refl, refl, refl)

handle_speech-IsAccounted_example : IsAccounted initial (handle_speech toy speech deps initial)
handle_speech-IsAccounted_example = handle_speech-IsAccounted toy speech deps initial

handle_speech-IsEarned_example : IsEarned toy speech deps (handle_speech toy speech deps initial)
handle_speech-IsEarned_example = handle_speech-IsEarned toy speech deps initial

handle_speech-threw_iff_example :
    ((handle_speech toy number_body deps initial).1 ≡ threw)
    ↔ Escapes (readings toy number_body deps)
handle_speech-threw_iff_example = handle_speech-threw_iff toy number_body deps initial

-- The body is JSON without a model that could be read.
number-Escapes : Escapes (readings toy number_body deps)
unfolding runs body_of members_of member is_known
number-Escapes = tt

generate_request_id-IsUuid4_example : IsUuid4 (generate_request_id 1 2 3 4)
generate_request_id-IsUuid4_example = generate_request_id-IsUuid4 1 2 3 4

a_request_id :
    generate_request_id 1 0xffff_ffff 0xffff_ffff 4 ≡ bytes "00000001-ffff-4fff-bfff-ffff00000004"
unfolding generate_request_id with_version with_variant print_hex hex_digit bytes
a_request_id = refl

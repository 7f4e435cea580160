-- ===== src/Validation/Tests.antt =====
-- Runs of the validation.
use voxtral_server.Base.Float.{less}
use voxtral_server.Validation.{
  starts_with, contains, passed, make_validation_error, validate_content_type, all_whitespace,
  validate_input, validate_speed,
}
use voxtral_server.Base.Decimal.{to_int}
use voxtral_server.Base.{◌≡◌, refl, true, false, bytes, is_empty, replicate}
use voxtral_server.Base.Int.{pos}

runs : Unit {0}
unfolding starts_with contains passed make_validation_error validate_content_type is_empty
    all_whitespace validate_input validate_speed less bytes to_int
runs = tt

-- "application/json" may stand anywhere.
content_types :
    ((validate_content_type (bytes "application/json; charset=utf-8")).valid ≡ true)
    × ((validate_content_type (bytes "text/plain; x=application/json")).valid ≡ true)
    × ((validate_content_type (bytes "text/plain")).valid ≡ false)
unfolding runs
content_types = (refl, refl, refl)

-- Two characters of two bytes each are longer than a limit of three.
inputs :
    ((validate_input (bytes "éé") (pos 3)).valid ≡ false)
    × ((validate_input (bytes "éé") (pos 4)).valid ≡ true)
    × ((validate_input (replicate 3 0x20) (pos 4)).valid ≡ false)
unfolding runs
inputs = (refl, refl, refl)

-- 0.25 and 4.0 pass, 0.2 does not, and a NaN does.
speeds :
    ((validate_speed 0x3e80_0000).valid ≡ true)
    × ((validate_speed 0x4080_0000).valid ≡ true)
    × ((validate_speed 0x3e4c_cccd).valid ≡ false)
    × ((validate_speed 0x7fc0_0000).valid ≡ true)
unfolding runs
speeds = (refl, refl, refl, refl)

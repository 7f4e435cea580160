-- ===== src/Config/Tests.antt =====
-- The theorems on the configuration at concrete settings.
use voxtral_server.Config.{ServerConfig, defaults}
use voxtral_server.Config.Parse.{
  is_digit, skip_spaces, read_digits, starts_number, unsigned, signed, stoi, safe_atoi, safe_narrow,
}
use voxtral_server.Config.Load.{
  TomlFile, missing, table, env_int, toml_int, apply_env_overrides, from_env, apply_table,
  apply_file, from_file_and_env,
}
use voxtral_server.Config.Validate.{throw_if, ◌>>◌, is_log_level, is_log_format, validate}
use voxtral_server.Config.RoundTrip.{safe_atoi-to_string}
use voxtral_server.Config.Layers.{from_file_and_env-api_key}
use voxtral_server.Config.Valid.{IsValid, validate-none_iff}
use voxtral_server.Base.Decimal.{to_string}
use voxtral_server.Base.{
  ◌^◌, ◌≡◌, refl, ◌≢◌, ◌↔◌, Option, none, some, [], if◌then◌else◌, Bytes, bytes, eq_bytes, is_empty,
}
use voxtral_server.Base.Int.{pos, negsuc}

safe_atoi-to_string_example : safe_atoi (some (to_string (negsuc 41))) (pos 7) ≡ negsuc 41
safe_atoi-to_string_example = safe_atoi-to_string (negsuc 41) (pos 7) refl

abbrev environment : Bytes → Option Bytes
environment name = if eq_bytes name (bytes "TTS_PORT") then some (bytes " 8080") else none

-- A file with a number of workers that an `int` holds, and a port and a queue that it does not.
abbrev file : TomlFile
file = table (record {
  text_at = λ section key. none;
  int_at =
      λ section key. if eq_bytes key (bytes "workers") then some (pos 4) else some (pos (2 ^ 31));
  bool_at = λ section key. none;
})

abbrev loaded : ServerConfig
loaded = from_file_and_env environment file []

-- The variable, the file and the default, in this order.
layers : (loaded.port ≡ pos 8080) × (loaded.workers ≡ pos 4) × (loaded.max_queue_depth ≡ pos 10)
unfolding from_file_and_env apply_env_overrides apply_file apply_table env_int toml_int safe_atoi
    safe_narrow stoi skip_spaces signed unsigned read_digits starts_number is_digit eq_bytes bytes
    is_empty
layers = (refl, refl, refl)

from_file_and_env-api_key_example :
    (from_file_and_env environment missing []).api_key ≡ (from_env environment).api_key
from_file_and_env-api_key_example = from_file_and_env-api_key environment missing []

abbrev runnable : ServerConfig
runnable = record defaults { model_path = bytes "model" }

validate-none_iff_example : (validate runnable ≡ none) ↔ IsValid runnable
validate-none_iff_example = validate-none_iff runnable

-- Without a model the defaults are refused; with one they pass.
defaults_valid : validate runnable ≡ none
unfolding validate throw_if ◌>>◌ is_empty is_log_level is_log_format eq_bytes bytes
defaults_valid = refl

defaults_invalid : validate defaults ≢ none
unfolding validate throw_if ◌>>◌ is_empty is_log_level is_log_format eq_bytes bytes
defaults_invalid e = cc

-- White space and a sign may precede the digits; nothing may follow them.
atoi_runs :
    (safe_atoi (some (bytes " +8080")) (pos 7) ≡ pos 8080)
    × (safe_atoi (some (bytes "42abc")) (pos 7) ≡ pos 7)
    × (safe_atoi (some (bytes "-2147483648")) (pos 7) ≡ negsuc 2_147_483_647)
    × (safe_atoi (some (bytes "2147483648")) (pos 7) ≡ pos 7)
    × (safe_atoi (some []) (pos 7) ≡ pos 7)
unfolding safe_atoi stoi skip_spaces signed unsigned starts_number read_digits is_digit bytes
    is_empty
atoi_runs = (refl, refl, refl, refl, refl)

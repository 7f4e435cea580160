-- ===== src/Config/Validate.antt =====
-- `ServerConfig::validate` (src/config/config.cpp). The result is the message of the exception.
use voxtral_server.Config.{ServerConfig}
use voxtral_server.Base.Decimal.{to_string}
use voxtral_server.Base.{
  Bool, not, ◌&&◌, ◌||◌, Option, none, some, ◌++◌, if◌then◌else◌, Bytes, bytes, eq_bytes, is_empty,
}
use voxtral_server.Base.Int.{pos, ltb_ℤ}

unfoldable pub is_log_level : Bytes → Bool
is_log_level s =
    eq_bytes s (bytes "trace")
    || eq_bytes s (bytes "debug")
    || eq_bytes s (bytes "info")
    || eq_bytes s (bytes "warn")
    || eq_bytes s (bytes "error")
    || eq_bytes s (bytes "critical")

unfoldable pub is_log_format : Bytes → Bool
is_log_format s = eq_bytes s (bytes "text") || eq_bytes s (bytes "json")

-- `if (test) throw std::invalid_argument(message)`
unfoldable pub throw_if : Bool → Bytes → Option Bytes
throw_if test message = if test then some message else none

-- What follows a statement runs if the statement did not throw.
infixl 5 ◌>>◌
unfoldable pub ◌>>◌ : Option Bytes → Option Bytes → Option Bytes
none >> rest = rest
some message >> rest = some message

unfoldable pub validate : ServerConfig → Option Bytes
validate cfg = do
  throw_if (ltb_ℤ cfg.port (pos 1) || ltb_ℤ (pos 65_535) cfg.port)
      (bytes "Invalid port: must be 1-65535, got " ++ to_string cfg.port)
  throw_if (ltb_ℤ cfg.max_connections (pos 1)) (bytes "max_connections must be >= 1")
  throw_if (is_empty cfg.model_path)
      (bytes "model_path must not be empty — set [model].path in config or TTS_MODEL_PATH env var")
  throw_if (ltb_ℤ cfg.max_input_chars (pos 1)) (bytes "max_input_chars must be > 0")
  throw_if (ltb_ℤ cfg.workers (pos 1)) (bytes "workers must be >= 1")
  throw_if (ltb_ℤ cfg.max_queue_depth (pos 1)) (bytes "max_queue_depth must be >= 1")
  throw_if (ltb_ℤ cfg.request_timeout_seconds (pos 1))
      (bytes "request_timeout_seconds must be >= 1")
  throw_if (ltb_ℤ cfg.auth_rate_limit_max (pos 1)) (bytes "auth_rate_limit_max must be >= 1")
  throw_if (ltb_ℤ cfg.auth_rate_limit_window (pos 1)) (bytes "auth_rate_limit_window must be >= 1")
  throw_if (ltb_ℤ cfg.request_rate_limit_rpm (pos 1)) (bytes "request_rate_limit_rpm must be >= 1")
  throw_if (ltb_ℤ cfg.trusted_proxy_hops (pos 1)) (bytes "trusted_proxy_hops must be >= 1")
  throw_if (cfg.require_auth && is_empty cfg.api_key) (
      bytes
        "TTS_REQUIRE_AUTH=true but TTS_API_KEY is empty — set TTS_API_KEY or disable auth with TTS_REQUIRE_AUTH=false")
  throw_if (not (is_log_level cfg.log_level)) (
      bytes "Invalid log_level '"
      ++ cfg.log_level
      ++ bytes "' — must be one of: trace, debug, info, warn, error, critical")
  throw_if (not (is_log_format cfg.log_format))
      (bytes "Invalid log_format '" ++ cfg.log_format ++ bytes "' — must be 'text' or 'json'")

-- ===== src/Config/Load.antt =====
-- Where a configuration comes from (src/config/config.cpp): `apply_env_overrides`, `from_env` and
-- `from_file_and_env`. The environment is a function. The file is what the file system and the TOML
-- parser make of it, with the lookups `tbl[section][key].value<T>()` as functions.
use voxtral_server.Config.{ServerConfig, defaults}
use voxtral_server.Config.Parse.{safe_atoi, safe_narrow, parse_bool}
use voxtral_server.Base.{Bool, Option, none, some, Bytes, bytes}
use voxtral_server.Base.Int.{ℤ}

pub record TomlTable : Type 0 where
  pub text_at : Bytes → Bytes → Option Bytes
  pub int_at : Bytes → Bytes → Option ℤ
  pub bool_at : Bytes → Bytes → Option Bool

-- No file, a file that the parser refuses, or its table.
pub data TomlFile : Type 0 where
  missing : TomlFile
  malformed : TomlFile
  table : TomlTable → TomlFile

-- `if (auto v = ...) field = *v`
unfoldable pub or_keep {ℓ} : {A : Type ℓ} → Option A → A → A
or_keep none old = old
or_keep (some v) old = v

-- `if (auto* v = std::getenv(...)) field = safe_atoi(v, field)`
unfoldable pub env_int : Option Bytes → ℤ → ℤ
env_int none old = old
env_int (some v) old = safe_atoi (some v) old

unfoldable pub env_bool : Option Bytes → Bool → Bool
env_bool none old = old
env_bool (some v) old = parse_bool (some v)

-- `if (auto v = ...) field = safe_narrow(*v, name, field)`
unfoldable pub toml_int : Option ℤ → ℤ → ℤ
toml_int none old = old
toml_int (some v) old = safe_narrow v old

unfoldable pub apply_env_overrides : (Bytes → Option Bytes) → ServerConfig → ServerConfig
apply_env_overrides getenv cfg = record {
  host = or_keep (getenv (bytes "TTS_HOST")) cfg.host;
  port = env_int (getenv (bytes "TTS_PORT")) cfg.port;
  max_connections = env_int (getenv (bytes "TTS_MAX_CONNECTIONS")) cfg.max_connections;
  model_path = or_keep (getenv (bytes "TTS_MODEL_PATH")) cfg.model_path;
  default_voice = or_keep (getenv (bytes "TTS_DEFAULT_VOICE")) cfg.default_voice;
  max_queue_depth = env_int (getenv (bytes "TTS_MAX_QUEUE_DEPTH")) cfg.max_queue_depth;
  workers = env_int (getenv (bytes "TTS_WORKERS")) cfg.workers;
  max_input_chars = env_int (getenv (bytes "TTS_MAX_INPUT_CHARS")) cfg.max_input_chars;
  request_timeout_seconds =
      env_int (getenv (bytes "TTS_REQUEST_TIMEOUT")) cfg.request_timeout_seconds;
  api_key = or_keep (getenv (bytes "TTS_API_KEY")) cfg.api_key;
  require_auth = env_bool (getenv (bytes "TTS_REQUIRE_AUTH")) cfg.require_auth;
  auth_rate_limit_max = env_int (getenv (bytes "TTS_AUTH_RATE_LIMIT_MAX")) cfg.auth_rate_limit_max;
  auth_rate_limit_window =
      env_int (getenv (bytes "TTS_AUTH_RATE_LIMIT_WINDOW")) cfg.auth_rate_limit_window;
  request_rate_limit_rpm = env_int (getenv (bytes "TTS_RATE_LIMIT_RPM")) cfg.request_rate_limit_rpm;
  trust_proxy = env_bool (getenv (bytes "TTS_TRUST_PROXY")) cfg.trust_proxy;
  trusted_proxy_hops = env_int (getenv (bytes "TTS_TRUSTED_PROXY_HOPS")) cfg.trusted_proxy_hops;
  log_level = or_keep (getenv (bytes "TTS_LOG_LEVEL")) cfg.log_level;
  log_format = or_keep (getenv (bytes "TTS_LOG_FORMAT")) cfg.log_format;
  config_path = or_keep (getenv (bytes "TTS_CONFIG_PATH")) cfg.config_path;
}

unfoldable pub from_env : (Bytes → Option Bytes) → ServerConfig
from_env getenv = apply_env_overrides getenv defaults

-- The body of the `try` in `from_file_and_env`.
unfoldable pub apply_table : TomlTable → ServerConfig → ServerConfig
apply_table t cfg = record cfg {
  host = or_keep (t.text_at (bytes "server") (bytes "host")) cfg.host;
  port = toml_int (t.int_at (bytes "server") (bytes "port")) cfg.port;
  max_connections =
      toml_int (t.int_at (bytes "server") (bytes "max_connections")) cfg.max_connections;
  model_path = or_keep (t.text_at (bytes "model") (bytes "path")) cfg.model_path;
  default_voice = or_keep (t.text_at (bytes "model") (bytes "default_voice")) cfg.default_voice;
  max_queue_depth =
      toml_int (t.int_at (bytes "inference") (bytes "max_queue_depth")) cfg.max_queue_depth;
  workers = toml_int (t.int_at (bytes "inference") (bytes "workers")) cfg.workers;
  max_input_chars =
      toml_int (t.int_at (bytes "inference") (bytes "max_input_chars")) cfg.max_input_chars;
  request_timeout_seconds =
      toml_int (t.int_at (bytes "inference") (bytes "request_timeout_seconds"))
        cfg.request_timeout_seconds;
  require_auth = or_keep (t.bool_at (bytes "auth") (bytes "require_auth")) cfg.require_auth;
  auth_rate_limit_max =
      toml_int (t.int_at (bytes "auth") (bytes "rate_limit_max")) cfg.auth_rate_limit_max;
  auth_rate_limit_window =
      toml_int (t.int_at (bytes "auth") (bytes "rate_limit_window")) cfg.auth_rate_limit_window;
  request_rate_limit_rpm =
      toml_int (t.int_at (bytes "auth") (bytes "request_rate_limit_rpm"))
        cfg.request_rate_limit_rpm;
  trust_proxy = or_keep (t.bool_at (bytes "auth") (bytes "trust_proxy")) cfg.trust_proxy;
  trusted_proxy_hops =
      toml_int (t.int_at (bytes "auth") (bytes "trusted_proxy_hops")) cfg.trusted_proxy_hops;
  log_level = or_keep (t.text_at (bytes "logging") (bytes "level")) cfg.log_level;
  log_format = or_keep (t.text_at (bytes "logging") (bytes "format")) cfg.log_format;
}

unfoldable pub apply_file : TomlFile → ServerConfig → ServerConfig
apply_file missing cfg = cfg
apply_file malformed cfg = cfg
apply_file (table t) cfg = apply_table t cfg

unfoldable pub from_file_and_env : (Bytes → Option Bytes) → TomlFile → Bytes → ServerConfig
from_file_and_env getenv file config_path =
    apply_env_overrides getenv (apply_file file (record defaults { config_path = config_path }))

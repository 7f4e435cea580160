-- ===== src/Config/Layers.antt =====
-- The layers of a configuration: the environment over the file over the initialisers.
use voxtral_server.Config.{ServerConfig, defaults}
use voxtral_server.Config.Parse.{is_int, stoi}
use voxtral_server.Config.Load.{
  TomlFile, missing, malformed, table, or_keep, apply_env_overrides, from_env, apply_table,
  apply_file, from_file_and_env,
}
use voxtral_server.Base.{◌≡◌, refl, ap, Option, none, some, if◌then◌else◌, Bytes, bytes, is_empty}
use voxtral_server.Base.Int.{ℤ, pos}

pub or_else : Option ℤ → ℤ → ℤ
or_else none n = n
or_else (some m) n = m

-- What `stoi` read, if it read the whole text.
pub whole : Option (ℤ × Bytes) → Option ℤ
whole none = none
whole (some (n, rest)) = if is_empty rest then some n else none

-- The number that a variable is from its first byte to its last.
pub env_number : Option Bytes → Option ℤ
env_number none = none
env_number (some str) = whole (stoi str)

-- A number of the file that an `int` holds.
pub in_int : Option ℤ → Option ℤ
in_int none = none
in_int (some n) = if is_int n then some n else none

pub file_number : TomlFile → Bytes → Bytes → Option ℤ
file_number missing section key = none
file_number malformed section key = none
file_number (table t) section key = in_int (t.int_at section key)

-- The variable's number, or else that of the file, or else the default.
abbrev pub setting : (Bytes → Option Bytes) → TomlFile → Bytes → Bytes → Bytes → ℤ → ℤ
setting getenv file name section key default_val =
    or_else (env_number (getenv name)) (or_else (file_number file section key) default_val)

pub record IsLayered (getenv : Bytes → Option Bytes) (file : TomlFile) (cfg : ServerConfig)
    : Type 0 where
  pub port :
      cfg.port ≡ setting getenv file (bytes "TTS_PORT") (bytes "server") (bytes "port") (pos 9090)
  pub max_connections :
      cfg.max_connections
      ≡ setting getenv file
          (bytes "TTS_MAX_CONNECTIONS")
          (bytes "server")
          (bytes "max_connections")
          (pos 100)
  pub max_queue_depth :
      cfg.max_queue_depth
      ≡ setting getenv file
          (bytes "TTS_MAX_QUEUE_DEPTH")
          (bytes "inference")
          (bytes "max_queue_depth")
          (pos 10)
  pub workers :
      cfg.workers
      ≡ setting getenv file (bytes "TTS_WORKERS") (bytes "inference") (bytes "workers") (pos 1)
  pub max_input_chars :
      cfg.max_input_chars
      ≡ setting getenv file
          (bytes "TTS_MAX_INPUT_CHARS")
          (bytes "inference")
          (bytes "max_input_chars")
          (pos 4096)
  pub request_timeout_seconds :
      cfg.request_timeout_seconds
      ≡ setting getenv file
          (bytes "TTS_REQUEST_TIMEOUT")
          (bytes "inference")
          (bytes "request_timeout_seconds")
          (pos 300)
  pub auth_rate_limit_max :
      cfg.auth_rate_limit_max
      ≡ setting getenv file
          (bytes "TTS_AUTH_RATE_LIMIT_MAX")
          (bytes "auth")
          (bytes "rate_limit_max")
          (pos 10)
  pub auth_rate_limit_window :
      cfg.auth_rate_limit_window
      ≡ setting getenv file
          (bytes "TTS_AUTH_RATE_LIMIT_WINDOW")
          (bytes "auth")
          (bytes "rate_limit_window")
          (pos 60)
  pub request_rate_limit_rpm :
      cfg.request_rate_limit_rpm
      ≡ setting getenv file
          (bytes "TTS_RATE_LIMIT_RPM")
          (bytes "auth")
          (bytes "request_rate_limit_rpm")
          (pos 10)
  pub trusted_proxy_hops :
      cfg.trusted_proxy_hops
      ≡ setting getenv file
          (bytes "TTS_TRUSTED_PROXY_HOPS")
          (bytes "auth")
          (bytes "trusted_proxy_hops")
          (pos 1)

-- The numbers after the file is applied.
record IsFiled (file : TomlFile) (cfg : ServerConfig) : Type 0 where
  port : cfg.port ≡ or_else (file_number file (bytes "server") (bytes "port")) (pos 9090)
  max_connections :
      cfg.max_connections
      ≡ or_else (file_number file (bytes "server") (bytes "max_connections")) (pos 100)
  max_queue_depth :
      cfg.max_queue_depth
      ≡ or_else (file_number file (bytes "inference") (bytes "max_queue_depth")) (pos 10)
  workers : cfg.workers ≡ or_else (file_number file (bytes "inference") (bytes "workers")) (pos 1)
  max_input_chars :
      cfg.max_input_chars
      ≡ or_else (file_number file (bytes "inference") (bytes "max_input_chars")) (pos 4096)
  request_timeout_seconds :
      cfg.request_timeout_seconds
      ≡ or_else (file_number file (bytes "inference") (bytes "request_timeout_seconds")) (pos 300)
  auth_rate_limit_max :
      cfg.auth_rate_limit_max
      ≡ or_else (file_number file (bytes "auth") (bytes "rate_limit_max")) (pos 10)
  auth_rate_limit_window :
      cfg.auth_rate_limit_window
      ≡ or_else (file_number file (bytes "auth") (bytes "rate_limit_window")) (pos 60)
  request_rate_limit_rpm :
      cfg.request_rate_limit_rpm
      ≡ or_else (file_number file (bytes "auth") (bytes "request_rate_limit_rpm")) (pos 10)
  trusted_proxy_hops :
      cfg.trusted_proxy_hops
      ≡ or_else (file_number file (bytes "auth") (bytes "trusted_proxy_hops")) (pos 1)

apply_file-api_key :
    (file : TomlFile) (cfg : ServerConfig) → (apply_file file cfg).api_key ≡ cfg.api_key
unfolding apply_file apply_table
apply_file-api_key missing cfg = refl
apply_file-api_key malformed cfg = refl
apply_file-api_key (table t) cfg = refl

-- Whatever the file and the path are, the API key that `from_file_and_env` loads is the one
-- that `from_env` loads from the same environment.
pub from_file_and_env-api_key :
    (getenv : Bytes → Option Bytes) (file : TomlFile) (config_path : Bytes)
    → (from_file_and_env getenv file config_path).api_key ≡ (from_env getenv).api_key
unfolding from_file_and_env from_env apply_env_overrides
from_file_and_env-api_key getenv file config_path =
    ap (or_keep (getenv (bytes "TTS_API_KEY")))
      (apply_file-api_key file (record defaults { config_path = config_path }))

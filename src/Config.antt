-- ===== src/Config.antt =====
-- `ServerConfig` (src/config/config.hpp). An `int` is an integer; `int` values stay in range, since
-- they come from `safe_atoi`, `safe_narrow` and the initialisers.
pub mod Parse
pub mod Load
pub mod Validate
pub mod RoundTrip
pub mod Layers
pub mod Valid
mod Tests
use voxtral_server.Base.{Bool, false, Bytes, bytes, []}
use voxtral_server.Base.Int.{ℤ, pos, negsuc, pos_part, neg_part, ltb_ℤ, ◌≤ℤ◌}

pub record ServerConfig : Type 0 where
  -- Server
  pub host : Bytes
  pub port : ℤ
  pub max_connections : ℤ
  -- Model
  pub model_path : Bytes
  pub default_voice : Bytes
  -- Inference
  pub max_queue_depth : ℤ
  pub workers : ℤ
  pub max_input_chars : ℤ
  pub request_timeout_seconds : ℤ
  -- Auth
  pub api_key : Bytes
  pub require_auth : Bool
  pub auth_rate_limit_max : ℤ
  pub auth_rate_limit_window : ℤ
  pub request_rate_limit_rpm : ℤ
  pub trust_proxy : Bool
  pub trusted_proxy_hops : ℤ
  -- Logging
  pub log_level : Bytes
  pub log_format : Bytes
  -- Config path
  pub config_path : Bytes

-- The member initialisers.
abbrev pub defaults : ServerConfig
defaults = record {
  host = bytes "0.0.0.0";
  port = pos 9090;
  max_connections = pos 100;
  model_path = [];
  default_voice = bytes "neutral_female";
  max_queue_depth = pos 10;
  workers = pos 1;
  max_input_chars = pos 4096;
  request_timeout_seconds = pos 300;
  api_key = [];
  require_auth = false;
  auth_rate_limit_max = pos 10;
  auth_rate_limit_window = pos 60;
  request_rate_limit_rpm = pos 10;
  trust_proxy = false;
  trusted_proxy_hops = pos 1;
  log_level = bytes "info";
  log_format = bytes "text";
  config_path = bytes "config/server.toml";
}

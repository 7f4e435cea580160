-- ===== src/Auth/Bearer.antt =====
-- `AuthResult`, `check_bearer_auth` and `is_internal_endpoint` (include/tts/auth.hpp,
-- src/server/auth.cpp).
pub mod Laws
use voxtral_server.Auth.Compare.{constant_time_equals}
use voxtral_server.Base.{
  ℕ, String, Bool, true, false, not, ◌||◌, leb, if◌then◌else◌, length, take, drop, Bytes, bytes,
  eq_bytes, is_empty, [],
}

pub record AuthResult : Type 0 where
  pub authenticated : Bool
  pub rate_limited : Bool
  pub retry_after_seconds : ℕ
  pub error_code : Bytes
  pub error_message : Bytes

-- The fields' default member initialisers.
abbrev pub auth_result : AuthResult
auth_result = record {
  authenticated = false;
  rate_limited = false;
  retry_after_seconds = 0;
  error_code = [];
  error_message = [];
}

abbrev pub denied : String → AuthResult
denied message = record auth_result {
  error_code = bytes "invalid_api_key";
  error_message = bytes message;
}

-- `prefix`
unfoldable pub bearer_prefix : Bytes
unfolding bytes
bearer_prefix = bytes "Bearer "

unfoldable pub check_bearer_auth : Bytes → Bytes → AuthResult
check_bearer_auth auth_header api_key =
    if is_empty auth_header
    then denied "Missing Authorization header. Use: Authorization: Bearer <api_key>"
    else if leb (length auth_header) (length bearer_prefix)
        || not (eq_bytes (take (length bearer_prefix) auth_header) bearer_prefix)
    then denied "Invalid Authorization header format. Use: Authorization: Bearer <api_key>"
    else if not (constant_time_equals (drop (length bearer_prefix) auth_header) api_key)
    then denied "Invalid API key provided."
    else record auth_result { authenticated = true }

unfoldable pub is_internal_endpoint : Bytes → Bool
is_internal_endpoint path =
    eq_bytes path (bytes "/health")
    || eq_bytes path (bytes "/ready")
    || eq_bytes path (bytes "/metrics")

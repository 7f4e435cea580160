-- ===== src/Adapter/Lockout/Tests.antt =====
-- Two wrong tokens where one failure is allowed, then the right one.
use voxtral_server.Auth.Bearer.{check_bearer_auth, bearer_prefix, is_internal_endpoint}
use voxtral_server.Auth.ClientIp.{extract_client_ip}
use voxtral_server.Auth.Compare.{constant_time_equals, compare_loop}
use voxtral_server.Auth.Failures
use voxtral_server.Auth.Failures.{is_blocked, is_expired, check_and_record_failure}
use voxtral_server.Auth.Requests
use voxtral_server.Auth.Requests.{check_request}
use voxtral_server.Config.{ServerConfig, defaults}
use voxtral_server.Handler.{HttpRequest, header, make_error_response}
use voxtral_server.Handler.Toy.{toy}
use voxtral_server.Metrics.{initial}
use voxtral_server.Base.{
  ◌+◌, ◌≡◌, refl, true, [], ◌∷◌, arith, Bytes, bytes, eq_bytes, is_empty, find?, assign,
}
use voxtral_server.Base.Int.{pos}
use voxtral_server.Adapter.{Shared, Clocks}
use voxtral_server.Adapter.Middleware.{
  client_ip, require_token, limit_rate, check_client, run_middleware,
}
use voxtral_server.Adapter.Lockout.{run_all, IsLocked, refused_after_guesses}

abbrev cfg : ServerConfig
cfg = record defaults { require_auth = true; api_key = bytes "key" }

abbrev shared : Shared
shared = record {
  auth_limiter = record {
    max_failures = 1;
    window_secs = pos 60;
    max_tracked_ips = 2;
    ip_states = [];
  };
  request_limiter = record { max_rpm = 9; max_tracked_ips = 2; ip_states = [] };
  metrics = initial;
}

abbrev now : Clocks
now = record { blocked = 1; request = 2; request_entry = 3; failure = 4; failure_entry = 5 }

abbrev client : Bytes
client = bytes "10.0.0.1"

abbrev with_token : Bytes → HttpRequest
with_token token = record {
  method = bytes "GET";
  path = bytes "/v1/voices";
  headers = (bytes "authorization", token) ∷ [];
  body = [];
  remote_addr = client;
}

abbrev wrong : HttpRequest
wrong = with_token (bytes "Bearer guess")

abbrev right : HttpRequest
right = with_token (bytes "Bearer key")

refused_after_guesses_example :
    (2 ≡ 1 + 1)
    × IsLocked
        (run_middleware toy cfg right now
          (run_all toy cfg ((wrong, now) ∷ (wrong, now) ∷ []) shared)).1
unfolding run_middleware check_client limit_rate require_token client_ip extract_client_ip
    is_blocked check_request Requests.count_request Requests.entry_or_new Requests.is_over
    check_bearer_auth bearer_prefix constant_time_equals compare_loop is_internal_endpoint
    make_error_response check_and_record_failure Failures.count_failure Failures.entry_or_new
    Failures.evict_to_cap is_expired header find? assign is_empty eq_bytes bytes
refused_after_guesses_example =
    refused_after_guesses toy cfg client 60 wrong right now now ((wrong, now) ∷ []) shared refl refl
      (omega arith) (omega arith) refl refl (omega arith) (refl, omega arith, omega arith, refl, tt)
      refl refl (omega arith) (omega arith)

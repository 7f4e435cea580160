-- ===== src/Server.antt =====
-- `TtsServer` (include/tts/server.hpp, src/server/server.cpp). The backend is a shared object of
-- another component: each call takes the answer that its `is_ready` gives then.
pub mod Laws
mod Tests
use voxtral_server.Backend.{SynthesisRequest, SynthesisResult}
use voxtral_server.Config.{ServerConfig}
use voxtral_server.Voices.{VoiceCatalog}
use voxtral_server.Pool.{
  InferencePool, Constructed, constructed, invalid_argument, construct, Inference,
}
use voxtral_server.Pool.Drain
use voxtral_server.Auth.Failures.{AuthRateLimiter}
use voxtral_server.Auth.Requests.{RequestRateLimiter}
use voxtral_server.Base.Decimal.{to_size}
use voxtral_server.Base.{
  ℕ, Bool, true, false, not, ◌&&◌, Option, none, some, List, if◌then◌else◌, [],
}
use voxtral_server.Base.Int.{ℤ, pos, negsuc, pos_part, neg_part, ltb_ℤ, ◌≤ℤ◌}

pub record TtsServer : Type 0 where
  pub config : ServerConfig
  -- whether the pointer is set
  pub has_backend : Bool
  pub voice_catalog : Option VoiceCatalog
  pub pool : Option (InferencePool SynthesisRequest SynthesisResult)
  pub auth_limiter : AuthRateLimiter
  pub request_limiter : RequestRateLimiter
  pub start_time : ℕ
  pub initialized : Bool

-- The constructor.
unfoldable pub new_server : ServerConfig → Bool → Option VoiceCatalog → ℕ → TtsServer
new_server config has_backend voice_catalog now = record {
  config = config;
  has_backend = has_backend;
  voice_catalog = voice_catalog;
  pool = none;
  auth_limiter = record {
    max_failures = to_size config.auth_rate_limit_max;
    window_secs = config.auth_rate_limit_window;
    max_tracked_ips = 10_000;
    ip_states = [];
  };
  request_limiter = record {
    max_rpm = to_size config.request_rate_limit_rpm;
    max_tracked_ips = 10_000;
    ip_states = [];
  };
  start_time = now;
  initialized = false;
}

-- The end of `initialize`: the pool's constructor has returned, or has thrown.
unfoldable pub adopt_pool :
    TtsServer → Constructed SynthesisRequest SynthesisResult → TtsServer × Bool
adopt_pool s (invalid_argument what) = (s, false)
adopt_pool s (constructed p) = (record s { pool = some p; initialized = true }, true)

unfoldable pub initialize : TtsServer → Bool → TtsServer × Bool
initialize s backend_is_ready =
    if s.initialized
    then (s, true)
    else if not s.has_backend
    then (s, false)
    else if not backend_is_ready
    then (s, false)
    else adopt_pool s
        (construct s.has_backend s.config.max_queue_depth s.config.request_timeout_seconds)

unfoldable pub shut_pool :
    List (ℕ × Inference SynthesisResult)
    → Option (InferencePool SynthesisRequest SynthesisResult)
    → Option (InferencePool SynthesisRequest SynthesisResult)
shut_pool inputs none = none
shut_pool inputs (some p) = some (Drain.shutdown p inputs)

-- The pool's `shutdown` returns when its worker has stopped: `inputs` is what the worker meets.
unfoldable pub shutdown : TtsServer → List (ℕ × Inference SynthesisResult) → TtsServer
shutdown s inputs =
    if not s.initialized
    then s
    else record s { pool = shut_pool inputs s.pool; initialized = false }

unfoldable pub pool_accepts : Option (InferencePool SynthesisRequest SynthesisResult) → Bool
pool_accepts none = false
pool_accepts (some p) = p.accepting

unfoldable pub is_ready : TtsServer → Bool → Bool
is_ready s backend_is_ready =
    s.initialized && s.has_backend && backend_is_ready && pool_accepts s.pool

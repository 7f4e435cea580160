-- ===== src/Server/Laws.antt =====
-- The life of a `TtsServer`.
use voxtral_server.Server.{
  TtsServer, new_server, adopt_pool, initialize, shutdown, pool_accepts, is_ready,
}
use voxtral_server.Config.{ServerConfig}
use voxtral_server.Config.Validate.{validate}
use voxtral_server.Config.Valid.{IsValid, validate-none_iff}
use voxtral_server.Backend.{SynthesisRequest, SynthesisResult}
use voxtral_server.Voices.{VoiceCatalog}
use voxtral_server.Pool.{InferencePool, constructed, construct, Inference, waiting}
use voxtral_server.Pool.System.{IsNew}
use voxtral_server.Base.Decimal.{to_size}
use voxtral_server.Base.{
  ℕ, ◌≡◌, refl, inl, inr, Bool, true, false, Option, none, some, List, [], arith, le→not_ltb,
  Bool-cases,
}
use voxtral_server.Base.Int.{ℤ, pos, negsuc, pos_part, ltb_ℤ, ◌≤ℤ◌}

-- What a server is ready with: the configuration, the pool of its sizes, empty and open, and the
-- limiters of its limits, which track no address yet.
pub record IsStarted (config : ServerConfig) (s : TtsServer) : Type 0 where
  pub ready : is_ready s true ≡ true
  pub its_config : s.config ≡ config
  pub pool : InferencePool SynthesisRequest SynthesisResult
  pub its_pool : s.pool ≡ some pool
  pub depth : pos pool.max_queue_depth ≡ config.max_queue_depth
  pub timeout : pos pool.request_timeout_seconds ≡ config.request_timeout_seconds
  pub fresh : IsNew (record { pool = pool; accepted = [] })
  pub failures : pos s.auth_limiter.max_failures ≡ config.auth_rate_limit_max
  pub window : s.auth_limiter.window_secs ≡ config.auth_rate_limit_window
  pub no_failures : s.auth_limiter.ip_states ≡ []
  pub rpm : pos s.request_limiter.max_rpm ≡ config.request_rate_limit_rpm
  pub no_requests : s.request_limiter.ip_states ≡ []
  pub caps :
      (s.auth_limiter.max_tracked_ips ≡ 10_000) × (s.request_limiter.max_tracked_ips ≡ 10_000)

positive-eq-pos : (n : ℤ) → pos 1 ≤ℤ n → (pos (pos_part n) ≡ n) × (ltb_ℤ n (pos 1) ≡ false)
positive-eq-pos (pos n) h = (refl, le→not_ltb _ _ h)
positive-eq-pos (negsuc n) h = absurd (omega (arith, h))

to_size-positive : (n : ℤ) → pos 1 ≤ℤ n → pos (to_size n) ≡ n
unfolding to_size
to_size-positive (pos n) h = refl
to_size-positive (negsuc n) h = absurd (omega (arith, h))

construct-IsNew :
    (config : ServerConfig)
    → IsValid config
    → (pool : InferencePool SynthesisRequest SynthesisResult) × (construct true
          config.max_queue_depth config.request_timeout_seconds
        ≡ constructed pool)
      × (pos pool.max_queue_depth ≡ config.max_queue_depth)
      × (pos pool.request_timeout_seconds ≡ config.request_timeout_seconds)
      × (pool.accepting ≡ true)
      × IsNew (record { pool = pool; accepted = [] })
unfolding construct
construct-IsNew config v =
    let (depth, deep) = positive-eq-pos config.max_queue_depth v.max_queue_depth in
    let (timeout, long) =
      positive-eq-pos config.request_timeout_seconds v.request_timeout_seconds in
    let pool : InferencePool SynthesisRequest SynthesisResult = record {
      max_queue_depth = pos_part config.max_queue_depth;
      request_timeout_seconds = pos_part config.request_timeout_seconds;
      queue = [];
      accepting = true;
      active = 0;
      expired = 0;
      worker = waiting;
      calls = [];
    } in
    (pool, rw (deep, long) refl, depth, timeout, refl, (refl, refl, refl, refl, refl, refl))

-- For a configuration for which `validate` throws nothing, and a backend that is there and
-- ready, `initialize` of a new server answers true, and the server is then ready, with a new
-- pool whose queue bound and timeout are those configured, with a limiter of failures whose
-- limit and window are those configured, and with a limiter of requests whose limit is that
-- configured; both limiters track no address yet and have a cap of 10000, and the server keeps
-- the configuration.
pub initialize-IsStarted :
    (config : ServerConfig) (voice_catalog : Option VoiceCatalog) (now : ℕ)
    → validate config ≡ none
    → ((initialize (new_server config true voice_catalog now) true).1 ≡ true)
      × IsStarted config (initialize (new_server config true voice_catalog now) true).0
unfolding initialize new_server adopt_pool is_ready pool_accepts
initialize-IsStarted config voice_catalog now ok =
    let v = (validate-none_iff config).0 ok in
    let (pool, made, depth, timeout, open_pool, fresh) = construct-IsNew config v in
    rw made (
      refl,
      record {
        ready = open_pool;
        its_config = refl;
        pool = pool;
        its_pool = refl;
        depth = depth;
        timeout = timeout;
        fresh = fresh;
        failures = to_size-positive config.auth_rate_limit_max v.auth_rate_limit_max;
        window = refl;
        no_failures = refl;
        rpm = to_size-positive config.request_rate_limit_rpm v.request_rate_limit_rpm;
        no_requests = refl;
        caps = (refl, refl);
      },
    )

-- A server that has been shut down is not ready, whatever its backend says.
pub shutdown-not_ready :
    (s : TtsServer) (inputs : List (ℕ × Inference SynthesisResult)) (backend_is_ready : Bool)
    → is_ready (shutdown s inputs) backend_is_ready ≡ false
unfolding shutdown is_ready
shutdown-not_ready s inputs backend_is_ready = elim (Bool-cases s.initialized) [
  | inl on ↦ simp on refl
  | inr off ↦ simp off refl
]

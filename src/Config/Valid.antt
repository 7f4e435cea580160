-- ===== src/Config/Valid.antt =====
-- What `ServerConfig::validate` guarantees.
use voxtral_server.Config.{ServerConfig}
use voxtral_server.Config.Validate.{is_log_level, is_log_format, validate, throw_if, ◌>>◌}
use voxtral_server.Base.{
  ◌≡◌, refl, ◌≢◌, ◌↔◌, Bool, true, false, Option, none, [], arith, le→not_ltb, not_ltb→le, Bytes,
  is_empty_iff,
}
use voxtral_server.Base.Int.{ℤ, pos, ltb_ℤ, ◌≤ℤ◌}

-- A configuration that the server can run on.
pub record IsValid (cfg : ServerConfig) : Type 0 where
  pub port : (pos 1 ≤ℤ cfg.port) × (cfg.port ≤ℤ pos 65_535)
  pub max_connections : pos 1 ≤ℤ cfg.max_connections
  pub model_path : cfg.model_path ≢ []
  pub max_input_chars : pos 1 ≤ℤ cfg.max_input_chars
  pub workers : pos 1 ≤ℤ cfg.workers
  pub max_queue_depth : pos 1 ≤ℤ cfg.max_queue_depth
  pub request_timeout_seconds : pos 1 ≤ℤ cfg.request_timeout_seconds
  pub auth_rate_limit_max : pos 1 ≤ℤ cfg.auth_rate_limit_max
  pub auth_rate_limit_window : pos 1 ≤ℤ cfg.auth_rate_limit_window
  pub request_rate_limit_rpm : pos 1 ≤ℤ cfg.request_rate_limit_rpm
  pub trusted_proxy_hops : pos 1 ≤ℤ cfg.trusted_proxy_hops
  pub api_key : cfg.require_auth ≡ true → cfg.api_key ≢ []
  pub log_level : is_log_level cfg.log_level ≡ true
  pub log_format : is_log_format cfg.log_format ≡ true

passes :
    (b : Bool) (m : Bytes) (rest : Option Bytes)
    → throw_if b m >> rest ≡ none
    → (b ≡ false) × (rest ≡ none)
unfolding throw_if ◌>>◌
passes true m rest e = cc
passes false m rest e = (refl, e)

skips :
    (b : Bool) (m : Bytes) (rest : Option Bytes)
    → b ≡ false
    → rest ≡ none
    → throw_if b m >> rest ≡ none
unfolding throw_if ◌>>◌
skips b m rest e h = rw (e, h) refl

last-none_iff : (b : Bool) (m : Bytes) → (throw_if b m ≡ none) ↔ (b ≡ false)
unfolding throw_if
last-none_iff true m = (λ e. cc, λ e. cc)
last-none_iff false m = (λ e. refl, λ e. refl)

positive_iff : (a : ℤ) → (ltb_ℤ a (pos 1) ≡ false) ↔ (pos 1 ≤ℤ a)
positive_iff a = (λ e. not_ltb→le _ _ e, λ h. le→not_ltb _ _ h)

validate-none-IsValid : (cfg : ServerConfig) → validate cfg ≡ none → IsValid cfg
unfolding validate
validate-none-IsValid cfg e0 =
    let (p1, e1) = passes _ _ _ e0 in
    let (p2, e2) = passes _ _ _ e1 in
    let (p3, e3) = passes _ _ _ e2 in
    let (p4, e4) = passes _ _ _ e3 in
    let (p5, e5) = passes _ _ _ e4 in
    let (p6, e6) = passes _ _ _ e5 in
    let (p7, e7) = passes _ _ _ e6 in
    let (p8, e8) = passes _ _ _ e7 in
    let (p9, e9) = passes _ _ _ e8 in
    let (p10, e10) = passes _ _ _ e9 in
    let (p11, e11) = passes _ _ _ e10 in
    let (p12, e12) = passes _ _ _ e11 in
    let (p13, e13) = passes _ _ _ e12 in
    let p14 = (last-none_iff _ _).0 e13 in
    record {
      port = ground (arith, p1);
      max_connections = (positive_iff cfg.max_connections).0 p2;
      model_path = λ empty. ground (arith, p3, is_empty_iff cfg.model_path, empty);
      max_input_chars = (positive_iff cfg.max_input_chars).0 p4;
      workers = (positive_iff cfg.workers).0 p5;
      max_queue_depth = (positive_iff cfg.max_queue_depth).0 p6;
      request_timeout_seconds = (positive_iff cfg.request_timeout_seconds).0 p7;
      auth_rate_limit_max = (positive_iff cfg.auth_rate_limit_max).0 p8;
      auth_rate_limit_window = (positive_iff cfg.auth_rate_limit_window).0 p9;
      request_rate_limit_rpm = (positive_iff cfg.request_rate_limit_rpm).0 p10;
      trusted_proxy_hops = (positive_iff cfg.trusted_proxy_hops).0 p11;
      api_key = λ auth empty. ground (arith, p12, is_empty_iff cfg.api_key, empty, auth);
      log_level = ground (arith, p13);
      log_format = ground (arith, p14);
    }

IsValid-validate : (cfg : ServerConfig) → IsValid cfg → validate cfg ≡ none
unfolding validate
IsValid-validate cfg v = skips _ _ _ (ground (arith, v.port)) (
    skips _ _ _ ((positive_iff cfg.max_connections).1 v.max_connections) (
      skips _ _ _ (ground (arith, is_empty_iff cfg.model_path, v.model_path)) (
        skips _ _ _ ((positive_iff cfg.max_input_chars).1 v.max_input_chars) (
          skips _ _ _ ((positive_iff cfg.workers).1 v.workers) (
            skips _ _ _ ((positive_iff cfg.max_queue_depth).1 v.max_queue_depth) (
              skips _ _ _ ((positive_iff cfg.request_timeout_seconds).1 v.request_timeout_seconds) (
                skips _ _ _ ((positive_iff cfg.auth_rate_limit_max).1 v.auth_rate_limit_max) (
                  skips _ _ _ ((positive_iff cfg.auth_rate_limit_window).1 v.auth_rate_limit_window)
                    (skips _ _ _
                      ((positive_iff cfg.request_rate_limit_rpm).1 v.request_rate_limit_rpm)
                      (skips _ _ _ ((positive_iff cfg.trusted_proxy_hops).1 v.trusted_proxy_hops) (
                        skips _ _ _ (ground (arith, is_empty_iff cfg.api_key, v.api_key)) (
                          skips _ _ _ (ground (arith, v.log_level))
                            ((last-none_iff _ _).1 (ground (arith, v.log_format)))))))))))))))

-- `validate` throws nothing exactly if the port is from 1 to 65535, each of the nine other
-- numbers is at least 1, the model path is not empty, the API key is not empty where
-- authentication is required, and the log level and the log format are among the known ones.
pub validate-none_iff : (cfg : ServerConfig) → (validate cfg ≡ none) ↔ IsValid cfg
validate-none_iff cfg = (validate-none-IsValid cfg, IsValid-validate cfg)

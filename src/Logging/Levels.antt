-- ===== src/Logging/Levels.antt =====
-- The log level and the formatter that a configuration chooses.
use voxtral_server.Config.{ServerConfig}
use voxtral_server.Config.Validate.{is_log_level, is_log_format, validate}
use voxtral_server.Config.Valid.{validate-none_iff}
use voxtral_server.Logging.{
  Level, trace, debug, info, warn, err, critical, off, parse_log_level, json_lines, pattern, Logger,
  initialize,
}
use voxtral_server.Base.{
  ◌≡◌, refl, sym, ◌↔◌, inl, inr, true, false, none, arith, Bool-cases, Bytes, bytes, eq_bytes,
  eq_bytes_iff,
}

-- The name of a level in the configuration.
unfoldable pub name_of : Level → Bytes
name_of trace = bytes "trace"
name_of debug = bytes "debug"
name_of info = bytes "info"
name_of warn = bytes "warn"
name_of err = bytes "error"
name_of critical = bytes "critical"
name_of off = bytes "off"

-- The first test that holds decides; those before it do not hold.
module _ (s : Bytes) where
  named : (name : Bytes) → eq_bytes s name ≡ true → name ≡ s
  named name e = sym ((eq_bytes_iff s name).0 e)

  name_of-parse_log_level : is_log_level s ≡ true → name_of (parse_log_level s) ≡ s
  unfolding name_of parse_log_level is_log_level
  name_of-parse_log_level h = ground (
    arith,
    h,
    named (bytes "trace"),
    named (bytes "debug"),
    named (bytes "info"),
    named (bytes "warn"),
    named (bytes "error"),
    named (bytes "critical"),
  )

-- What the logger is after `initialize`, whatever it was before.
pub record IsConfigured (cfg : ServerConfig) (logger : Logger) : Type 0 where
  pub level : name_of logger.level ≡ cfg.log_level
  pub json : (logger.formatter ≡ json_lines) ↔ (cfg.log_format ≡ bytes "json")
  pub text : (logger.formatter ≡ pattern (bytes "%+")) ↔ (cfg.log_format ≡ bytes "text")
  pub fresh : (before : Logger) → initialize cfg before ≡ logger

text_iff :
    (s : Bytes) → is_log_format s ≡ true → (eq_bytes s (bytes "json") ≡ false) ↔ (s ≡ bytes "text")
unfolding is_log_format
text_iff s h =
    ground (arith, h, eq_bytes_iff s (bytes "text"), eq_bytes_iff s (bytes "json"), differ)
  where
    differ : eq_bytes (bytes "text") (bytes "json") ≡ false
    differ = unfold eq_bytes bytes in refl

-- For a configuration for which `validate` throws nothing, `initialize` sets the level that the
-- configuration names, and writes JSON lines exactly if the configured format is "json" and the
-- text pattern exactly if it is "text"; what the logger was before makes no difference.
pub initialize-IsConfigured :
    (cfg : ServerConfig) (before : Logger)
    → validate cfg ≡ none
    → IsConfigured cfg (initialize cfg before)
unfolding initialize
initialize-IsConfigured cfg before ok =
    let v = (validate-none_iff cfg).0 ok in
    let same = name_of-parse_log_level cfg.log_level v.log_level in
    let texts = text_iff cfg.log_format v.log_format in
    elim (Bool-cases (eq_bytes cfg.log_format (bytes "json"))) [
      | inl json ↦ rw json (record {
        level = same;
        json = (λ _. (eq_bytes_iff _ _).0 json, λ _. refl);
        text = (λ e. cc, λ e. cc (texts.1 e, json));
        fresh = λ b. rw json refl;
      })
      | inr plain ↦ rw plain (record {
        level = same;
        json = (λ e. cc, λ e. cc ((eq_bytes_iff _ _).1 e, plain));
        text = (λ _. texts.0 plain, λ _. refl);
        fresh = λ b. rw plain refl;
      })
    ]

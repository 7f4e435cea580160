-- ===== src/Logging/Tests.antt =====
-- The theorems on logging at concrete inputs.
use voxtral_server.Base.Decimal.{digits}
use voxtral_server.Config.{ServerConfig, defaults}
use voxtral_server.Config.Validate.{throw_if, ◌>>◌, is_log_level, is_log_format, validate}
use voxtral_server.Logging.{
  Tm, print_padded, format_timestamp, info, json_lines, Logger, initialize,
}
use voxtral_server.Logging.Timestamps.{IsTimestamp, format_timestamp-IsTimestamp}
use voxtral_server.Logging.Levels.{IsConfigured, initialize-IsConfigured}
use voxtral_server.Base.{
  ℕ, ◌+◌, ◌/◌, ◌%◌, ◌≡◌, refl, none, [], ◌∷◌, arith, bytes, eq_bytes, is_empty,
}

-- A calendar that is right in January 1970.
abbrev january : ℕ → Tm
january secs = record {
  tm_year = 70;
  tm_mon = 0;
  tm_mday = 1 + secs / 86_400;
  tm_hour = secs / 3600 % 24;
  tm_min = secs / 60 % 60;
  tm_sec = secs % 60;
}

-- The third of January, 10:17:36 and 789 milliseconds.
abbrev time : ℕ
time = 209_856_789_000_000

prints : format_timestamp january time ≡ bytes "1970-01-03T10:17:36.789Z"
unfolding format_timestamp print_padded bytes digits
prints = refl

format_timestamp-IsTimestamp_example :
    IsTimestamp
      (january (time / 1_000_000_000))
      (time / 1_000_000 % 1000)
      (format_timestamp january time)
format_timestamp-IsTimestamp_example = format_timestamp-IsTimestamp january time (record {
  year = omega arith;
  month = omega arith;
  day = omega arith;
  hour = omega arith;
  minute = omega arith;
  second = omega arith;
})

abbrev cfg : ServerConfig
cfg = record defaults { model_path = b'm' ∷ []; log_format = bytes "json" }

accepted : validate cfg ≡ none
unfolding validate throw_if ◌>>◌ is_empty is_log_level is_log_format eq_bytes bytes
accepted = refl

abbrev before : Logger
before = record { level = info; formatter = json_lines }

initialize-IsConfigured_example : IsConfigured cfg (initialize cfg before)
initialize-IsConfigured_example = initialize-IsConfigured cfg before accepted

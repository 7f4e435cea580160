-- ===== src/Logging.antt =====
-- The logging of the server (src/logging/logger.cpp, src/logging/logger.hpp). The logger of spdlog and
-- its sinks are no part of the repository: what they keep is the level and the choice of a formatter.
pub mod Timestamps
pub mod Levels
mod Tests
use voxtral_server.Base.Decimal.{digits}
use voxtral_server.Config.{ServerConfig}
use voxtral_server.Handler.Json.{JsonApi, Doc, text, members, member, object}
use voxtral_server.Base.{
  ℕ, zero, suc, ◌+◌, ◌-◌, ◌*◌, ◌/◌, ◌%◌, not, ◌∷◌, ◌++◌, ltb, ◌==◌, if◌then◌else◌, length, Bytes,
  bytes, eq_bytes, is_empty, [],
}

-- `spdlog::level::level_enum`
pub data Level : Type 0 where
  trace : Level
  debug : Level
  info : Level
  warn : Level
  err : Level
  critical : Level
  off : Level

unfoldable pub parse_log_level : Bytes → Level
parse_log_level level =
    if eq_bytes level (bytes "trace")
    then trace
    else if eq_bytes level (bytes "debug")
    then debug
    else if eq_bytes level (bytes "info")
    then info
    else if eq_bytes level (bytes "warn")
    then warn
    else if eq_bytes level (bytes "error")
    then err
    else if eq_bytes level (bytes "critical")
    then critical
    else info

-- What `set_formatter` and `set_pattern` choose.
pub data Formatter : Type 0 where
  json_lines : Formatter
  pattern : Bytes → Formatter

-- The state of the global logger.
pub record Logger : Type 0 where
  pub level : Level
  pub formatter : Formatter

unfoldable pub initialize : ServerConfig → Logger → Logger
initialize cfg logger =
    let leveled = record logger { level = parse_log_level cfg.log_level } in
    if eq_bytes cfg.log_format (bytes "json")
    then record leveled { formatter = json_lines }
    else record leveled { formatter = pattern (bytes "%+") }

-- The id of the request that a thread handles, `t_request_id`, is the state of the thread.
unfoldable pub set_request_id : Bytes → Bytes → Bytes
set_request_id request_id t_request_id = request_id

unfoldable pub get_request_id : Bytes → Bytes
get_request_id t_request_id = t_request_id

-- What the code uses of `std::tm`.
pub record Tm : Type 0 where
  pub tm_year : ℕ
  pub tm_mon : ℕ
  pub tm_mday : ℕ
  pub tm_hour : ℕ
  pub tm_min : ℕ
  pub tm_sec : ℕ

-- `%0wd` of a number: its last `w` digits in front of `rest`, and those before them where it has more.
unfoldable pub print_padded : ℕ → ℕ → Bytes → Bytes
print_padded zero n rest = if n == 0 then rest else digits n n rest
print_padded (suc w) n rest = print_padded w (n / 10) ((b'0' + n % 10) ∷ rest)

-- `format_timestamp`, on the nanoseconds since the epoch. `gmtime` is `gmtime_r` of the platform.
unfoldable pub format_timestamp : (ℕ → Tm) → ℕ → Bytes
format_timestamp gmtime time =
    let millis = time / 1_000_000 in
    let secs = millis / 1000 in
    let gmt = gmtime secs in
    print_padded 4 (gmt.tm_year + 1900) (
      b'-'
      ∷ print_padded 2 (gmt.tm_mon + 1) (
          b'-'
          ∷ print_padded 2 gmt.tm_mday (
              b'T'
              ∷ print_padded 2 gmt.tm_hour (
                  b':'
                  ∷ print_padded 2 gmt.tm_min (
                      b':'
                      ∷ print_padded 2 gmt.tm_sec
                          (b'.' ∷ print_padded 3 (millis - secs * 1000) (b'Z' ∷ [])))))))

-- What the formatter reads of `log_msg`; `level` is the name of the level.
pub record LogMsg : Type 0 where
  pub time : ℕ
  pub level : Bytes
  pub logger_name : Bytes
  pub payload : Bytes

-- The document of a line. The library writes the members in the order of their names.
unfoldable pub log_document : (ℕ → Tm) → Bytes → LogMsg → Doc
log_document gmtime t_request_id msg = object (
    member (bytes "timestamp") (text (format_timestamp gmtime msg.time)) (
      member (bytes "level") (text msg.level) (
        member (bytes "component")
          (text (if ltb 0 (length msg.logger_name) then msg.logger_name else bytes "server"))
          (member (bytes "message") (text msg.payload) (
            if not (is_empty t_request_id)
            then member (bytes "request_id") (text t_request_id) members
            else members)))))

-- `JsonFormatter::format`: `dest` with the line behind it.
unfoldable pub format : JsonApi → (ℕ → Tm) → Bytes → LogMsg → Bytes → Bytes
format json gmtime t_request_id msg dest =
    dest ++ (json.dump (log_document gmtime t_request_id msg) ++ b'\n' ∷ [])

-- ===== src/Logging/Timestamps.antt =====
-- The timestamps of `JsonFormatter` (src/logging/logger.cpp) read back.
use voxtral_server.Logging.{Tm, print_padded, format_timestamp}
use voxtral_server.Base.{
  ℕ, ◌+◌, ◌-◌, ◌*◌, ◌/◌, ◌%◌, ◌<◌, ◌≡◌, refl, some, [], ◌∷◌, arith, length, get_elem?, take, drop,
  Bytes,
}

-- The number that these decimal digits write, behind the digits of `acc`.
unfoldable pub read_decimal : ℕ → Bytes → ℕ
read_decimal acc [] = acc
read_decimal acc (c ∷ s) = read_decimal (acc * 10 + (c - b'0')) s

-- The bytes of a field, from an offset on.
unfoldable pub field : ℕ → ℕ → Bytes → ℕ
field offset width s = read_decimal 0 (take width (drop offset s))

-- What the format of `gmtime` keeps within: a year of four digits, and the ranges of the calendar.
pub record IsCalendar (gmt : Tm) : Type 0 where
  pub year : gmt.tm_year + 1900 < 10_000
  pub month : gmt.tm_mon < 12
  pub day : gmt.tm_mday < 32
  pub hour : gmt.tm_hour < 24
  pub minute : gmt.tm_min < 60
  pub second : gmt.tm_sec < 61

-- A text of ISO 8601 of which the fields are those of `gmt`, with these milliseconds.
pub record IsTimestamp (gmt : Tm) (millis : ℕ) (s : Bytes) : Type 0 where
  pub size : length s ≡ 24
  pub year : field 0 4 s ≡ gmt.tm_year + 1900
  pub month : field 5 2 s ≡ gmt.tm_mon + 1
  pub day : field 8 2 s ≡ gmt.tm_mday
  pub hour : field 11 2 s ≡ gmt.tm_hour
  pub minute : field 14 2 s ≡ gmt.tm_min
  pub second : field 17 2 s ≡ gmt.tm_sec
  pub milliseconds : field 20 3 s ≡ millis
  pub dates : (get_elem? s 4 ≡ some b'-') × (get_elem? s 7 ≡ some b'-')
  pub separator : get_elem? s 10 ≡ some b'T'
  pub times : (get_elem? s 13 ≡ some b':') × (get_elem? s 16 ≡ some b':')
  pub fraction : get_elem? s 19 ≡ some b'.'
  pub zone : get_elem? s 23 ≡ some b'Z'

-- The digits without what is in front of them.
two :
    (n : ℕ) (rest : Bytes)
    → n < 100
    → print_padded 2 n rest ≡ (b'0' + n / 10 % 10) ∷ (b'0' + n % 10) ∷ rest
unfolding print_padded
two n rest h = ground (arith, h)

three :
    (n : ℕ) (rest : Bytes)
    → n < 1000
    → print_padded 3 n rest
      ≡ (b'0' + n / 10 / 10 % 10) ∷ (b'0' + n / 10 % 10) ∷ (b'0' + n % 10) ∷ rest
unfolding print_padded
three n rest h = ground (arith, h)

four :
    (n : ℕ) (rest : Bytes)
    → n < 10_000
    → print_padded 4 n rest
      ≡ (b'0' + n / 10 / 10 / 10 % 10)
        ∷ (b'0' + n / 10 / 10 % 10)
        ∷ (b'0' + n / 10 % 10)
        ∷ (b'0' + n % 10)
        ∷ rest
unfolding print_padded
four n rest h = ground (arith, h)

abbrev text_of : Tm → ℕ → Bytes
text_of gmt millis = print_padded 4 (gmt.tm_year + 1900) (
    b'-'
    ∷ print_padded 2 (gmt.tm_mon + 1) (
        b'-'
        ∷ print_padded 2 gmt.tm_mday (
            b'T'
            ∷ print_padded 2 gmt.tm_hour (
                b':'
                ∷ print_padded 2 gmt.tm_min (
                    b':' ∷ print_padded 2 gmt.tm_sec (b'.' ∷ print_padded 3 millis (b'Z' ∷ [])))))))

text_of-IsTimestamp :
    (gmt : Tm) (millis : ℕ)
    → IsCalendar gmt
    → millis < 1000
    → IsTimestamp gmt millis (text_of gmt millis)
unfolding field read_decimal
text_of-IsTimestamp gmt millis h m =
    rw
      (
        four (gmt.tm_year + 1900) _ h.year,
        two (gmt.tm_mon + 1) _ (omega (arith, h.month)),
        two gmt.tm_mday _ (omega (arith, h.day)),
        two gmt.tm_hour _ (omega (arith, h.hour)),
        two gmt.tm_min _ (omega (arith, h.minute)),
        two gmt.tm_sec _ (omega (arith, h.second)),
        three millis _ m,
      )
      (record {
        size = refl;
        year = omega (arith, h.year);
        month = omega (arith, h.month);
        day = omega (arith, h.day);
        hour = omega (arith, h.hour);
        minute = omega (arith, h.minute);
        second = omega (arith, h.second);
        milliseconds = omega (arith, m);
        dates = (refl, refl);
        separator = refl;
        times = (refl, refl);
        fraction = refl;
        zone = refl;
      })

-- For a time of which `gmtime` gives a year of four digits and fields within the ranges of the
-- calendar, the timestamp is a text of 24 bytes in the layout of ISO 8601 with the zone Z, and
-- its numbers read back are that year, month, day, hour, minute and second, and the
-- milliseconds of the time.
pub format_timestamp-IsTimestamp :
    (gmtime : ℕ → Tm) (time : ℕ)
    → IsCalendar (gmtime (time / 1_000_000_000))
    → IsTimestamp
        (gmtime (time / 1_000_000_000))
        (time / 1_000_000 % 1000)
        (format_timestamp gmtime time)
unfolding format_timestamp
format_timestamp-IsTimestamp gmtime time h =
    let secs : time / 1_000_000 / 1000 ≡ time / 1_000_000_000 = omega arith in
    let millis : time / 1_000_000 - time / 1_000_000 / 1000 * 1000 ≡ time / 1_000_000 % 1000 =
      omega arith in
    rw (millis, secs)
      (text_of-IsTimestamp (gmtime (time / 1_000_000_000)) (time / 1_000_000 % 1000) h
        (omega arith))

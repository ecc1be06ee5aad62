-- ===== src/Format.antt =====
-- web/src/utils/format.ts: time conversions. A time in nanoseconds or milliseconds is a natural
-- number, and the conversions are exact as far as whole numbers go; a rounded fraction is that of
-- doubles, and a parameter.
pub mod Rounding
mod Tests
use teletrace.Base.{ℕ, ◌+◌, ◌*◌, ◌/◌, ◌==◌, Bool, true, false, String, if◌then◌else◌, ◌&◌, ◌&&◌}

-- The milliseconds of a nanosecond time; `Date` keeps the whole ones.
unfoldable pub nano_to_ms : ℕ → ℕ
nano_to_ms nano_sec = nano_sec / 1000000

unfoldable pub ms_to_nano : ℕ → ℕ
ms_to_nano ms = ms * 1000000

-- What `formatDurationAsMs` prints: the text "<0.01ms", or a number of hundredths before "ms".
pub data Duration : Type 0 where
  below_hundredth : Duration
  hundredths_ms : ℕ → Duration

-- `round_nano_to_two_decimal_ms` gives the hundredths of a millisecond: `Math.round` of a quotient
-- of doubles, which for a half, such as that of 1005000 nanoseconds, may come out either way.
unfoldable pub format_duration_as_ms :
    (round_nano_to_two_decimal_ms : ℕ → ℕ) → (nano_sec : ℕ) → Duration
format_duration_as_ms round_nano_to_two_decimal_ms nano_sec =
    let rounded_ms = round_nano_to_two_decimal_ms nano_sec in
    if rounded_ms == 0 then below_hundredth else hundredths_ms rounded_ms

-- The pattern that `formatDateAsDateTime` gives to date-fns.
unfoldable pub date_time_pattern : (show_ms show_sec : Bool) → String
date_time_pattern show_ms show_sec =
    "PP HH:mm" & (if show_sec then ":ss" else "") & (if show_sec && show_ms then ".SSS" else "")

-- `getCurrentTimestamp`, at the clock's milliseconds.
unfoldable pub get_current_timestamp : ℕ → ℕ
unfolding ms_to_nano
get_current_timestamp now_ms = ms_to_nano now_ms

abbrev pub one_hour_in_ns : ℕ
one_hour_in_ns = 3600000 * 1000000

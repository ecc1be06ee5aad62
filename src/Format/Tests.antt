-- ===== src/Format/Tests.antt =====
-- Conversions and patterns at concrete times.
use teletrace.Base.{ℕ, ◌/◌, ◌+◌, ◌≡◌, refl, true}
use teletrace.Format.{format_duration_as_ms, below_hundredth, hundredths_ms, date_time_pattern}

-- Halves are rounded upwards here.
abbrev rounded : ℕ → ℕ
rounded nano_sec = (nano_sec + 5000) / 10000

printed : format_duration_as_ms rounded 1234567 ≡ hundredths_ms 123
unfolding format_duration_as_ms
printed = refl

not_printed : format_duration_as_ms rounded 4999 ≡ below_hundredth
unfolding format_duration_as_ms
not_printed = refl

pattern_with_seconds : date_time_pattern true true ≡ "PP HH:mm:ss.SSS"
unfolding date_time_pattern
pattern_with_seconds = refl

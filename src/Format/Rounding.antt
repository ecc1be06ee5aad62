-- ===== src/Format/Rounding.antt =====
-- The two conversions.
use teletrace.Base.{ℕ, ◌≡◌, arith}
use teletrace.Format.{nano_to_ms, ms_to_nano}

nano_to_ms-ms_to_nano : (ms : ℕ) → nano_to_ms (ms_to_nano ms) ≡ ms
unfolding nano_to_ms ms_to_nano
nano_to_ms-ms_to_nano ms = omega arith

-- ===== src/Modbus/Backoff/Tests.antt =====
-- The back-off at concrete inputs.
use roboplc_middle.Prelude.{◌≡◌, arith}
use roboplc_middle.Modbus.Backoff.{Backoff, new, delays, delays_from, InRange, delays-new}

delays-new_example : delays 10 new ≡ delays_from 10 0
delays-new_example = delays-new 10 (omega arith)

abbrev late : Backoff
late = record { attempts = 4294967295; next_delay_ms = 30000 }

late-InRange : InRange late
late-InRange = record { at_least = omega arith; at_most = omega arith }

-- ===== src/Modbus/Timeout/Tests.antt =====
-- The adaptive timeout at concrete inputs.
use roboplc_middle.Prelude.{List, [], ◌∷◌}
use roboplc_middle.Modbus.Timeout.{Outcome, timed_out, succeeded}

-- A success, and six timeouts after it.
abbrev history : List Outcome
history =
    timed_out ∷ timed_out ∷ timed_out ∷ timed_out ∷ timed_out ∷ timed_out ∷ succeeded ∷ timed_out
    ∷ []

-- ===== src/Shared/Tests.antt =====
-- The data cache at concrete inputs.
use roboplc_middle.Prelude.{ℕ, ◌≡◌, refl, true, false, some}
use roboplc_middle.Prelude.Maps.{find, insert}
use roboplc_middle.Shared.{DataCacheEntry, new, set, get_age, is_fresh}

abbrev entry : DataCacheEntry ℕ
entry = record { values = 42; timestamp_ms = 900; latency_us = 100; error = false }

-- At 1000 ms the entry of 900 ms is 100 ms old.
age : get_age "a" 1000000 (set "a" entry new) ≡ some 100
unfolding get_age set new find insert
age = refl

fresh :
    (is_fresh "a" 100 1000000 (set "a" entry new) ≡ true)
    × (is_fresh "a" 99 1000000 (set "a" entry new) ≡ false)
    × (is_fresh "b" 99 1000000 (set "a" entry new) ≡ false)
unfolding is_fresh get_age set new find insert
fresh = (refl, refl, refl)

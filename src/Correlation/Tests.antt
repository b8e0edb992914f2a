-- ===== src/Correlation/Tests.antt =====
-- Correlation ids at concrete inputs.
use roboplc_middle.Prelude.{ℕ, ◌≢◌, arith, All, DistinctBy}
use roboplc_middle.Correlation.{first_correlation_id, ids, ids_distinct}

ids_distinct_example :
    DistinctBy (λ (x : ℕ). x) (ids 5 first_correlation_id)
    × All (λ y. 0 ≢ y) (ids 5 first_correlation_id)
ids_distinct_example = ids_distinct 5 (omega arith)

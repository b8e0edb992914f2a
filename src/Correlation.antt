-- ===== src/Correlation.antt =====
-- Correlation ids (correlation.rs): an atomic counter of 64 bits that wraps.
mod Tests
use mathlib.Core.Path.{subst}
use roboplc_middle.Prelude.{
  ℕ, zero, suc, ◌+◌, ◌%◌, ◌^◌, ◌≤◌, ◌<◌, ◌≡◌, ◌≢◌, arith, List, [], ◌∷◌, All, DistinctBy,
}

-- The value of `GLOBAL_CORRELATION_COUNTER` at the start.
abbrev pub first_correlation_id : ℕ
first_correlation_id = 1

-- The counter and the id. Each call is one atomic `fetch_add`, so calls of threads are a sequence.
unfoldable pub next_correlation_id : ℕ → ℕ × ℕ
next_correlation_id counter = ((counter + 1) % 2 ^ 64, counter)

-- The ids of `n` calls.
unfoldable pub ids : ℕ → ℕ → List ℕ
unfolding next_correlation_id
ids zero counter = []
ids (suc n) counter = let (counter', id) = next_correlation_id counter in id ∷ ids n counter'

abbrev later : ℕ → ℕ → ℕ
later i k = (i + 1 + k) % 2 ^ 64

later-ne : (i k : ℕ) → i < 2 ^ 64 → k + 1 < 2 ^ 64 → i ≢ later i k
later-ne i k h l = λ e. omega (arith, e)

later-next : (i k : ℕ) → (later i k + 1) % 2 ^ 64 ≡ later i (k + 1)
later-next i k = omega arith

later_zero : (i : ℕ) → later i 0 ≡ (i + 1) % 2 ^ 64
later_zero i = omega arith

away : (n i k : ℕ) → i < 2 ^ 64 → n + k < 2 ^ 64 → All (λ y. i ≢ y) (ids n (later i k))
unfolding ids
away zero i k h l = tt
away (suc n) i k h l =
    (later-ne i k h (omega arith), rw (later-next i k) (away n i (k + 1) h (omega arith)))

distinct : (n c : ℕ) → c < 2 ^ 64 → n ≤ 2 ^ 64 → DistinctBy (λ (x : ℕ). x) (ids n c)
unfolding ids
distinct zero c h l = tt
distinct (suc n) c h l = (
  subst (λ x. All (λ y. c ≢ y) (ids n x)) (later_zero c) (away n c 0 h (omega arith)),
  distinct n ((c + 1) % 2 ^ 64) (omega arith) (omega arith),
)

-- The ids of fewer than 2^64 calls, of whatever threads, are pairwise different, and none is the
-- reserved 0.
pub ids_distinct :
    (n : ℕ)
    → n < 2 ^ 64
    → DistinctBy (λ (x : ℕ). x) (ids n first_correlation_id)
      × All (λ y. 0 ≢ y) (ids n first_correlation_id)
ids_distinct n h =
    (distinct n 1 (omega arith) (omega arith), away n 0 0 (omega arith) (omega arith))

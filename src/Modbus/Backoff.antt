-- ===== src/Modbus/Backoff.antt =====
-- `Backoff` of workers/modbus/types.rs. Counters have the width of the source and wrap, as they do
-- in a release build.
mod Tests
use native.Mathlib.Nat.{pow-suc}
use native.Mathlib.Numerals.{add-one}
use roboplc_middle.Prelude.{
  ℕ, zero, suc, ◌+◌, ◌*◌, ◌/◌, ◌%◌, ◌^◌, ◌≤◌, ◌<◌, ◌≡◌, refl, sym, ap, ◌∙◌, arith, min, List, [],
  ◌∷◌,
}

abbrev pub backoff_base_ms : ℕ
backoff_base_ms = 100

abbrev pub backoff_max_ms : ℕ
backoff_max_ms = 30000

pub record Backoff : Type 0 where
  pub attempts : ℕ  -- u32
  pub next_delay_ms : ℕ  -- u64

unfoldable pub new : Backoff
new = record { attempts = 0; next_delay_ms = backoff_base_ms }

-- The new state and the delay in milliseconds.
unfoldable pub next_delay : Backoff → Backoff × ℕ
next_delay b =
    let jitter = b.next_delay_ms / 10 * (b.attempts % 3) in
    (
      record {
        attempts = (b.attempts + 1) % 2 ^ 32;
        next_delay_ms = min (b.next_delay_ms * 2 % 2 ^ 64) backoff_max_ms;
      },
      (b.next_delay_ms + jitter) % 2 ^ 64,
    )

unfoldable pub reset : Backoff → Backoff
reset b = record { attempts = 0; next_delay_ms = backoff_base_ms }

-- The state after `n` delays from `b` on, and the delays.
unfoldable pub delays : ℕ → Backoff → List ℕ
delays zero b = []
delays (suc n) b = let (b', d) = next_delay b in d ∷ delays n b'

-- The n-th pause without the jitter, and the whole delay.
abbrev pub pause : ℕ → ℕ
pause n = min (backoff_base_ms * 2 ^ n) backoff_max_ms

abbrev pub nth_delay : ℕ → ℕ
nth_delay n = pause n + pause n / 10 * (n % 3)

-- The delays that start at the n-th.
abbrev pub delays_from : ℕ → ℕ → List ℕ
delays_from zero n = []
delays_from (suc k) n = nth_delay n ∷ delays_from k (n + 1)

pause-suc : (n : ℕ) → min (pause n * 2 % 2 ^ 64) backoff_max_ms ≡ pause (n + 1)
pause-suc n = omega (arith, pow-suc 2 n, ap (λ (k : ℕ). 2 ^ k) (add-one n))

jitter-le : (d r : ℕ) → d ≤ 3000 → r ≤ 2 → d * r ≤ 6000
jitter-le d r h k = grind arith

nth_delay-le : (n : ℕ) → nth_delay n ≤ 36000
nth_delay-le n = omega (arith, jitter-le (pause n / 10) (n % 3) (omega arith) (omega arith))

abbrev pub IsNth : ℕ → Backoff → Type 0
IsNth n b = (b.attempts ≡ n) × (b.next_delay_ms ≡ pause n)

next_delay-IsNth :
    (n : ℕ) (b : Backoff)
    → suc n < 2 ^ 32
    → IsNth n b
    → IsNth (n + 1) (next_delay b).0 × ((next_delay b).1 ≡ nth_delay n)
unfolding next_delay
next_delay-IsNth n b h (at_n, paused) =
    rw (at_n, paused) ((omega arith, pause-suc n), omega (arith, nth_delay-le n))

delays-IsNth : (k n : ℕ) (b : Backoff) → n + k < 2 ^ 32 → IsNth n b → delays k b ≡ delays_from k n
unfolding delays
delays-IsNth zero n b h i = refl
delays-IsNth (suc k) n b h i =
    let (later, now) = next_delay-IsNth n b (omega arith) i in
    cc (now, delays-IsNth k (n + 1) (next_delay b).0 (omega arith) later)

-- Exponential backoff with a cap: the n-th delay, counted from 0, of a new back-off is
-- min(100 * 2^n, 30000) ms and a tenth of it n mod 3 times over, for fewer than 2^32 delays.
pub delays-new : (k : ℕ) → k < 2 ^ 32 → delays k new ≡ delays_from k 0
unfolding new
delays-new k h = delays-IsNth k 0 new (omega arith) (refl, refl)

-- The range that every call keeps.
pub record InRange (b : Backoff) : Type 0 where
  pub at_least : backoff_base_ms ≤ b.next_delay_ms
  pub at_most : b.next_delay_ms ≤ backoff_max_ms

-- From any state in range, also past the wrap of the counter, a delay lies between 100 ms and
-- 36 s, and the next state is in range; a new and a reset back-off are in range and equal.
pub next_delay_bounds :
    (b : Backoff)
    → InRange b
    → InRange (next_delay b).0
      × (100 ≤ (next_delay b).1)
      × ((next_delay b).1 ≤ 36000)
      × InRange new
      × (reset (next_delay b).0 ≡ new)
unfolding next_delay new reset
next_delay_bounds b r =
    let j = jitter-le (b.next_delay_ms / 10) (b.attempts % 3) (omega arith) (omega arith) in
    (omega arith, omega arith, omega arith, omega arith, refl)

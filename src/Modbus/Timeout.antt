-- ===== src/Modbus/Timeout.antt =====
-- `TimeoutHandler` of workers/modbus/types.rs. A `Duration` is a number of milliseconds.
mod Tests
use native.Mathlib.Nat.{pow-suc}
use native.Mathlib.Numerals.{add-one}
use roboplc_middle.Prelude.{
  ℕ, zero, suc, ◌+◌, ◌*◌, ◌^◌, ◌≤◌, ◌<◌, ◌≡◌, refl, ap, arith, min, List, [], ◌∷◌, Bool, leb,
  leb→le, le→leb, ◌↔◌, true,
}

abbrev pub base_timeout : ℕ
base_timeout = 1000

abbrev pub max_timeout : ℕ
max_timeout = 30000

pub record TimeoutHandler : Type 0 where
  pub current : ℕ
  pub base : ℕ
  pub max : ℕ

unfoldable pub new : TimeoutHandler
new = record { current = base_timeout; base = base_timeout; max = max_timeout }

unfoldable pub timeout : TimeoutHandler → ℕ
timeout t = t.current

unfoldable pub on_timeout : TimeoutHandler → TimeoutHandler
on_timeout t = record t { current = min (t.current * 2) t.max }

unfoldable pub on_success : TimeoutHandler → TimeoutHandler
on_success t = record t { current = t.base }

unfoldable pub is_at_max : TimeoutHandler → Bool
is_at_max t = leb t.max t.current

-- How attempts ended, the last one first.
pub data Outcome : Type 0 where
  timed_out succeeded : Outcome

unfoldable pub after : List Outcome → TimeoutHandler
unfolding new on_timeout on_success
after [] = new
after (timed_out ∷ earlier) = on_timeout (after earlier)
after (succeeded ∷ earlier) = on_success (after earlier)

-- The timeouts since the last success.
abbrev pub streak : List Outcome → ℕ
streak [] = 0
streak (timed_out ∷ earlier) = streak earlier + 1
streak (succeeded ∷ earlier) = 0

pub record IsAfter (n : ℕ) (t : TimeoutHandler) : Type 0 where
  pub current_lem : t.current ≡ min (base_timeout * 2 ^ n) max_timeout
  pub base_lem : t.base ≡ base_timeout
  pub max_lem : t.max ≡ max_timeout

after-IsAfter : (history : List Outcome) → IsAfter (streak history) (after history)
unfolding after
after-IsAfter [] = omega arith
after-IsAfter (timed_out ∷ earlier) = omega (
  arith,
  after-IsAfter earlier,
  pow-suc 2 (streak earlier),
  ap (λ (k : ℕ). 2 ^ k) (add-one (streak earlier)),
)
after-IsAfter (succeeded ∷ earlier) = omega (arith, after-IsAfter earlier)

-- After any history of attempts the timeout is min(1000 * 2^n, 30000) ms for the n timeouts since
-- the last success.
pub timeout-after :
    (history : List Outcome)
    → timeout (after history) ≡ min (base_timeout * 2 ^ streak history) max_timeout
unfolding timeout
timeout-after history = (after-IsAfter history).current_lem

pow-pos : (n : ℕ) → 1 ≤ 2 ^ n
pow-pos zero = omega arith
pow-pos (suc n) = omega (arith, pow-suc 2 n, pow-pos n)

capped_iff : (n : ℕ) → (30000 ≤ min (1000 * 2 ^ n) 30000) ↔ (5 ≤ n)
capped_iff zero = (λ h. absurd (omega arith), λ h. omega arith)
capped_iff (suc zero) = (λ h. absurd (omega arith), λ h. omega arith)
capped_iff (suc (suc zero)) = (λ h. absurd (omega arith), λ h. omega arith)
capped_iff (suc (suc (suc zero))) = (λ h. absurd (omega arith), λ h. omega arith)
capped_iff (suc (suc (suc (suc zero)))) = (λ h. absurd (omega arith), λ h. omega arith)
capped_iff (suc (suc (suc (suc (suc n))))) = (
  λ h. omega arith,
  λ h. omega (
    arith,
    pow-pos n,
    pow-suc 2 n,
    pow-suc 2 (suc n),
    pow-suc 2 (suc (suc n)),
    pow-suc 2 (suc (suc (suc n))),
    pow-suc 2 (suc (suc (suc (suc n)))),
  ),
)

-- The handler reports the maximum exactly after five or more timeouts in a row.
pub is_at_max-after_iff :
    (history : List Outcome) → (is_at_max (after history) ≡ true) ↔ (5 ≤ streak history)
unfolding is_at_max
is_at_max-after_iff history =
    let t = after history in
    let i = after-IsAfter history in
    (
      λ e. (capped_iff (streak history)).0 (omega (arith, leb→le t.max t.current e, i)),
      λ h. le→leb t.max t.current (omega (arith, (capped_iff (streak history)).1 h, i)),
    )

-- ===== src/Prelude/Int.antt =====
-- Signed integers over the native numbers, and the reading of a machine word as one.
use Prim.Native.Nat.{ℕ, suc, ◌+◌, ◌-◌, ◌*◌, ◌≤◌, ◌<◌}
use mathlib.Core.Path.{◌≡◌}
use native.Mathlib.Omega.{arith}
use roboplc_middle.Prelude.Tests.{ltb, leb, if◌then◌else◌}

-- `negsuc n` is -(n + 1).
pub data ℤ : Type 0 where
  pos : ℕ → ℤ
  negsuc : ℕ → ℤ

abbrev pub pos_part : ℤ → ℕ
pos_part (pos n) = n
pos_part (negsuc n) = 0

abbrev pub neg_part : ℤ → ℕ
neg_part (pos n) = 0
neg_part (negsuc n) = suc n

infix 50 ◌≤ℤ◌
abbrev pub ◌≤ℤ◌ : ℤ → ℤ → Type 0
a ≤ℤ b = pos_part a + neg_part b ≤ pos_part b + neg_part a

-- The integer that a word stands for, where `half` is 2 to the width minus one.
abbrev pub signed : ℕ → ℕ → ℤ
signed half w = if ltb w half then pos w else negsuc (2 * half - w - 1)

-- Rust's saturating cast of an integer to an unsigned word with the maximum `top`, and to a
-- signed word of `2 * half` patterns, as its bit pattern.
abbrev pub saturate_unsigned : ℕ → ℤ → ℕ
saturate_unsigned top (pos n) = if leb n top then n else top
saturate_unsigned top (negsuc n) = 0

abbrev pub saturate_signed : ℕ → ℤ → ℕ
saturate_signed half (pos n) = if ltb n half then n else half - 1
saturate_signed half (negsuc n) = if ltb n half then 2 * half - n - 1 else half

pub saturate_signed-signed : (half w : ℕ) → w < 2 * half → saturate_signed half (signed half w) ≡ w
saturate_signed-signed half w h = ground arith

pub signed_bounds :
    (half w : ℕ)
    → w < 2 * half
    → (neg_part (signed half w) ≤ half) × (pos_part (signed half w) ≤ half)
signed_bounds half w h = ground arith

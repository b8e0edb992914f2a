-- ===== src/Prelude/Float.antt =====
-- Floating-point numbers as an interface: IEEE 754 arithmetic is the platform's. A value is
-- known by the casts of the Rust reference between it, integers and bit patterns.
use Prim.Native.Nat.{ℕ, ◌%◌, ◌^◌, ◌≤◌, ◌<◌}
use mathlib.Core.Path.{◌≡◌}
use mathlib.Core.Bool.{Bool, true, false}
use roboplc_middle.Prelude.Tests.{ltb}
use roboplc_middle.Prelude.Int.{ℤ, pos, pos_part, neg_part}

-- An `f32` is a NaN if, its sign apart, its pattern is above that of infinity.
abbrev pub is_nan_f32 : ℕ → Bool
is_nan_f32 w = ltb 0x7f80_0000 (w % 2 ^ 31)

pub record Float : Type 1 where
  -- `f64`
  pub F64 : Type 0
  -- `n as f64` of an integer of at most 32 bits
  pub of_int : ℤ → F64
  -- The value rounded towards zero, 0 for a NaN; an infinity is past every machine integer.
  pub trunc : F64 → ℤ
  -- `f64::from_bits`, `f64::to_bits`
  pub of_bits : ℕ → F64
  pub to_bits : F64 → ℕ
  -- `f32::from_bits(w) as f64`, `(v as f32).to_bits()`
  pub of_f32 : ℕ → F64
  pub to_f32 : F64 → ℕ
  -- `v != 0.0`
  pub is_nonzero : F64 → Bool
  -- An integer of at most 32 bits is exact as an `f64`.
  pub trunc-of_int : (z : ℤ) → pos_part z ≤ 2 ^ 32 → neg_part z ≤ 2 ^ 32 → trunc (of_int z) ≡ z
  -- The conversions between an `f64` and its pattern keep all bits.
  pub to_bits-of_bits : (w : ℕ) → w < 2 ^ 64 → to_bits (of_bits w) ≡ w
  pub of_bits-to_bits : (v : F64) → of_bits (to_bits v) ≡ v
  pub to_bits_lt : (v : F64) → to_bits v < 2 ^ 64
  -- Widening an `f32` loses nothing, a NaN's payload apart.
  pub to_f32-of_f32 : (w : ℕ) → w < 2 ^ 32 → is_nan_f32 w ≡ false → to_f32 (of_f32 w) ≡ w
  pub to_f32_lt : (v : F64) → to_f32 v < 2 ^ 32
  pub is_nonzero_zero : is_nonzero (of_int (pos 0)) ≡ false
  pub is_nonzero_one : is_nonzero (of_int (pos 1)) ≡ true

-- ===== src/Conversion/Registers.antt =====
-- A pair of registers as a number (`RegisterPair` of data_conversion.rs).
use roboplc_middle.Prelude.{ℕ, ◌+◌, ◌*◌, ◌^◌, ◌<◌, ◌≡◌, ap, ◌++◌, some, arith}
use roboplc_middle.Prelude.Int.{ℤ, pos, signed}
use roboplc_middle.Prelude.Float.{Float}
use roboplc_middle.Config.{u32, i32, f32, big_endian}
use roboplc_middle.Conversion.{be_bytes2, from_be4, decode, from_bytes, bytes_len}

pub record RegisterPair : Type 0 where
  pub high : ℕ  -- u16
  pub low : ℕ  -- u16

unfoldable pub new : ℕ → ℕ → RegisterPair
new high low = record { high = high; low = low }

-- The halves have no bit in common, so `|` adds them.
unfoldable pub to_u32 : RegisterPair → ℕ
to_u32 p = p.high * 2 ^ 16 + p.low

unfoldable pub to_i32 : RegisterPair → ℤ
unfolding to_u32
to_i32 p = signed (2 ^ 31) (to_u32 p)

-- The pattern of the `f32`.
unfoldable pub to_f32 : RegisterPair → ℕ
unfolding to_u32
to_f32 p = to_u32 p

pair-from_be4 :
    (high low : ℕ)
    → high < 2 ^ 16
    → low < 2 ^ 16
    → from_be4 (be_bytes2 high ++ be_bytes2 low) ≡ to_u32 (new high low)
unfolding from_be4 be_bytes2 to_u32 new
pair-from_be4 high low h l = omega arith

-- The numbers of a pair are those of the four bytes of its registers in big endian order.
pub pair-from_bytes :
    (fl : Float) (high low : ℕ)
    → high < 2 ^ 16
    → low < 2 ^ 16
    → let bytes = be_bytes2 high ++ be_bytes2 low in
      (from_bytes fl bytes u32 big_endian ≡ some (fl.of_int (pos (to_u32 (new high low)))))
      × (from_bytes fl bytes i32 big_endian ≡ some (fl.of_int (to_i32 (new high low))))
      × (from_bytes fl bytes f32 big_endian ≡ some (fl.of_f32 (to_f32 (new high low))))
unfolding from_bytes bytes_len decode be_bytes2 to_i32 to_f32
pair-from_bytes fl high low h l =
    let e = pair-from_be4 high low h l in
    (
      ap (λ n. some (fl.of_int (pos n))) e,
      ap (λ n. some (fl.of_int (signed (2 ^ 31) n))) e,
      ap (λ n. some (fl.of_f32 n)) e,
    )

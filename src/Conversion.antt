-- ===== src/Conversion.antt =====
-- Byte arrays and numbers (data_conversion.rs). A `Vec<u8>` is a list of numbers below 256.
pub mod Order
pub mod Registers
pub mod RoundTrip
pub mod Words
mod Tests
use roboplc_middle.Prelude.{
  ℕ, ◌+◌, ◌-◌, ◌*◌, ◌/◌, ◌%◌, ◌^◌, Bool, true, false, List, [], ◌∷◌, reverse, Option, none, some,
  ◌==◌, if◌then◌else◌, length, get_or,
}
use roboplc_middle.Prelude.Int.{pos, signed, saturate_unsigned, saturate_signed}
use roboplc_middle.Prelude.Float.{Float}
use roboplc_middle.Config.{
  DataType, u16, u32, i16, i32, f32, f64, bool, ByteOrder, big_endian, little_endian,
  little_endian_byte_swap, mid_big,
}

-- `bytes_len`: it answers `Some` for every type.
unfoldable pub bytes_len : DataType → Option ℕ
bytes_len u16 = some 2
bytes_len i16 = some 2
bytes_len u32 = some 4
bytes_len i32 = some 4
bytes_len f32 = some 4
bytes_len f64 = some 8
bytes_len bool = some 1

-- `data.chunks(2).flat_map(|chunk| chunk.iter().rev())`
unfoldable pub swap_pairs : List ℕ → List ℕ
swap_pairs [] = []
swap_pairs (a ∷ []) = a ∷ []
swap_pairs (a ∷ b ∷ rest) = b ∷ a ∷ swap_pairs rest

-- `data[i]`, used where `i` is within the bounds.
abbrev pub at : List ℕ → ℕ → ℕ
at xs i = get_or xs i 0

unfoldable pub swap_words : List ℕ → List ℕ
swap_words d =
    if length d == 4
    then at d 2 ∷ at d 3 ∷ at d 0 ∷ at d 1 ∷ []
    else if length d == 8
    then at d 6 ∷ at d 7 ∷ at d 4 ∷ at d 5 ∷ at d 2 ∷ at d 3 ∷ at d 0 ∷ at d 1 ∷ []
    else d

unfoldable pub convert_byte_order : List ℕ → ByteOrder → List ℕ
convert_byte_order d big_endian = d
convert_byte_order d little_endian = reverse d
convert_byte_order d little_endian_byte_swap = swap_words d
convert_byte_order d mid_big = swap_pairs d

abbrev pub is_big_endian : ByteOrder → Bool
is_big_endian big_endian = true
is_big_endian _ = false

-- `to_be_bytes` and `from_be_bytes` of an unsigned word of 2, 4 and 8 bytes.
unfoldable pub be_bytes2 : ℕ → List ℕ
be_bytes2 w = (w / 256 % 256) ∷ (w % 256) ∷ []

unfoldable pub be_bytes4 : ℕ → List ℕ
be_bytes4 w = (w / 2 ^ 24 % 256) ∷ (w / 2 ^ 16 % 256) ∷ (w / 256 % 256) ∷ (w % 256) ∷ []

unfoldable pub be_bytes8 : ℕ → List ℕ
be_bytes8 w =
    (w / 2 ^ 56 % 256)
    ∷ (w / 2 ^ 48 % 256)
    ∷ (w / 2 ^ 40 % 256)
    ∷ (w / 2 ^ 32 % 256)
    ∷ (w / 2 ^ 24 % 256)
    ∷ (w / 2 ^ 16 % 256)
    ∷ (w / 256 % 256)
    ∷ (w % 256)
    ∷ []

unfoldable pub from_be2 : List ℕ → ℕ
from_be2 d = at d 0 * 256 + at d 1

unfoldable pub from_be4 : List ℕ → ℕ
from_be4 d = at d 0 * 2 ^ 24 + at d 1 * 2 ^ 16 + at d 2 * 256 + at d 3

unfoldable pub from_be8 : List ℕ → ℕ
from_be8 d =
    at d 0 * 2 ^ 56
    + at d 1 * 2 ^ 48
    + at d 2 * 2 ^ 40
    + at d 3 * 2 ^ 32
    + at d 4 * 2 ^ 24
    + at d 5 * 2 ^ 16
    + at d 6 * 256
    + at d 7

module _ (fl : Float) where
  open fl use {F64, of_int, trunc, of_bits, to_bits, of_f32, to_f32, is_nonzero}

  -- The last `match` of `from_bytes`.
  unfoldable pub decode : DataType → List ℕ → F64
  decode u16 d = of_int (pos (from_be2 d))
  decode u32 d = of_int (pos (from_be4 d))
  decode i16 d = of_int (signed (2 ^ 15) (from_be2 d))
  decode i32 d = of_int (signed (2 ^ 31) (from_be4 d))
  decode f32 d = of_f32 (from_be4 d)
  decode f64 d = of_bits (from_be8 d)
  decode bool d = of_int (pos (if at d 0 == 0 then 0 else 1))

  unfoldable pub from_bytes : List ℕ → DataType → ByteOrder → Option F64
  from_bytes d data_type byte_order = elim (bytes_len data_type) [
    | none ↦ none
    | some expected_len ↦
        if length d == expected_len
        then some (
            decode data_type
              (if is_big_endian byte_order then d else convert_byte_order d byte_order))
        else none
  ]

  -- The first `match` of `to_bytes`: casts of a float saturate.
  unfoldable pub canonical : F64 → DataType → List ℕ
  canonical v u16 = be_bytes2 (saturate_unsigned (2 ^ 16 - 1) (trunc v))
  canonical v u32 = be_bytes4 (saturate_unsigned (2 ^ 32 - 1) (trunc v))
  canonical v i16 = be_bytes2 (saturate_signed (2 ^ 15) (trunc v))
  canonical v i32 = be_bytes4 (saturate_signed (2 ^ 31) (trunc v))
  canonical v f32 = be_bytes4 (to_f32 v)
  canonical v f64 = be_bytes8 (to_bits v)
  canonical v bool = (if is_nonzero v then 1 else 0) ∷ []

  unfoldable pub to_bytes : F64 → DataType → ByteOrder → Option (List ℕ)
  to_bytes v data_type byte_order = some (
      if is_big_endian byte_order
      then canonical v data_type
      else convert_byte_order (canonical v data_type) byte_order)

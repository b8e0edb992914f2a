-- ===== src/Conversion/Tests.antt =====
-- Runs of the conversions, and the theorems at concrete inputs.
use roboplc_middle.Prelude.{ℕ, ◌≡◌, refl, arith, [], ◌∷◌, some, List, length}
use roboplc_middle.Prelude.Int.{negsuc}
use roboplc_middle.Prelude.Sample.{sample_float, Pattern, wrap, pattern_of_int}
use roboplc_middle.Config.{
  u16, i16, f32, big_endian, little_endian, little_endian_byte_swap, mid_big,
}
use roboplc_middle.Conversion.{
  bytes_len, convert_byte_order, swap_pairs, swap_words, from_bytes, to_bytes, decode, from_be2,
  from_be4,
}
use roboplc_middle.Conversion.RoundTrip.{to_bytes-from_bytes, from_bytes-to_bytes, stored}

abcd : convert_byte_order (1 ∷ 2 ∷ 3 ∷ 4 ∷ []) little_endian_byte_swap ≡ 3 ∷ 4 ∷ 1 ∷ 2 ∷ []
unfolding convert_byte_order swap_words
abcd = refl

badc : convert_byte_order (1 ∷ 2 ∷ 3 ∷ 4 ∷ []) mid_big ≡ 2 ∷ 1 ∷ 4 ∷ 3 ∷ []
unfolding convert_byte_order swap_pairs
badc = refl

minus_two :
    from_bytes sample_float (0xff ∷ 0xfe ∷ []) i16 big_endian ≡ some (pattern_of_int (negsuc 1))
unfolding from_bytes bytes_len decode from_be2
minus_two = refl

to_bytes-from_bytes_example :
    (v : Pattern) × (from_bytes sample_float (1 ∷ 2 ∷ 3 ∷ 4 ∷ []) f32 mid_big ≡ some v)
    × (to_bytes sample_float v f32 mid_big ≡ some (1 ∷ 2 ∷ 3 ∷ 4 ∷ []))
unfolding convert_byte_order swap_pairs from_be4
to_bytes-from_bytes_example =
    to_bytes-from_bytes sample_float (1 ∷ 2 ∷ 3 ∷ 4 ∷ []) f32 mid_big (unfold bytes_len in refl)
      (omega arith) refl

from_bytes-to_bytes_example :
    (d : List ℕ) × (to_bytes sample_float (wrap 70000) u16 little_endian ≡ some d)
    × (bytes_len u16 ≡ some (length d))
    × (from_bytes sample_float d u16 little_endian ≡ some (stored sample_float (wrap 70000) u16))
from_bytes-to_bytes_example = from_bytes-to_bytes sample_float (wrap 70000) u16 little_endian

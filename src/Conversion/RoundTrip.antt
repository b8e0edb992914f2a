-- ===== src/Conversion/RoundTrip.antt =====
-- `from_bytes` and `to_bytes` of data_conversion.rs, one after the other.
use roboplc_middle.Prelude.{
  ℕ, zero, suc, ◌-◌, ◌^◌, ◌≤◌, ◌<◌, ◌≡◌, refl, ap, ◌∙◌, arith, false, List, [], ◌∷◌, Option, some,
  length, All, if◌then◌else◌,
}
use roboplc_middle.Prelude.Int.{
  pos, signed, saturate_unsigned, saturate_signed-signed, signed_bounds,
}
use roboplc_middle.Prelude.Float.{Float, is_nan_f32}
use roboplc_middle.Config.{
  DataType, u16, u32, i16, i32, f32, f64, bool, ByteOrder, big_endian, little_endian,
  little_endian_byte_swap, mid_big,
}
use roboplc_middle.Conversion.{
  bytes_len, convert_byte_order, is_big_endian, be_bytes2, be_bytes4, be_bytes8, from_be2, from_be4,
  from_be8, decode, from_bytes, canonical, to_bytes,
}
use roboplc_middle.Conversion.Words.{
  IsByte, be_bytes2-from_be2, be_bytes4-from_be4, be_bytes8-from_be8, from_be2-be_bytes2,
  from_be4-be_bytes4, from_be8-be_bytes8, clamp, signed-saturate_signed, saturate_signed-lt,
  saturate_unsigned-le,
}
use roboplc_middle.Conversion.Order.{
  All-convert_byte_order, convert_byte_order_twice, length-convert_byte_order,
}

-- Both branches on the byte order do the same, since big-endian data is left as it is.
ordered-convert :
    (d : List ℕ) (order : ByteOrder)
    → (if is_big_endian order then d else convert_byte_order d order) ≡ convert_byte_order d order
unfolding convert_byte_order
ordered-convert d big_endian = refl
ordered-convert d little_endian = refl
ordered-convert d little_endian_byte_swap = refl
ordered-convert d mid_big = refl

-- Patterns that a value keeps: a NaN `f32` may change its payload, and a Boolean is 0 or 1.
abbrev pub IsExact : DataType → List ℕ → Type 0
IsExact f32 d = is_nan_f32 (from_be4 d) ≡ false
IsExact bool d = from_be2 (0 ∷ d) ≤ 1
IsExact _ d = Unit {0}

module _ (fl : Float) where
  open fl use {
    F64, of_int, trunc, of_bits, to_bits, of_f32, to_f32, is_nonzero, trunc-of_int, to_bits-of_bits,
    of_bits-to_bits, to_bits_lt, to_f32-of_f32, to_f32_lt, is_nonzero_zero, is_nonzero_one,
  }

  canonical2-decode :
      (a b : ℕ)
      → IsByte a
      → IsByte b
      → (canonical fl (decode fl u16 (a ∷ b ∷ [])) u16 ≡ a ∷ b ∷ [])
        × (canonical fl (decode fl i16 (a ∷ b ∷ [])) i16 ≡ a ∷ b ∷ [])
  unfolding canonical decode
  canonical2-decode a b ha hb =
      let w = from_be2 (a ∷ b ∷ []) in
      let back = be_bytes2-from_be2 a b ha hb in
      let small : w < 2 ^ 16 = unfold from_be2 in omega arith in
      let (lo, hi) = signed_bounds (2 ^ 15) w small in
      (
        rw (trunc-of_int (pos w) (omega arith) (omega arith)) (ground (arith, back)),
        rw (trunc-of_int (signed (2 ^ 15) w) (omega arith) (omega arith))
            (rw (saturate_signed-signed (2 ^ 15) w small) back),
      )

  canonical4-decode :
      (a b c d : ℕ)
      → IsByte a
      → IsByte b
      → IsByte c
      → IsByte d
      → (canonical fl (decode fl u32 (a ∷ b ∷ c ∷ d ∷ [])) u32 ≡ a ∷ b ∷ c ∷ d ∷ [])
        × (canonical fl (decode fl i32 (a ∷ b ∷ c ∷ d ∷ [])) i32 ≡ a ∷ b ∷ c ∷ d ∷ [])
        × (IsExact f32 (a ∷ b ∷ c ∷ d ∷ [])
            → canonical fl (decode fl f32 (a ∷ b ∷ c ∷ d ∷ [])) f32 ≡ a ∷ b ∷ c ∷ d ∷ [])
  unfolding canonical decode
  canonical4-decode a b c d ha hb hc hd =
      let w = from_be4 (a ∷ b ∷ c ∷ d ∷ []) in
      let back = be_bytes4-from_be4 a b c d ha hb hc hd in
      let small : w < 2 ^ 32 = unfold from_be4 in omega arith in
      let (lo, hi) = signed_bounds (2 ^ 31) w small in
      (
        rw (trunc-of_int (pos w) (omega arith) (omega arith)) (ground (arith, back)),
        rw (trunc-of_int (signed (2 ^ 31) w) (omega arith) (omega arith))
            (rw (saturate_signed-signed (2 ^ 31) w small) back),
        λ e. rw (to_f32-of_f32 w small e) back,
      )

  canonical8-decode :
      (a b c d e f g h : ℕ)
      → IsByte a
      → IsByte b
      → IsByte c
      → IsByte d
      → IsByte e
      → IsByte f
      → IsByte g
      → IsByte h
      → canonical fl (decode fl f64 (a ∷ b ∷ c ∷ d ∷ e ∷ f ∷ g ∷ h ∷ [])) f64
        ≡ a ∷ b ∷ c ∷ d ∷ e ∷ f ∷ g ∷ h ∷ []
  unfolding canonical decode
  canonical8-decode a b c d e f g h ha hb hc hd he hf hg hh =
      let w = from_be8 (a ∷ b ∷ c ∷ d ∷ e ∷ f ∷ g ∷ h ∷ []) in
      let small : w < 2 ^ 64 = unfold from_be8 in omega arith in
      rw (to_bits-of_bits w small) (be_bytes8-from_be8 a b c d e f g h ha hb hc hd he hf hg hh)

  canonical1-decode :
      (a : ℕ) → IsExact bool (a ∷ []) → canonical fl (decode fl bool (a ∷ [])) bool ≡ a ∷ []
  unfolding canonical decode from_be2
  canonical1-decode zero h = rw is_nonzero_zero refl
  canonical1-decode (suc zero) h = rw is_nonzero_one refl
  canonical1-decode (suc (suc a)) h = absurd (omega arith)

  canonical-decode :
      (data_type : DataType) (d : List ℕ)
      → bytes_len data_type ≡ some (length d)
      → All IsByte d
      → IsExact data_type d
      → canonical fl (decode fl data_type d) data_type ≡ d
  unfolding bytes_len
  canonical-decode u16 (a ∷ b ∷ []) n h e = (canonical2-decode a b h.0 h.1.0).0
  canonical-decode i16 (a ∷ b ∷ []) n h e = (canonical2-decode a b h.0 h.1.0).1
  canonical-decode u32 (a ∷ b ∷ c ∷ d ∷ []) n h e =
      (canonical4-decode a b c d h.0 h.1.0 h.1.1.0 h.1.1.1.0).0
  canonical-decode i32 (a ∷ b ∷ c ∷ d ∷ []) n h e =
      (canonical4-decode a b c d h.0 h.1.0 h.1.1.0 h.1.1.1.0).1
  canonical-decode f32 (a ∷ b ∷ c ∷ d ∷ []) n h e =
      (canonical4-decode a b c d h.0 h.1.0 h.1.1.0 h.1.1.1.0).2 e
  canonical-decode f64 (a ∷ b ∷ c ∷ d ∷ e ∷ f ∷ g ∷ i ∷ []) n h x =
      canonical8-decode a b c d e f g i h.0 h.1.0 h.1.1.0 h.1.1.1.0 h.1.1.1.1.0 h.1.1.1.1.1.0
        h.1.1.1.1.1.1.0 h.1.1.1.1.1.1.1.0
  canonical-decode bool (a ∷ []) n h e = canonical1-decode a e
  canonical-decode _ _ n h e = absurd (ground arith)

  from_bytes_lem :
      (d : List ℕ) (data_type : DataType) (order : ByteOrder)
      → bytes_len data_type ≡ some (length d)
      → from_bytes fl d data_type order ≡ some (decode fl data_type (convert_byte_order d order))
  unfolding from_bytes
  from_bytes_lem d data_type order n = ground (arith, n, ordered-convert d order)

  -- What is decoded in any byte order encodes to the same bytes: for bytes of the length that the
  -- type asks for, `from_bytes` succeeds, and `to_bytes` of its value gives the bytes back. A
  -- Boolean byte must be 0 or 1, and an `f32` no NaN.
  pub to_bytes-from_bytes :
      (d : List ℕ) (data_type : DataType) (order : ByteOrder)
      → bytes_len data_type ≡ some (length d)
      → All IsByte d
      → IsExact data_type (convert_byte_order d order)
      → (v : F64) × (from_bytes fl d data_type order ≡ some v)
        × (to_bytes fl v data_type order ≡ some d)
  unfolding to_bytes
  to_bytes-from_bytes d data_type order n h e =
      let c = convert_byte_order d order in
      let len : bytes_len data_type ≡ some (length c) = rw (length-convert_byte_order d order) n in
      (
        decode fl data_type c,
        from_bytes_lem d data_type order n,
        ap {B = Option (List ℕ)} some (
            ordered-convert _ order
            ∙ ap (λ (x : List ℕ). convert_byte_order x order)
                (canonical-decode data_type c len (All-convert_byte_order IsByte d order h) e)
            ∙ convert_byte_order_twice d order),
      )

  -- The value that a device of the type holds after the write of `v`.
  abbrev pub stored : F64 → DataType → F64
  stored v u16 = of_int (pos (saturate_unsigned (2 ^ 16 - 1) (trunc v)))
  stored v u32 = of_int (pos (saturate_unsigned (2 ^ 32 - 1) (trunc v)))
  stored v i16 = of_int (clamp (2 ^ 15) (trunc v))
  stored v i32 = of_int (clamp (2 ^ 31) (trunc v))
  stored v f32 = of_f32 (to_f32 v)
  stored v f64 = v
  stored v bool = of_int (pos (if is_nonzero v then 1 else 0))

  decode-canonical :
      (v : F64) (data_type : DataType)
      → decode fl data_type (canonical fl v data_type) ≡ stored v data_type
  unfolding decode canonical
  decode-canonical v u16 =
      let w = saturate_unsigned (2 ^ 16 - 1) (trunc v) in
      let small : w < 2 ^ 16 = omega (arith, saturate_unsigned-le (2 ^ 16 - 1) (trunc v)) in
      ap (λ (n : ℕ). of_int (pos n)) (from_be2-be_bytes2 w small)
  decode-canonical v u32 =
      let w = saturate_unsigned (2 ^ 32 - 1) (trunc v) in
      let small : w < 2 ^ 32 = omega (arith, saturate_unsigned-le (2 ^ 32 - 1) (trunc v)) in
      ap (λ (n : ℕ). of_int (pos n)) (from_be4-be_bytes4 w small)
  decode-canonical v i16 =
      let small = saturate_signed-lt (2 ^ 15) (trunc v) (omega arith) in
      ap (λ (n : ℕ). of_int (signed (2 ^ 15) n)) (from_be2-be_bytes2 _ small)
      ∙ ap of_int (signed-saturate_signed (2 ^ 15) (trunc v) (omega arith))
  decode-canonical v i32 =
      let small = saturate_signed-lt (2 ^ 31) (trunc v) (omega arith) in
      ap (λ (n : ℕ). of_int (signed (2 ^ 31) n)) (from_be4-be_bytes4 _ small)
      ∙ ap of_int (signed-saturate_signed (2 ^ 31) (trunc v) (omega arith))
  decode-canonical v f32 = ap (λ (n : ℕ). of_f32 n) (from_be4-be_bytes4 _ (to_f32_lt v))
  decode-canonical v f64 =
      ap (λ (n : ℕ). of_bits n) (from_be8-be_bytes8 _ (to_bits_lt v)) ∙ of_bits-to_bits v
  decode-canonical v bool = ground arith

  pub length-canonical :
      (v : F64) (data_type : DataType)
      → bytes_len data_type ≡ some (length (canonical fl v data_type))
  unfolding bytes_len canonical be_bytes2 be_bytes4 be_bytes8
  length-canonical v u16 = refl
  length-canonical v _ = refl

  -- `to_bytes` never fails, and reading its bytes back in the same order gives the stored value:
  -- the whole part of `v` clamped to the range of an integer type, `v` rounded to single precision
  -- for `f32`, `v` itself for `f64`, and 1 for a non-zero Boolean.
  pub from_bytes-to_bytes :
      (v : F64) (data_type : DataType) (order : ByteOrder)
      → (d : List ℕ) × (to_bytes fl v data_type order ≡ some d)
        × (bytes_len data_type ≡ some (length d))
        × (from_bytes fl d data_type order ≡ some (stored v data_type))
  unfolding to_bytes
  from_bytes-to_bytes v data_type order =
      let c = canonical fl v data_type in
      let d = convert_byte_order c order in
      let len : bytes_len data_type ≡ some (length d) =
        rw (length-convert_byte_order c order) (length-canonical v data_type) in
      (
        d,
        ap {B = Option (List ℕ)} some (ordered-convert c order),
        len,
        from_bytes_lem d data_type order len
            ∙ ap {B = Option F64} some (
                ap (λ (x : List ℕ). decode fl data_type x) (convert_byte_order_twice c order)
                ∙ decode-canonical v data_type),
      )

  canonical-IsByte : (v : F64) (data_type : DataType) → All IsByte (canonical fl v data_type)
  unfolding canonical be_bytes2 be_bytes4 be_bytes8
  canonical-IsByte v bool = ground arith
  canonical-IsByte v _ = omega arith

  -- `to_bytes` gives bytes.
  pub to_bytes-IsByte :
      (v : F64) (data_type : DataType) (order : ByteOrder) (d : List ℕ)
      → to_bytes fl v data_type order ≡ some d
      → All IsByte d
  unfolding to_bytes
  to_bytes-IsByte v data_type order d e =
      let same : convert_byte_order (canonical fl v data_type) order ≡ d =
        cc (ordered-convert (canonical fl v data_type) order) in
      rw same at (All-convert_byte_order IsByte _ order (canonical-IsByte v data_type))

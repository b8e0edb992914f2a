-- ===== src/Conversion/Words.antt =====
-- Big-endian bytes of a machine word and saturating casts, both ways (data_conversion.rs).
use roboplc_middle.Prelude.{ℕ, ◌-◌, ◌*◌, ◌^◌, ◌≤◌, ◌<◌, ◌≡◌, arith, [], ◌∷◌, min}
use roboplc_middle.Prelude.Int.{ℤ, pos, negsuc, signed, saturate_unsigned, saturate_signed}
use roboplc_middle.Conversion.{be_bytes2, be_bytes4, be_bytes8, from_be2, from_be4, from_be8}

abbrev pub IsByte : ℕ → Type 0
IsByte b = b < 256

pub be_bytes2-from_be2 :
    (a b : ℕ) → IsByte a → IsByte b → be_bytes2 (from_be2 (a ∷ b ∷ [])) ≡ a ∷ b ∷ []
unfolding be_bytes2 from_be2
be_bytes2-from_be2 a b ha hb = ground arith

pub be_bytes4-from_be4 :
    (a b c d : ℕ)
    → IsByte a
    → IsByte b
    → IsByte c
    → IsByte d
    → be_bytes4 (from_be4 (a ∷ b ∷ c ∷ d ∷ [])) ≡ a ∷ b ∷ c ∷ d ∷ []
unfolding be_bytes4 from_be4
be_bytes4-from_be4 a b c d ha hb hc hd = ground arith

pub from_be2-be_bytes2 : (w : ℕ) → w < 2 ^ 16 → from_be2 (be_bytes2 w) ≡ w
unfolding be_bytes2 from_be2
from_be2-be_bytes2 w h = omega arith

pub from_be4-be_bytes4 : (w : ℕ) → w < 2 ^ 32 → from_be4 (be_bytes4 w) ≡ w
unfolding be_bytes4 from_be4
from_be4-be_bytes4 w h = omega arith

pub from_be8-be_bytes8 : (w : ℕ) → w < 2 ^ 64 → from_be8 (be_bytes8 w) ≡ w
unfolding be_bytes8 from_be8
from_be8-be_bytes8 w h = omega arith

pub be_bytes8-from_be8 :
    (a b c d e f g h : ℕ)
    → IsByte a
    → IsByte b
    → IsByte c
    → IsByte d
    → IsByte e
    → IsByte f
    → IsByte g
    → IsByte h
    → be_bytes8 (from_be8 (a ∷ b ∷ c ∷ d ∷ e ∷ f ∷ g ∷ h ∷ [])) ≡ a ∷ b ∷ c ∷ d ∷ e ∷ f ∷ g ∷ h ∷ []
unfolding be_bytes8 from_be8
be_bytes8-from_be8 a b c d e f g h ha hb hc hd he hf hg hh = ground arith

-- Rust's saturating cast to a signed integer of the range -half to half - 1.
abbrev pub clamp : ℕ → ℤ → ℤ
clamp half (pos n) = pos (min n (half - 1))
clamp half (negsuc n) = negsuc (min n (half - 1))

pub signed-saturate_signed :
    (half : ℕ) (z : ℤ) → 0 < half → signed half (saturate_signed half z) ≡ clamp half z
signed-saturate_signed half (pos n) h = ground arith
signed-saturate_signed half (negsuc n) h = ground arith

pub saturate_signed-lt : (half : ℕ) (z : ℤ) → 0 < half → saturate_signed half z < 2 * half
saturate_signed-lt half (pos n) h = ground arith
saturate_signed-lt half (negsuc n) h = ground arith

pub saturate_unsigned-le : (top : ℕ) (z : ℤ) → saturate_unsigned top z ≤ top
saturate_unsigned-le top (pos n) = ground arith
saturate_unsigned-le top (negsuc n) = omega arith

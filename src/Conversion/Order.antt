-- ===== src/Conversion/Order.antt =====
-- `convert_byte_order` of data_conversion.rs: each order undoes itself, and the orders compose.
use mathlib.Core.List.{reverse-reverse, reverse-append}
use roboplc_middle.Prelude.{
  some, All, All-append, reverse, ℕ, suc, ◌≡◌, refl, ap, arith, List, [], ◌∷◌, length,
  length-reverse,
}
use roboplc_middle.Config.{
  DataType, ByteOrder, big_endian, little_endian, little_endian_byte_swap, mid_big,
}
use roboplc_middle.Conversion.{bytes_len, swap_pairs, swap_words, convert_byte_order}

swap_pairs_twice : (d : List ℕ) → swap_pairs (swap_pairs d) ≡ d
unfolding swap_pairs
swap_pairs_twice [] = refl
swap_pairs_twice (a ∷ []) = refl
swap_pairs_twice (a ∷ b ∷ rest) = ap (λ (r : List ℕ). a ∷ b ∷ r) (swap_pairs_twice rest)

swap_words_twice : (d : List ℕ) → swap_words (swap_words d) ≡ d
unfolding swap_words
swap_words_twice [] = refl
swap_words_twice (a ∷ []) = refl
swap_words_twice (a ∷ b ∷ []) = refl
swap_words_twice (a ∷ b ∷ c ∷ []) = refl
swap_words_twice (a ∷ b ∷ c ∷ d ∷ []) = refl
swap_words_twice (a ∷ b ∷ c ∷ d ∷ e ∷ []) = refl
swap_words_twice (a ∷ b ∷ c ∷ d ∷ e ∷ f ∷ []) = refl
swap_words_twice (a ∷ b ∷ c ∷ d ∷ e ∷ f ∷ g ∷ []) = refl
swap_words_twice (a ∷ b ∷ c ∷ d ∷ e ∷ f ∷ g ∷ h ∷ []) = refl
swap_words_twice (a ∷ b ∷ c ∷ d ∷ e ∷ f ∷ g ∷ h ∷ k ∷ rest) = ground arith

-- Every byte order is its own inverse, on data of any length: converting twice gives the data
-- back.
pub convert_byte_order_twice :
    (d : List ℕ) (order : ByteOrder) → convert_byte_order (convert_byte_order d order) order ≡ d
unfolding convert_byte_order
convert_byte_order_twice d big_endian = refl
convert_byte_order_twice d little_endian = reverse-reverse d
convert_byte_order_twice d little_endian_byte_swap = swap_words_twice d
convert_byte_order_twice d mid_big = swap_pairs_twice d

length-swap_pairs : (d : List ℕ) → length (swap_pairs d) ≡ length d
unfolding swap_pairs
length-swap_pairs [] = refl
length-swap_pairs (a ∷ []) = refl
length-swap_pairs (a ∷ b ∷ rest) = ap (λ (n : ℕ). suc (suc n)) (length-swap_pairs rest)

length-swap_words : (d : List ℕ) → length (swap_words d) ≡ length d
unfolding swap_words
length-swap_words d = ground arith

pub length-convert_byte_order :
    (d : List ℕ) (order : ByteOrder) → length (convert_byte_order d order) ≡ length d
unfolding convert_byte_order
length-convert_byte_order d big_endian = refl
length-convert_byte_order d little_endian = length-reverse d
length-convert_byte_order d little_endian_byte_swap = length-swap_words d
length-convert_byte_order d mid_big = length-swap_pairs d

-- On data of 1, 2, 4 or 8 bytes, the lengths of the data types, little-endian order is the swap
-- of the registers followed by the swap of the bytes in each register.
pub little_endian-composed :
    (d : List ℕ) (data_type : DataType)
    → bytes_len data_type ≡ some (length d)
    → convert_byte_order (convert_byte_order d little_endian_byte_swap) mid_big
      ≡ convert_byte_order d little_endian
unfolding bytes_len convert_byte_order swap_pairs swap_words
little_endian-composed [] data_type h = ground arith
little_endian-composed (a ∷ []) data_type h = refl
little_endian-composed (a ∷ b ∷ []) data_type h = refl
little_endian-composed (a ∷ b ∷ c ∷ []) data_type h = ground arith
little_endian-composed (a ∷ b ∷ c ∷ d ∷ []) data_type h = refl
little_endian-composed (a ∷ b ∷ c ∷ d ∷ e ∷ []) data_type h = ground arith
little_endian-composed (a ∷ b ∷ c ∷ d ∷ e ∷ f ∷ []) data_type h = ground arith
little_endian-composed (a ∷ b ∷ c ∷ d ∷ e ∷ f ∷ g ∷ []) data_type h = ground arith
little_endian-composed (a ∷ b ∷ c ∷ d ∷ e ∷ f ∷ g ∷ h ∷ []) data_type k = refl
little_endian-composed (a ∷ b ∷ c ∷ d ∷ e ∷ f ∷ g ∷ h ∷ k ∷ rest) data_type p = ground arith

swap_words_long :
    (a b c d e f g i k : ℕ) (rest : List ℕ)
    → let l = a ∷ b ∷ c ∷ d ∷ e ∷ f ∷ g ∷ i ∷ k ∷ rest in swap_words l ≡ l
unfolding swap_words
swap_words_long a b c d e f g i k rest = ground arith

module _ {κ} (P : ℕ → Type κ) where
  All-reverse : (d : List ℕ) → All P d → All P (reverse d)
  All-reverse [] h = h
  All-reverse (x ∷ xs) h =
      rw (reverse-append (x ∷ []) xs)
        (All-append P (reverse xs) (x ∷ []) (All-reverse xs h.1) (h.0, tt))

  All-swap_pairs : (d : List ℕ) → All P d → All P (swap_pairs d)
  unfolding swap_pairs
  All-swap_pairs [] h = h
  All-swap_pairs (a ∷ []) h = h
  All-swap_pairs (a ∷ b ∷ rest) h = (h.1.0, (h.0, All-swap_pairs rest h.1.1))

  All-swap_words : (d : List ℕ) → All P d → All P (swap_words d)
  unfolding swap_words
  All-swap_words [] h = h
  All-swap_words (a ∷ []) h = h
  All-swap_words (a ∷ b ∷ []) h = h
  All-swap_words (a ∷ b ∷ c ∷ []) h = h
  All-swap_words (a ∷ b ∷ c ∷ d ∷ []) h = (h.1.1.0, (h.1.1.1.0, (h.0, (h.1.0, tt))))
  All-swap_words (a ∷ b ∷ c ∷ d ∷ e ∷ []) h = h
  All-swap_words (a ∷ b ∷ c ∷ d ∷ e ∷ f ∷ []) h = h
  All-swap_words (a ∷ b ∷ c ∷ d ∷ e ∷ f ∷ g ∷ []) h = h
  All-swap_words (a ∷ b ∷ c ∷ d ∷ e ∷ f ∷ g ∷ i ∷ []) h =
      let (ha, (hb, (hc, (hd, (he, (hf, (hg, (hi, end)))))))) = h in
      (hg, (hi, (he, (hf, (hc, (hd, (ha, (hb, tt))))))))
  All-swap_words (a ∷ b ∷ c ∷ d ∷ e ∷ f ∷ g ∷ i ∷ k ∷ rest) h =
      rw (swap_words_long a b c d e f g i k rest) h

  -- The bytes are the same ones.
  pub All-convert_byte_order :
      (d : List ℕ) (order : ByteOrder) → All P d → All P (convert_byte_order d order)
  unfolding convert_byte_order
  All-convert_byte_order d big_endian h = h
  All-convert_byte_order d little_endian h = All-reverse d h
  All-convert_byte_order d little_endian_byte_swap h = All-swap_words d h
  All-convert_byte_order d mid_big h = All-swap_pairs d h
